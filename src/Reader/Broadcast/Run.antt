-- ===== src/Reader/Broadcast/Run.antt =====
-- mcanbus/src/reader.rs: a whole run of the thread, as one subscriber sees it.
use mcanbus.Base.{
  ℕ, zero, suc, ◌≡◌, sym, ap, ◌∙◌, arith, pos→==, min, Bool, true, false, List, [], ◌∷◌, ◌++◌, All,
  append_assoc, append-nil, length, take, drop, if◌then◌else◌,
}
use mcanbus.Base.Results.{Result, ok, err}
use mcanbus.Frame.Data.{Frame}
use mcanbus.Io.{IoError}
use mcanbus.Reader.{TrySend, sent, SubscriberInner, ReaderInner, after_batch, reader_round}
use mcanbus.Reader.Broadcast.{IsQueue}
use mcanbus.Reader.Kept.{ReadsKeep, recv_batch-keeps}
use mcanbus.Reader.Loop.{hangs, Interference, push_all, store_stop, run_reader}
use mcanbus.Socket.Kernel.{Kernel}
use mcanbus.Socket.Transfer.{Socket, recv_batch}
use mcanbus.Reader.Broadcast.Served.{fed_by, fed_by-append, times, distribute-Served}

-- The frames that `recv_batch` returned for the slots `active`, those behind them as they are.
abbrev pub batch_frames :
    {W : Type 0} → ℕ → List Frame → Result (ℕ × List Frame) IoError × W → List Frame
batch_frames active buf (ok (n, out), w) = take n (out ++ drop active buf)
batch_frames active buf (err e, w) = []

module _ (k : Kernel) (try_send : ℕ → Frame → k.World → TrySend × k.World) (socket : Socket)
    (batch_size : ℕ) where
  open k use {World}

  -- What the thread has got of the kernel in a run, batch after batch.
  unfoldable pub heard : List (Interference World) → List Frame → ReaderInner → World → List Frame
  heard [] buf inner w = []
  heard (e ∷ es) buf inner w =
      let active = min batch_size (length buf) in
      let batch = batch_frames active buf (recv_batch k socket (take active buf) (e.others w)) in
      let ((buf', inner'), w₁) =
        reader_round k try_send socket batch_size buf e.joined (push_all e.waiting inner)
          (e.others w) in
      let later = heard es buf' (store_stop e.stop inner') w₁ in
      if inner.stop
      then []
      else if hangs k try_send socket batch_size buf (e.others w)
      then []
      else batch ++ later

  module _ (queue : IsQueue try_send)
      (takes : (tx : ℕ) (frame : Frame) (w : World) → (try_send tx frame w).0 ≡ sent) (tx : ℕ)
      (reads : ReadsKeep k (queue.log tx)) where
    open queue use {log}

    -- Another subscriber for no queue of `tx`, and nothing more in it.
    abbrev pub Elsewhere : Interference World → Type 0
    Elsewhere e =
        ((w : World) → log tx (e.others w) ≡ log tx w)
        × (fed_by tx e.waiting ≡ 0)
        × (fed_by tx e.joined ≡ 0)

    reader_round-Served :
        (buf : List Frame) (joined : List SubscriberInner) (inner : ReaderInner) (w : World)
        → fed_by tx inner.subscribers ≡ 1
        → fed_by tx joined ≡ 0
        → let active = min batch_size (length buf) in
          let after = reader_round k try_send socket batch_size buf joined inner w in
          (fed_by tx after.0.1.subscribers ≡ 1)
          × (log tx after.1
              ≡ log tx w ++ batch_frames active buf (recv_batch k socket (take active buf) w))
    unfolding reader_round after_batch
    reader_round-Served buf joined inner w one no_more =
        given (recv_batch k socket (take active buf) w)
          (recv_batch-keeps k (log tx) reads socket (take active buf) w)
      where
        active : ℕ
        active = min batch_size (length buf)

        given :
            (r : Result (ℕ × List Frame) IoError × World)
            → log tx r.1 ≡ log tx w
            → let after = after_batch k try_send socket active buf joined inner r in
              (fed_by tx after.0.1.subscribers ≡ 1)
              × (log tx after.1 ≡ log tx w ++ batch_frames active buf r)
        given (ok (zero, out), w₁) kept = (one, kept ∙ sym (append-nil (log tx w)))
        given (ok (suc n, out), w₁) kept =
            let frames = take (suc n) (out ++ drop active buf) in
            let h = distribute-Served try_send queue takes tx frames joined inner w₁ in
            rw (pos→== (suc n) (omega arith)) (
              omega (arith, h.0, one, no_more),
              h.1
                  ∙ ap (λ (m : ℕ). log tx w₁ ++ times m frames) one
                  ∙ ap (λ (l : List Frame). log tx w₁ ++ l) (append-nil frames)
                  ∙ ap (λ (l : List Frame). l ++ frames) kept,
            )
        given (err e, w₁) kept = (one, reads.sleep_keeps 20 w₁ ∙ kept ∙ sym (append-nil (log tx w)))

    -- When queues take every frame and the queue `tx` has one subscriber, which is registered, this
    -- subscriber is given all that the thread gets of the kernel, batch after batch: nothing is
    -- missing, nothing comes twice or in another order, and it is still registered at the end.
    pub run_reader-heard :
        (es : List (Interference World)) (buf : List Frame) (inner : ReaderInner) (w : World)
        → fed_by tx inner.subscribers ≡ 1
        → All Elsewhere es
        → let after = run_reader k try_send socket batch_size es buf inner w in
          (fed_by tx after.0.0.subscribers ≡ 1)
          × (log tx after.1 ≡ log tx w ++ heard es buf inner w)
    unfolding run_reader heard
    run_reader-heard [] buf inner w one elsewhere = (one, sym (append-nil (log tx w)))
    run_reader-heard (e ∷ es) buf inner w one ((same, no_waiting, no_joined), elsewhere) =
        let waited = push_all e.waiting inner in
        let r = reader_round k try_send socket batch_size buf e.joined waited (e.others w) in
        let h =
          reader_round-Served buf e.joined waited (e.others w)
            (fed_by-append tx inner.subscribers e.waiting ∙ omega (arith, one, no_waiting))
            no_joined in
        let active = min batch_size (length buf) in
        let batch = batch_frames active buf (recv_batch k socket (take active buf) (e.others w)) in
        let rest = heard es r.0.0 (store_stop e.stop r.0.1) r.1 in
        let later = run_reader-heard es r.0.0 (store_stop e.stop r.0.1) r.1 h.0 elsewhere in
        tested inner.stop (hangs k try_send socket batch_size buf (e.others w)) _ (batch ++ rest) (
          later.0,
          later.1
              ∙ ap (λ (l : List Frame). l ++ rest) h.1
              ∙ append_assoc (log tx (e.others w)) batch rest
              ∙ ap (λ (l : List Frame). l ++ (batch ++ rest)) (same w),
        )
      where
        tested :
            (stop hang : Bool) (o : (ReaderInner × Bool) × World) (frames : List Frame)
            → (fed_by tx o.0.0.subscribers ≡ 1) × (log tx o.1 ≡ log tx w ++ frames)
            → let after : (ReaderInner × Bool) × World =
                if stop
                then ((inner, true), w)
                else if hang
                then ((store_stop e.stop (push_all e.waiting inner), false), e.others w)
                else o in
              (fed_by tx after.0.0.subscribers ≡ 1)
              × (log tx after.1 ≡ log tx w ++ (if stop then [] else if hang then [] else frames))
        tested true hang o frames h = (one, sym (append-nil (log tx w)))
        tested false false o frames h = h
        tested false true o frames h = (
          fed_by-append tx inner.subscribers e.waiting ∙ omega (arith, one, no_waiting),
          same w ∙ sym (append-nil (log tx w)),
        )
