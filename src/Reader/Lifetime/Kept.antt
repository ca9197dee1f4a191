-- ===== src/Reader/Lifetime/Kept.antt =====
-- mcanbus/src/reader.rs: the thread of a reader leaves the open descriptors alone.
use mcanbus.Base.{
  All, ℕ, ◌≡◌, refl, ◌∙◌, Bool, true, List, [], ◌∷◌, ◌++◌, ◌+◌, ◌%◌, ◌^◌, length, ◌==◌,
  either_branch, take, min,
}
use mcanbus.Base.Results.{Result, ok, err}
use mcanbus.Frame.Data.{Frame}
use mcanbus.Io.{IoError}
use mcanbus.Reader.{
  TrySend, sent, full, disconnected, SubscriberInner, ReaderInner, offer, fan_out, distribute,
  after_batch, reader_round,
}
use mcanbus.Reader.Kept.{ReadsKeep, recv_batch-keeps}
use mcanbus.Reader.Loop.{hangs, Interference, push_all, store_stop, run_reader}
use mcanbus.Socket.Kernel.{Kernel}
use mcanbus.Socket.Ledger.{Ledger}
use mcanbus.Socket.Transfer.{Socket, recv_batch}

-- The calls of the thread of a reader.
pub record ReaderLedger (k : Kernel) (ledger : Ledger k)
    (try_send : ℕ → Frame → k.World → TrySend × k.World) : Type 0 where
  pub reads : ReadsKeep k ledger.open_fds
  pub try_send_keeps :
      (tx : ℕ) (frame : Frame) (w : k.World)
      → ledger.open_fds (try_send tx frame w).1 ≡ ledger.open_fds w

-- What others do before a round leaves the open descriptors alone.
abbrev pub OthersKeep : (k : Kernel) → Ledger k → Interference k.World → Type 0
OthersKeep k ledger e = (w : k.World) → ledger.open_fds (e.others w) ≡ ledger.open_fds w

module _ (k : Kernel) (ledger : Ledger k) (try_send : ℕ → Frame → k.World → TrySend × k.World)
    (reader_calls : ReaderLedger k ledger try_send) where
  open k use {World, endian, libc, sleep, recvmmsg}
  open ledger use {open_fds, close_closes}
  open reader_calls use {reads, try_send_keeps}

  offer-keeps :
      (sub : SubscriberInner) (frames : List Frame) (w : World)
      → open_fds (offer try_send sub frames w).1 ≡ open_fds w
  unfolding offer
  offer-keeps sub [] w = refl
  offer-keeps sub (frame ∷ frames) w =
      answered (try_send sub.tx frame w).0 (λ sub' w₁. offer-keeps sub' frames w₁)
      ∙ try_send_keeps sub.tx frame w
    where
      answered :
          (t : TrySend)
          → ((sub' : SubscriberInner) (w₁ : World)
              → open_fds (offer try_send sub' frames w₁).1 ≡ open_fds w₁)
          → open_fds
              (elim t as (λ o. (SubscriberInner × Bool) × World) [
                | sent ↦
                    offer try_send
                      (record sub { received = (sub.received + 1) % 2 ^ 64 })
                      frames
                      (try_send sub.tx frame w).1
                | full ↦
                    offer try_send
                      (record sub { dropped = (sub.dropped + 1) % 2 ^ 64 })
                      frames
                      (try_send sub.tx frame w).1
                | disconnected ↦ ((sub, true), (try_send sub.tx frame w).1)
              ]).1
            ≡ open_fds (try_send sub.tx frame w).1
      answered sent later = later _ _
      answered full later = later _ _
      answered disconnected later = refl

  fan_out-keeps :
      (subs : List SubscriberInner) (frames : List Frame) (w : World)
      → open_fds (fan_out try_send subs frames w).1 ≡ open_fds w
  unfolding fan_out
  fan_out-keeps [] frames w = refl
  fan_out-keeps (sub ∷ subs) frames w =
      fan_out-keeps subs frames (offer try_send sub frames w).1 ∙ offer-keeps sub frames w

  reader_round-keeps :
      (socket : Socket) (batch_size : ℕ) (buf : List Frame) (joining : List SubscriberInner)
      (inner : ReaderInner) (w : World)
      → open_fds (reader_round k try_send socket batch_size buf joining inner w).1 ≡ open_fds w
  unfolding reader_round after_batch distribute
  reader_round-keeps socket batch_size buf joining inner w =
      given (recv_batch k socket (take (min batch_size (length buf)) buf) w)
      ∙ recv_batch-keeps k open_fds reads socket (take (min batch_size (length buf)) buf) w
    where
      given :
          (r : Result (ℕ × List Frame) IoError × World)
          → open_fds
              (after_batch k try_send socket (min batch_size (length buf)) buf joining inner r).1
            ≡ open_fds r.1
      given (ok (n, out), w₁) =
          either_branch (λ (r : (List Frame × ReaderInner) × World). open_fds r.1 ≡ open_fds w₁)
            (n == 0) refl (fan_out-keeps inner.subscribers (take n (out ++ _)) w₁)
      given (err e, w₁) = reads.sleep_keeps 20 w₁

  pub run_reader-keeps :
      (socket : Socket) (batch_size : ℕ) (es : List (Interference World)) (buf : List Frame)
      (inner : ReaderInner) (w : World)
      → All (OthersKeep k ledger) es
      → open_fds (run_reader k try_send socket batch_size es buf inner w).1 ≡ open_fds w
  unfolding run_reader
  run_reader-keeps socket batch_size [] buf inner w keeps = refl
  run_reader-keeps socket batch_size (e ∷ es) buf inner w (keep, keeps) =
      let r =
        reader_round k try_send socket batch_size buf e.joined (push_all e.waiting inner)
          (e.others w) in
      either_branch (λ (o : (ReaderInner × Bool) × World). open_fds o.1 ≡ open_fds w) inner.stop
        refl
        (either_branch (λ (o : (ReaderInner × Bool) × World). open_fds o.1 ≡ open_fds w)
          (hangs k try_send socket batch_size buf (e.others w)) (keep w)
          (run_reader-keeps socket batch_size es r.0.0 (store_stop e.stop r.0.1) r.1 keeps
            ∙ (reader_round-keeps socket batch_size buf e.joined (push_all e.waiting inner)
                  (e.others w)
                ∙ keep w)))
