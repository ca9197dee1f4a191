-- ===== src/Socket/Transfer/Laws.antt =====
-- mcanbus/src/socket.rs: single frames and batches that are received.
use mcanbus.Base.{
  ℕ, zero, suc, ◌+◌, ◌≤◌, ◌≡◌, refl, ap, ap₂, ◌∙◌, sym, arith, false, Bool-cases, inl, inr, Option,
  none, some, List, [], ◌∷◌, ◌++◌, min, ltb, ltb→lt, pos→==, if◌then◌else◌, length, drop, set,
  length-append,
}
use native.Mathlib.Nat.{add-zero, zero-add}
use mcanbus.Base.Results.{ok}
use mcanbus.Consts.{can_frame_size, canfd_frame_size}
use mcanbus.Io.{proceed}
use mcanbus.Frame.Data.{Frame, IsFrame, IsClean}
use mcanbus.Frame.Wire.{DecodedFrame, data_frame, rtr, error, decode_wire, frame_bytes}
use mathlib.Core.List.{append_assoc}
use mcanbus.Frame.Wire.Decode.{decode_wire-eq-none}
use mcanbus.Frame.Wire.RoundTrip.{decode_wire-frame_bytes_clean}
use mcanbus.Socket.Kernel.{Kernel, Message}
use mcanbus.Socket.Transfer.{
  Socket, max_batch, only_data, timestamp_or_now, deliver, recv_batch, recv, recv_decoded, received,
  decode_message, batch_received,
}

module _ (k : Kernel) where
  open k use {World, endian, libc, recvmsg, recvmmsg}

  -- What of a decoded message is a data frame: remote requests and error frames are not.
  abbrev pub as_data : Option DecodedFrame → Option Frame
  as_data none = none
  as_data (some (data_frame frame)) = some frame
  as_data (some (rtr id len)) = none
  as_data (some (error class bytes len)) = none

  only_data-as_data : (decoded : Option DecodedFrame) → only_data decoded ≡ as_data decoded
  only_data-as_data none = refl
  only_data-as_data (some (data_frame frame)) = refl
  only_data-as_data (some (rtr id len)) = refl
  only_data-as_data (some (error class bytes len)) = refl

  -- The data frames among messages, in order, each with the stamp that it is given.
  unfoldable pub data_frames : List Message → World → List Frame × World
  data_frames [] w = ([], w)
  data_frames (msg ∷ msgs) w =
      if ltb (length msg.bytes) can_frame_size
      then data_frames msgs w
      else (let (timestamp_ns, w₁) = timestamp_or_now k msg w in
          let (frames, w₂) = data_frames msgs w₁ in
          elim (as_data (decode_wire endian msg.bytes timestamp_ns)) [
            | none ↦ (frames, w₂)
            | some frame ↦ (frame ∷ frames, w₂)
          ])

  set-length :
      (front rest : List Frame) (n : ℕ) (old new : Frame)
      → n ≡ length front
      → set (front ++ old ∷ rest) n new ≡ front ++ new ∷ rest
  set-length [] rest zero old new h = refl
  set-length [] rest (suc n) old new h = absurd (omega arith)
  set-length (f ∷ front) rest zero old new h = absurd (omega arith)
  set-length (f ∷ front) rest (suc n) old new h =
      ap (λ t. f ∷ t) (set-length front rest n old new (omega arith))

  -- The messages fill `out`, which stands behind `front`.
  abbrev Delivers : List Message → ℕ → List Frame → List Frame → World → Type 0
  Delivers msgs n front out w =
      let (frames, w') = data_frames msgs w in
      deliver k msgs n (front ++ out) w
      ≡ ((n + length frames, front ++ (frames ++ drop (length frames) out)), w')

  deliver-data_frames :
      (msgs : List Message) (n : ℕ) (front out : List Frame) (w : World)
      → n ≡ length front
      → length msgs ≤ length out
      → Delivers msgs n front out w
  unfolding deliver data_frames
  deliver-data_frames [] n front out w e h =
      ap (λ (m : ℕ). ((m, front ++ out), w)) (sym (add-zero n))
  deliver-data_frames (msg ∷ msgs) n front [] w e h = absurd (omega arith)
  deliver-data_frames (msg ∷ msgs) n front (old ∷ out) w e h =
      elim (Bool-cases (ltb (length msg.bytes) can_frame_size)) [
        | inl short ↦ rw short (deliver-data_frames msgs n front (old ∷ out) w e (omega arith))
        | inr whole ↦
            rw
              (whole, only_data-as_data (decode_wire endian msg.bytes (timestamp_or_now k msg w).0))
              (slot (timestamp_or_now k msg w).1
                (as_data (decode_wire endian msg.bytes (timestamp_or_now k msg w).0))
                (deliver-data_frames msgs n front (old ∷ out) (timestamp_or_now k msg w).1 e
                  (omega arith))
                (λ frame.
                  deliver-data_frames msgs (n + 1) (front ++ frame ∷ []) out
                    (timestamp_or_now k msg w).1 (omega (arith, length-append front (frame ∷ [])))
                    (omega arith)))
      ]
    where
      -- The slot that the message fills, or not.
      slot :
          (w₁ : World) (got : Option Frame)
          → Delivers msgs n front (old ∷ out) w₁
          → ((frame : Frame) → Delivers msgs (n + 1) (front ++ frame ∷ []) out w₁)
          → let found = elim got as (λ o. List Frame × World) [
            | none ↦ data_frames msgs w₁
            | some frame ↦ (frame ∷ (data_frames msgs w₁).0, (data_frames msgs w₁).1)
          ] in
            elim got as (λ o. (ℕ × List Frame) × World) [
              | none ↦ deliver k msgs n (front ++ old ∷ out) w₁
              | some frame ↦ deliver k msgs (n + 1) (set (front ++ old ∷ out) n frame) w₁
            ]
            ≡ (
              (n + length found.0, front ++ (found.0 ++ drop (length found.0) (old ∷ out))),
              found.1,
            )
      slot w₁ none skipped filled = skipped
      slot w₁ (some frame) skipped filled =
          rw (set-length front out n old frame e, ← append_assoc front (frame ∷ []) out)
            (filled frame
              ∙ ap₂ (λ (m : ℕ) (l : List Frame). ((m, l), (data_frames msgs w₁).1)) (omega arith)
                  (append_assoc front (frame ∷ []) _))

  -- When the kernel hands over the bytes of a frame with zeros behind its payload, `recv` returns
  -- that frame with a time stamp, and `recv_decoded` is asked for room enough.
  pub recv-frame_bytes :
      (socket : Socket) (f : Frame) (msg : Message) (w w₁ : World)
      → IsFrame f
      → IsClean f
      → msg.bytes ≡ frame_bytes endian f
      → recvmsg socket.fd canfd_frame_size w ≡ (ok msg, w₁)
      → let (timestamp_ns, w₂) = timestamp_or_now k msg w₁ in
        recv k socket w ≡ (ok (some (record f { timestamp_ns = timestamp_ns })), w₂)
  unfolding recv recv_decoded received decode_message
  recv-frame_bytes socket f msg w w₁ v clean same arrived =
      rw (arrived, proceed, same, long_enough, decode_wire-frame_bytes_clean endian f _ v clean)
        refl
    where
      long_enough : ltb (length (frame_bytes endian f)) can_frame_size ≡ false
      long_enough = elim (Bool-cases (ltb (length (frame_bytes endian f)) can_frame_size)) [
        | inl short ↦
            let refused =
              decode_wire-eq-none endian (frame_bytes endian f) none
                (ltb→lt (length (frame_bytes endian f)) can_frame_size short) in
            let decoded = decode_wire-frame_bytes_clean endian f none v clean in
            cc (refused, decoded)
        | inr whole ↦ whole
      ]

  -- A batch fills `out` from its first slot on with the data frames among the messages that the
  -- kernel delivered, which remote requests and error frames are not, in order, leaves the slots
  -- behind them as they were, and returns how many there are.
  pub recv_batch-data_frames :
      (socket : Socket) (out : List Frame) (msgs : List Message) (w w₁ : World)
      → 1 ≤ length out
      → length msgs ≤ min (length out) max_batch
      → recvmmsg socket.fd (min (length out) max_batch) canfd_frame_size w ≡ (ok msgs, w₁)
      → let (frames, w₂) = data_frames msgs w₁ in
        recv_batch k socket out w ≡ (ok (length frames, frames ++ drop (length frames) out), w₂)
  unfolding recv_batch batch_received
  recv_batch-data_frames socket out msgs w w₁ pos fits arrived =
      rw (pos→== (length out) pos, arrived)
        (ap (λ (r : (ℕ × List Frame) × World). (ok r.0, r.1))
            (deliver-data_frames msgs 0 [] out w₁ refl (omega arith))
          ∙ ap
              (λ (m : ℕ). (
                ok (m, (data_frames msgs w₁).0 ++ drop (length (data_frames msgs w₁).0) out),
                (data_frames msgs w₁).1,
              ))
              (zero-add _))
