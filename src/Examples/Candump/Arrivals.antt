-- ===== src/Examples/Candump/Arrivals.antt =====
-- examples/candump.rs: what the kernel may hand over to a receive.
use mcanbus.Base.{
  ℕ, zero, suc, ◌/◌, ◌%◌, ◌^◌, ◌<◌, ◌≤◌, ◌≡◌, refl, ap, ◌⊎◌, inl, inr, ◌!=◌, ◌==◌, ◌||◌, ==_iff,
  lt→ltb, le→ltb, Bool, true, false, Option, none, some, List, [], ◌∷◌, length, drop, if◌then◌else◌,
  IsBytes, either_branch,
}
use mcanbus.Base.Results.{Result, ok, err}
use mcanbus.Consts.{can_frame_size, canfd_frame_size}
use mcanbus.Frame.Data.{Frame}
use mcanbus.Frame.Wire.{DecodedFrame, data_frame, rtr}
use mcanbus.Frame.Wire.Decode.{data_of, error_of}
use mcanbus.Frame.Wire.Decoded.{word, byte_at, decode_wire_lem}
use mcanbus.Frame.Id.{from_wire}
use mcanbus.Io.{IoError, os, proceed, pure}
use mcanbus.Socket.Kernel.{Kernel, Message}
use mcanbus.Socket.Timestamp.{extract_timestamp_ns}
use mcanbus.Socket.Transfer.{
  Socket, recv, recv_decoded, received, decode_message, recv_failed, timestamp_or_now, only_data,
  as_u64,
}

abbrev low_64 : Option ℕ → Option ℕ
low_64 none = none
low_64 (some nanos) = some (nanos % 2 ^ 64)

-- The stamp that is found in a message or, without one, the time of the system as a `u64`.
abbrev pub stamp : (k : Kernel) → Option ℕ → k.World → Option ℕ × k.World
stamp k (some ns) w = (some ns, w)
stamp k none w = (low_64 (k.system_time w).0, (k.system_time w).1)

-- The two bits of the word that tell a remote request and an error frame from a data frame.
abbrev pub rtr_bit : ℕ → ℕ
rtr_bit c = c / 2 ^ 30 % 2

abbrev pub err_bit : ℕ → ℕ
err_bit c = c / 2 ^ 29 % 2

-- What the kernel hands over in some rounds, and the data frames of it. In each round it hands over
-- nothing in time, or a message: one that is too short, one with a bit set, or a data frame.
pub data Hands (k : Kernel) (socket : Socket) : ℕ → k.World → List Frame → k.World → Type 0 where
  no_rounds : (w : k.World) → Hands k socket zero w [] w
  in_silence :
      (rounds errno : ℕ) (w w₁ w' : k.World) (frames : List Frame)
      → (errno ≡ k.libc.eagain) ⊎ (errno ≡ k.libc.eintr)
      → k.recvmsg socket.fd canfd_frame_size w ≡ (err errno, w₁)
      → Hands k socket rounds w₁ frames w'
      → Hands k socket (suc rounds) w frames w'
  on_short :
      (rounds : ℕ) (w w₁ w' : k.World) (msg : Message) (frames : List Frame)
      → length msg.bytes < 16
      → k.recvmsg socket.fd canfd_frame_size w ≡ (ok msg, w₁)
      → Hands k socket rounds w₁ frames w'
      → Hands k socket (suc rounds) w frames w'
  on_flagged :
      (rounds : ℕ) (w w₁ w' : k.World) (msg : Message) (frames : List Frame)
      → IsBytes msg.bytes
      → 16 ≤ length msg.bytes
      → (rtr_bit (word k.endian msg.bytes) ≡ 1) ⊎ (err_bit (word k.endian msg.bytes) ≡ 1)
      → k.recvmsg socket.fd canfd_frame_size w ≡ (ok msg, w₁)
      → Hands k socket rounds (stamp k (extract_timestamp_ns k.libc msg.control) w₁).1 frames w'
      → Hands k socket (suc rounds) w frames w'
  on_arrival :
      (rounds : ℕ) (w w₁ w' : k.World) (msg : Message) (frames : List Frame)
      → IsBytes msg.bytes
      → 16 ≤ length msg.bytes
      → rtr_bit (word k.endian msg.bytes) ≡ 0
      → err_bit (word k.endian msg.bytes) ≡ 0
      → k.recvmsg socket.fd canfd_frame_size w ≡ (ok msg, w₁)
      → Hands k socket rounds (stamp k (extract_timestamp_ns k.libc msg.control) w₁).1 frames w'
      → Hands k socket
          (suc rounds)
          w
          (data_of
              (word k.endian msg.bytes)
              (byte_at msg.bytes 4)
              (byte_at msg.bytes 5)
              (drop 8 msg.bytes)
              (stamp k (extract_timestamp_ns k.libc msg.control) w₁).0
            ∷ frames)
          w'

module _ (k : Kernel) (socket : Socket) where
  open k use {World, endian, libc, recvmsg, system_time}

  timestamp_or_now-stamp :
      (msg : Message) (w : World)
      → timestamp_or_now k msg w ≡ stamp k (extract_timestamp_ns libc msg.control) w
  unfolding timestamp_or_now
  timestamp_or_now-stamp msg w = judged (extract_timestamp_ns libc msg.control)
    where
      timed : (nanos : Option ℕ) → as_u64 nanos ≡ low_64 nanos
      timed none = refl
      timed (some nanos) = refl

      judged :
          (o : Option ℕ)
          → elim o as (λ p. Option ℕ × World) [
            | none ↦ (as_u64 (system_time w).0, (system_time w).1)
            | some ns ↦ (some ns, w)
          ]
            ≡ stamp k o w
      judged none = ap (λ (o : Option ℕ). (o, (system_time w).1)) (timed (system_time w).0)
      judged (some ns) = refl

  pub recv-silence :
      (errno : ℕ) (w w₁ : World)
      → (errno ≡ libc.eagain) ⊎ (errno ≡ libc.eintr)
      → recvmsg socket.fd canfd_frame_size w ≡ (err errno, w₁)
      → recv k socket w ≡ (ok none, w₁)
  unfolding recv recv_decoded received recv_failed
  recv-silence errno w w₁ (inl same) silent = rw (silent, (==_iff errno libc.eagain).1 same) refl
  recv-silence errno w w₁ (inr same) silent =
      rw (silent, (==_iff errno libc.eintr).1 same) (either (errno == libc.eagain))
    where
      either :
          (b : Bool)
          → proceed
              (let r : Result (Option DecodedFrame) IoError × World =
                  if b || true then (ok none, w₁) else (err (os errno), w₁) in
                r)
              (λ decoded. pure (only_data decoded))
            ≡ (ok none, w₁)
      either true = refl
      either false = refl

  pub recv-short :
      (msg : Message) (w w₁ : World)
      → length msg.bytes < 16
      → recvmsg socket.fd canfd_frame_size w ≡ (ok msg, w₁)
      → recv k socket w ≡ (ok none, w₁)
  unfolding recv recv_decoded received decode_message
  recv-short msg w w₁ short came = rw (came, lt→ltb (length msg.bytes) can_frame_size short) refl

  pub recv-message :
      (msg : Message) (w w₁ : World)
      → IsBytes msg.bytes
      → 16 ≤ length msg.bytes
      → recvmsg socket.fd canfd_frame_size w ≡ (ok msg, w₁)
      → let (ts, w₂) = stamp k (extract_timestamp_ns libc msg.control) w₁ in
        let c = word endian msg.bytes in
        let len = byte_at msg.bytes 4 in
        let rest = drop 8 msg.bytes in
        recv k socket w ≡ (
          ok (
              only_data (
                some (
                  if err_bit c != 0
                  then error_of c len rest
                  else if rtr_bit c != 0
                  then rtr (from_wire c) len
                  else data_frame (data_of c len (byte_at msg.bytes 5) rest ts)))),
          w₂,
        )
  unfolding recv recv_decoded received decode_message
  recv-message msg w w₁ bytes long came =
      rw
        (
          came,
          le→ltb (length msg.bytes) can_frame_size long,
          timestamp_or_now-stamp msg w₁,
          decode_wire_lem endian msg.bytes (stamp k (extract_timestamp_ns libc msg.control) w₁).0
              bytes long,
        )
        refl

pub passed_over :
    (c len : ℕ) (rest : List ℕ) (frame : Frame)
    → (rtr_bit c ≡ 1) ⊎ (err_bit c ≡ 1)
    → only_data (
        some (
          if err_bit c != 0
          then error_of c len rest
          else if rtr_bit c != 0
          then rtr (from_wire c) len
          else data_frame frame))
      ≡ none
passed_over c len rest frame (inl remote) =
    rw remote
      (either_branch (λ (d : DecodedFrame). only_data (some d) ≡ none) (err_bit c != 0) refl refl)
passed_over c len rest frame (inr error_frame) = rw error_frame refl

pub let_through :
    (c len : ℕ) (rest : List ℕ) (frame : Frame)
    → rtr_bit c ≡ 0
    → err_bit c ≡ 0
    → only_data (
        some (
          if err_bit c != 0
          then error_of c len rest
          else if rtr_bit c != 0
          then rtr (from_wire c) len
          else data_frame frame))
      ≡ some frame
let_through c len rest frame no_rtr no_err = rw (no_err, no_rtr) refl
