-- ===== src/Socket/Transfer.antt =====
-- mcanbus/src/socket.rs: receiving and sending on an open socket. The buffers of a call are its
-- lengths here, and what the kernel wrote to them is its result.
pub mod Laws
use mcanbus.Base.{
  ℕ, zero, suc, ◌+◌, ◌%◌, ◌^◌, min, Bool, ◌||◌, Option, none, some, List, [], ◌∷◌, map, ltb, ◌==◌,
  ◌!=◌, if◌then◌else◌, length, take, set,
}
use mcanbus.Base.Results.{Result, ok, err}
use mcanbus.Consts.{can_frame_size, canfd_frame_size}
use mcanbus.Io.{Io, IoError, os, kind, write_zero, proceed, ◌>>=◌, pure}
use mcanbus.Frame.Data.{Frame, is_fd}
use mcanbus.Frame.Wire.{DecodedFrame, data_frame, rtr, error, decode_wire, frame_bytes, wire_size}
use mcanbus.Socket.Kernel.{Kernel, Message, last_os_error}
use mcanbus.Socket.Timestamp.{extract_timestamp_ns}

pub record Socket : Type 0 where
  pub fd : ℕ
  pub fd_rx_enabled : Bool

abbrev pub max_batch : ℕ
max_batch = 64

-- `Some(DecodedFrame::Data(frame))`.
abbrev pub only_data : Option DecodedFrame → Option Frame
only_data none = none
only_data (some (data_frame frame)) = some frame
only_data (some (rtr id len)) = none
only_data (some (error class bytes len)) = none

-- `.map(|d| d.as_nanos() as u64)`.
abbrev pub as_u64 : Option ℕ → Option ℕ
as_u64 none = none
as_u64 (some nanos) = some (nanos % 2 ^ 64)

module _ (k : Kernel) where
  open k use {World, endian, libc, recvmsg, recvmmsg, write, sendmmsg, dup, system_time}

  -- A failed receive call: a timeout or an interruption gives `quiet`, another errno the error.
  unfoldable pub recv_failed : {A : Type 0} → A → ℕ → Io World A
  recv_failed quiet errno w =
      if errno == libc.eagain || errno == libc.eintr then (ok quiet, w) else (err (os errno), w)

  -- The stamp of the kernel or, without one, the system's time; cast to `u64`.
  unfoldable pub timestamp_or_now : Message → World → Option ℕ × World
  timestamp_or_now msg w = elim (extract_timestamp_ns libc msg.control) [
    | none ↦ let (nanos, w₁) = system_time w in (as_u64 nanos, w₁)
    | some ns ↦ (some ns, w)
  ]

  unfoldable pub decode_message : Message → Io World (Option DecodedFrame)
  decode_message msg w =
      if ltb (length msg.bytes) can_frame_size
      then (ok none, w)
      else (let (timestamp_ns, w₁) = timestamp_or_now msg w in
          (ok (decode_wire endian msg.bytes timestamp_ns), w₁))

  unfoldable pub received : Result Message ℕ × World → Result (Option DecodedFrame) IoError × World
  received (ok msg, w) = decode_message msg w
  received (err errno, w) = recv_failed none errno w

  -- The batch: `out[delivered] = frame` for each data frame, from the first slot on.
  unfoldable pub deliver : List Message → ℕ → List Frame → World → (ℕ × List Frame) × World
  deliver [] delivered out w = ((delivered, out), w)
  deliver (msg ∷ msgs) delivered out w =
      if ltb (length msg.bytes) can_frame_size
      then deliver msgs delivered out w
      else (let (timestamp_ns, w₁) = timestamp_or_now msg w in
          elim (only_data (decode_wire endian msg.bytes timestamp_ns)) [
            | none ↦ deliver msgs delivered out w₁
            | some frame ↦ deliver msgs (delivered + 1) (set out delivered frame) w₁
          ])

  unfoldable pub batch_received :
      List Frame → Result (List Message) ℕ × World → Result (ℕ × List Frame) IoError × World
  batch_received out (ok msgs, w) = let (r, w₁) = deliver msgs 0 out w in (ok r, w₁)
  batch_received out (err errno, w) = recv_failed (0, out) errno w

  module _ (socket : Socket) where
    unfoldable pub recv_decoded : Io World (Option DecodedFrame)
    unfolding received
    recv_decoded w = received (recvmsg socket.fd canfd_frame_size w)

    unfoldable pub recv : Io World (Option Frame)
    recv = recv_decoded >>= λ decoded. pure (only_data decoded)

    unfoldable pub send : Frame → Io World (Unit {0})
    send frame w =
        let size = wire_size (is_fd frame) in
        let (r, w₁) = last_os_error (write socket.fd (frame_bytes endian frame) w) in
        proceed (r, w₁) (λ n w₂. if n != size then (err (kind write_zero), w₂) else (ok tt, w₂))

    -- The slice `out` is returned as it is after the call.
    unfoldable pub recv_batch : List Frame → Io World (ℕ × List Frame)
    unfolding batch_received
    recv_batch out w =
        if length out == 0
        then (ok (0, out), w)
        else batch_received out (recvmmsg socket.fd (min (length out) max_batch) canfd_frame_size w)

    unfoldable pub send_batch : List Frame → Io World ℕ
    send_batch frames w =
        if length frames == 0
        then (ok 0, w)
        else last_os_error (sendmmsg socket.fd (map (frame_bytes endian) (take max_batch frames)) w)

    unfoldable pub try_clone : Io World Socket
    try_clone = (λ w. last_os_error (dup socket.fd w)) >>= λ new_fd.
        pure (record { fd = new_fd; fd_rx_enabled = socket.fd_rx_enabled })
