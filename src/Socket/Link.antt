-- ===== src/Socket/Link.antt =====
-- A `Socket` as the channel of mcanbus/src/isotp.rs: its `send` and `recv`, with `Instant::now` and
-- `thread::sleep`.
use mcanbus.Base.{
  ℕ, ◌≤◌, ◌<◌, arith, Bool, true, false, ◌!=◌, ◌==◌, ◌||◌, ltb, length, if◌then◌else◌, Option, none,
  some, List,
}
use mcanbus.Base.Results.{Result, ok, err}
use mcanbus.Io.{IoError, os, kind, write_zero, proceed, pure}
use mcanbus.Channel.{Channel}
use mcanbus.Channel.Laws.{IsTimed, Ended, ok-Ended, kind-Ended}
use mcanbus.Consts.{can_frame_size, canfd_frame_size}
use mcanbus.Frame.Data.{Frame, is_fd}
use mcanbus.Frame.Wire.{DecodedFrame, decode_wire, wire_size, frame_bytes}
use mcanbus.Socket.Kernel.{Kernel, Message, last_os_error}
use mcanbus.Socket.Timestamp.{extract_timestamp_ns}
use mcanbus.Socket.Transfer.{
  Socket, recv, recv_decoded, received, recv_failed, decode_message, timestamp_or_now, send,
  only_data, as_u64,
}

abbrev pub channel : Kernel → Socket → Channel
channel k socket = record {
  World = k.World;
  now = k.now;
  sleep = k.sleep;
  send = send k socket;
  recv = recv k socket;
}

-- The kernel's clock: it does not run back, and a call of `recvmsg` takes time.
pub record KernelTime (k : Kernel) : Type 0 where
  pub time : k.World → ℕ
  pub now_reads : (w : k.World) → time w ≤ (k.now w).0
  pub now_passes : (w : k.World) → (k.now w).0 ≤ time (k.now w).1
  pub sleep_passes : (ms : ℕ) (w : k.World) → time w ≤ time (k.sleep ms w)
  pub write_passes : (fd : ℕ) (bytes : List ℕ) (w : k.World) → time w ≤ time (k.write fd bytes w).1
  pub recvmsg_passes : (fd size : ℕ) (w : k.World) → time w < time (k.recvmsg fd size w).1
  pub system_time_passes : (w : k.World) → time w ≤ time (k.system_time w).1

os-Ended : {A : Type 0} (errno : ℕ) → Ended {A = A} (err (os errno))
os-Ended errno e = cc e

module _ (k : Kernel) (timed : KernelTime k) where
  open k use {World, endian, libc, recvmsg, write, system_time}
  open timed use {
    time, now_reads, now_passes, sleep_passes, write_passes, recvmsg_passes, system_time_passes,
  }

  timestamp_or_now-time : (msg : Message) (w : World) → time w ≤ time (timestamp_or_now k msg w).1
  unfolding timestamp_or_now
  timestamp_or_now-time msg w = judged (extract_timestamp_ns libc msg.control)
    where
      judged :
          (o : Option ℕ)
          → time w
            ≤ time
                (elim o as (λ p. Option ℕ × World) [
                  | none ↦ (as_u64 (system_time w).0, (system_time w).1)
                  | some ns ↦ (some ns, w)
                ]).1
      judged none = system_time_passes w
      judged (some ns) = omega arith

  -- A receiving call from `w`.
  abbrev Received : World → Result (Option DecodedFrame) IoError × World → Type 0
  Received w r = Ended r.0 × (time w < time r.1)

  received-Received :
      (w : World) (r : Result Message ℕ × World) → time w < time r.1 → Received w (received k r)
  unfolding received decode_message recv_failed
  received-Received w (ok msg, w₁) lt = judged (ltb (length msg.bytes) can_frame_size)
    where
      judged :
          (short : Bool)
          → Received w (
              if short then (ok none, w₁) else (
                ok (decode_wire endian msg.bytes (timestamp_or_now k msg w₁).0),
                (timestamp_or_now k msg w₁).1,
              ))
      judged true = (ok-Ended none, lt)
      judged false = (ok-Ended _, omega (arith, timestamp_or_now-time msg w₁))
  received-Received w (err errno, w₁) lt = judged (errno == libc.eagain || errno == libc.eintr)
    where
      judged : (quiet : Bool) → Received w (if quiet then (ok none, w₁) else (err (os errno), w₁))
      judged true = (ok-Ended none, lt)
      judged false = (os-Ended errno, lt)

  module _ (socket : Socket) where
    recv-Ended : (w : World) → Ended (recv k socket w).0 × (time w < time (recv k socket w).1)
    unfolding recv recv_decoded
    recv-Ended w = mapped (received k (recvmsg socket.fd canfd_frame_size w)) (
        received-Received w (recvmsg socket.fd canfd_frame_size w)
          (recvmsg_passes socket.fd canfd_frame_size w))
      where
        mapped :
            (r : Result (Option DecodedFrame) IoError × World)
            → Received w r
            → Ended (proceed r (λ decoded. pure (only_data decoded))).0
              × (time w < time (proceed r (λ decoded. pure (only_data decoded))).1)
        mapped (ok decoded, w₁) h = (ok-Ended _, h.1)
        mapped (err e, w₁) h = (λ same. h.0 (cc same), h.1)

    -- A sending call from `w`.
    abbrev Sent : World → Result (Unit {0}) IoError × World → Type 0
    Sent w r = Ended r.0 × (time w ≤ time r.1)

    send-Sent : (f : Frame) (w : World) → Sent w (send k socket f w)
    unfolding send
    send-Sent f w =
        written (write socket.fd (frame_bytes endian f) w)
          (write_passes socket.fd (frame_bytes endian f) w)
      where
        compared :
            (short : Bool) (w₁ : World)
            → time w ≤ time w₁
            → Sent w (if short then (err (kind write_zero), w₁) else (ok tt, w₁))
        compared true w₁ le = (kind-Ended write_zero, le)
        compared false w₁ le = (ok-Ended tt, le)

        written :
            (r : Result ℕ ℕ × World)
            → time w ≤ time r.1
            → Sent w (
                proceed (last_os_error r) (λ n w₂.
                  if n != wire_size (is_fd f) then (err (kind write_zero), w₂) else (ok tt, w₂)))
        written (ok n, w₁) le = compared (n != wire_size (is_fd f)) w₁ le
        written (err errno, w₁) le = (os-Ended errno, le)

    pub channel-IsTimed : IsTimed (channel k socket)
    channel-IsTimed = record {
      time = time;
      now_reads = now_reads;
      now_passes = now_passes;
      sleep_passes = sleep_passes;
      send_passes = λ f w. (send-Sent f w).1;
      recv_passes = λ w. (recv-Ended w).1;
      send_ends = λ f w. (send-Sent f w).0;
      recv_ends = λ w. (recv-Ended w).0;
    }
