-- ===== src/Socket/Kept.antt =====
-- mcanbus/src/socket.rs: the calls on an open socket leave the open descriptors alone, and a clone
-- is one more.
use mcanbus.Base.{
  ℕ, ◌≡◌, refl, ◌∙◌, ◌==◌, ◌!=◌, ◌||◌, ltb, length, if◌then◌else◌, either_branch, Option, none,
  some, List, ◌∷◌,
}
use mcanbus.Base.Results.{Result, ok, err}
use mcanbus.Io.{IoError, kind, write_zero, proceed, pure}
use mcanbus.Consts.{can_frame_size, canfd_frame_size}
use mcanbus.Frame.Data.{Frame, is_fd}
use mcanbus.Frame.Wire.{DecodedFrame, wire_size, frame_bytes}
use mcanbus.IsoTp.Kept.{IsKept}
use mcanbus.Socket.Kernel.{Kernel, Message, last_os_error}
use mcanbus.Socket.Link.{channel}
use mcanbus.Socket.Ledger.{Ledger}
use mcanbus.Socket.Open.Laws.{Opened}
use mcanbus.Socket.Timestamp.{extract_timestamp_ns}
use mcanbus.Socket.Transfer.{
  Socket, recv, recv_decoded, received, recv_failed, decode_message, timestamp_or_now, send,
  only_data, as_u64, try_clone,
}

pub record CallLedger (k : Kernel) (ledger : Ledger k) : Type 0 where
  pub now_keeps : (w : k.World) → ledger.open_fds (k.now w).1 ≡ ledger.open_fds w
  pub sleep_keeps : (ms : ℕ) (w : k.World) → ledger.open_fds (k.sleep ms w) ≡ ledger.open_fds w
  pub write_keeps :
      (fd : ℕ) (bytes : List ℕ) (w : k.World)
      → ledger.open_fds (k.write fd bytes w).1 ≡ ledger.open_fds w
  pub recvmsg_keeps :
      (fd size : ℕ) (w : k.World) → ledger.open_fds (k.recvmsg fd size w).1 ≡ ledger.open_fds w
  pub system_time_keeps : (w : k.World) → ledger.open_fds (k.system_time w).1 ≡ ledger.open_fds w
  pub dup_opens :
      (fd new_fd : ℕ) (w w' : k.World)
      → k.dup fd w ≡ (ok new_fd, w')
      → ledger.open_fds w' ≡ new_fd ∷ ledger.open_fds w
  pub dup_fails :
      (fd errno : ℕ) (w w' : k.World)
      → k.dup fd w ≡ (err errno, w')
      → ledger.open_fds w' ≡ ledger.open_fds w

module _ (k : Kernel) (ledger : Ledger k) (calls : CallLedger k ledger) where
  open k use {World, endian, libc, recvmsg, write, system_time, dup}
  open ledger use {open_fds}
  open calls use {
    now_keeps, sleep_keeps, write_keeps, recvmsg_keeps, system_time_keeps, dup_opens, dup_fails,
  }

  timestamp_or_now-keeps :
      (msg : Message) (w : World) → open_fds (timestamp_or_now k msg w).1 ≡ open_fds w
  unfolding timestamp_or_now
  timestamp_or_now-keeps msg w = judged (extract_timestamp_ns libc msg.control)
    where
      judged :
          (o : Option ℕ)
          → open_fds
              (elim o as (λ p. Option ℕ × World) [
                | none ↦ (as_u64 (system_time w).0, (system_time w).1)
                | some ns ↦ (some ns, w)
              ]).1
            ≡ open_fds w
      judged none = system_time_keeps w
      judged (some ns) = refl

  received-keeps : (r : Result Message ℕ × World) → open_fds (received k r).1 ≡ open_fds r.1
  unfolding received decode_message recv_failed
  received-keeps (ok msg, w₁) =
      either_branch
        (λ (r : Result (Option DecodedFrame) IoError × World). open_fds r.1 ≡ open_fds w₁)
        (ltb (length msg.bytes) can_frame_size) refl (timestamp_or_now-keeps msg w₁)
  received-keeps (err errno, w₁) =
      either_branch
        (λ (r : Result (Option DecodedFrame) IoError × World). open_fds r.1 ≡ open_fds w₁)
        (errno == libc.eagain || errno == libc.eintr) refl refl

  module _ (socket : Socket) where
    recv-keeps : (w : World) → open_fds (recv k socket w).1 ≡ open_fds w
    unfolding recv recv_decoded
    recv-keeps w =
        mapped (received k (recvmsg socket.fd canfd_frame_size w))
        ∙ (received-keeps (recvmsg socket.fd canfd_frame_size w)
            ∙ recvmsg_keeps socket.fd canfd_frame_size w)
      where
        mapped :
            (r : Result (Option DecodedFrame) IoError × World)
            → open_fds (proceed r (λ decoded. pure (only_data decoded))).1 ≡ open_fds r.1
        mapped (ok decoded, w₁) = refl
        mapped (err e, w₁) = refl

    send-keeps : (f : Frame) (w : World) → open_fds (send k socket f w).1 ≡ open_fds w
    unfolding send
    send-keeps f w =
        written (write socket.fd (frame_bytes endian f) w)
        ∙ write_keeps socket.fd (frame_bytes endian f) w
      where
        written :
            (r : Result ℕ ℕ × World)
            → open_fds
                (proceed (last_os_error r) (λ n w₂.
                  if n != wire_size (is_fd f) then (err (kind write_zero), w₂) else (ok tt, w₂))).1
              ≡ open_fds r.1
        written (ok n, w₁) =
            either_branch (λ (r : Result (Unit {0}) IoError × World). open_fds r.1 ≡ open_fds w₁)
              (n != wire_size (is_fd f)) refl refl
        written (err errno, w₁) = refl

    pub channel-IsKept : IsKept (channel k socket) open_fds
    channel-IsKept = record {
      now_keeps = now_keeps;
      sleep_keeps = sleep_keeps;
      send_keeps = send-keeps;
      recv_keeps = recv-keeps;
    }

    -- What `dup` says, the caller of `try_clone` has.
    pub try_clone-Opened : (w : World) → Opened k ledger w (try_clone k socket w)
    unfolding try_clone
    try_clone-Opened w = asked (dup socket.fd w) refl
      where
        asked :
            (r : Result ℕ ℕ × World)
            → dup socket.fd w ≡ r
            → Opened k ledger w (
                proceed
                  (last_os_error r)
                  (λ new_fd. pure (record { fd = new_fd; fd_rx_enabled = socket.fd_rx_enabled })))
        asked (ok new_fd, w₁) e = dup_opens socket.fd new_fd w w₁ e
        asked (err errno, w₁) e = dup_fails socket.fd errno w w₁ e
