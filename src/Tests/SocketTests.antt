-- ===== src/Tests/SocketTests.antt =====
-- mcanbus/src/socket.rs on the kernel of `Tests.Host`.
use mcanbus.Base.{
  ◌%◌, ◌^◌, ◌↔◌, ◌≡◌, refl, false, none, some, [], ◌∷◌, ◌++◌, arith, length, drop, replicate,
}
use mcanbus.Base.Results.{ok, err}
use mcanbus.Frame.Id.{standard, extended, to_wire}
use mcanbus.Frame.Data.{Frame, classic, IsFrame, zeroed}
use mcanbus.Frame.Wire.{frame_bytes}
use mcanbus.Frame.Wire.Bytes.{little}
use mcanbus.Io.{os}
use mcanbus.Socket.Kernel.{Cmsg, Message}
use mcanbus.Socket.Timestamp.{extract_timestamp_ns, best_of, timespec_to_ns}
use mcanbus.Socket.Transfer.{Socket, recv, recv_batch, timestamp_or_now}
use mcanbus.Socket.Transfer.Laws.{recv-frame_bytes, recv_batch-data_frames, data_frames}
use mcanbus.Socket.Open.{default_open_opts, open_socket, name_is_valid, configure}
use mcanbus.Socket.Open.Laws.{Opened, open_socket-Opened}
use mcanbus.Socket.Filter.{standard_exact, extended_exact, Matches}
use mcanbus.Socket.Filter.Laws.{Matches-exact}
use mcanbus.Tests.Host.{Host, host, host-Ledger}

abbrev software : Cmsg
software = record {
  cmsg_level = 1;
  cmsg_type = 35;
  stamps = record { tv_sec = 1; tv_nsec = 2 } ∷ [];
}

abbrev hardware : Cmsg
hardware = record {
  cmsg_level = 1;
  cmsg_type = 37;
  stamps =
      record { tv_sec = 3; tv_nsec = 0 }
      ∷ record { tv_sec = 0; tv_nsec = 0 }
      ∷ record { tv_sec = 4; tv_nsec = 5 }
      ∷ [];
}

abbrev frame : Frame
frame = record {
  id = standard 0x123;
  kind = classic;
  len = 2;
  data_buf = 0xde ∷ 0xad ∷ replicate 62 0;
  timestamp_ns = none;
}

frame-IsFrame : IsFrame frame
frame-IsFrame = record {
  id_fits = omega arith;
  len_fits = omega arith;
  buf_len = refl;
  buf_bytes = omega arith;
}

abbrev message : Message
message = record { bytes = frame_bytes little frame; control = hardware ∷ [] }

abbrev idle : Host
idle = record { open_fds = 1 ∷ []; inbox = []; outbox = []; clock = 7; queues = λ tx. [] }

abbrev busy : Host
busy = record idle { inbox = message ∷ [] }

abbrev can0 : Socket
can0 = record { fd = 3; fd_rx_enabled = false }

recv-frame_bytes_example :
    recv host can0 busy
    ≡ (ok (some (record frame { timestamp_ns = some 4_000_000_005 })), record idle { clock = 8 })
unfolding timestamp_or_now extract_timestamp_ns best_of timespec_to_ns
recv-frame_bytes_example =
    recv-frame_bytes host can0 frame message busy (record idle { clock = 8 }) frame-IsFrame refl
      refl refl

recv_batch-data_frames_example :
    let (frames, h) = data_frames host (message ∷ []) idle in
    recv_batch host can0 (zeroed ∷ zeroed ∷ []) busy
    ≡ (ok (length frames, frames ++ drop (length frames) (zeroed ∷ zeroed ∷ [])), h)
recv_batch-data_frames_example =
    recv_batch-data_frames host can0 (zeroed ∷ zeroed ∷ []) (message ∷ []) busy idle (omega arith)
      (omega arith) refl

-- An interface that the kernel does not know: the descriptor is closed again.
refused :
    open_socket host (b'v' ∷ b'c' ∷ b'a' ∷ b'n' ∷ []) default_open_opts idle ≡ (err (os 19), idle)
unfolding open_socket name_is_valid configure
refused = refl

open_socket-Opened_example :
    Opened host host-Ledger idle
      (open_socket host (b'c' ∷ b'a' ∷ b'n' ∷ b'0' ∷ []) default_open_opts idle)
open_socket-Opened_example =
    open_socket-Opened host host-Ledger (b'c' ∷ b'a' ∷ b'n' ∷ b'0' ∷ []) default_open_opts idle

Matches-exact_example :
    (Matches (standard_exact 5) (to_wire (standard 5)) ↔ (standard 5 ≡ standard (5 % 2 ^ 11)))
    × (Matches (extended_exact 5) (to_wire (standard 5)) ↔ (standard 5 ≡ extended (5 % 2 ^ 29)))
Matches-exact_example = Matches-exact 5 (standard 5) (omega arith)
