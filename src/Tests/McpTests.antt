-- ===== src/Tests/McpTests.antt =====
-- socketcan-mcp/src/main.rs on concrete arguments and the sockets of `host`.
use mcanbus.Base.{
  ℕ, All, ◌+◌, arith, ◌≡◌, refl, true, false, none, some, List, [], ◌∷◌, replicate, ◌*◌, min,
}
use mcanbus.Base.Results.{ok}
use mcanbus.Frame.Data.{Frame, IsFrame, classic}
use mcanbus.Frame.Id.{standard}
use mcanbus.Frame.Wire.{frame_bytes}
use mcanbus.Frame.Wire.Bytes.{little}
use mcanbus.Base.Text.{same_text}
use mcanbus.Mcp.{SendFrameInline, Config, build_frame, is_listed}
use mcanbus.Mcp.Laws.{AllOk, build_frame-AllOk}
use mcanbus.Mcp.Json.{from_frame}
use mcanbus.Mcp.Json.RoundTrip.{as_argument, build_frame-from_frame}
use mcanbus.Mcp.Environment.{from_env}
use mcanbus.Base.Text.Split.{join_commas}
use mcanbus.Mcp.Environment.RoundTrip.{IsName, from_env-join_commas}
use mcanbus.Mcp.Runtime.{Runtime, IsRuntime}
use mcanbus.Mcp.Capture.{capture_window, max_frames_cap}
use mcanbus.Mcp.Capture.Bounds.{Captured, capture_window-Captured}
use mcanbus.Mcp.Tools.{
  SendFrameArgs, CaptureArgs, IsoTpRequestArgs, SendAndCaptureArgs, send_frame, capture,
  isotp_request, send_and_capture, default_timeout_ms, default_max_frames, default_padding,
}
use mcanbus.Mcp.Tools.Policy.{Refuses, readonly-Refuses, unlisted-Refuses}
use mcanbus.Mcp.Tools.Scope.{At}
use mcanbus.Mcp.Tools.Ledger.{tools-At}
use mcanbus.Socket.Link.{channel, channel-IsTimed}
use mcanbus.Socket.Transfer.{Socket}
use mcanbus.Tests.Host.{Host, host, host-Ledger, host-CallLedger, host-KernelTime}

abbrev args : SendFrameInline
args = record {
  id = b'0' ∷ b'x' ∷ b'1' ∷ b'2' ∷ b'3' ∷ [];
  extended = false;
  data_hex = b'1' ∷ b'0' ∷ b'0' ∷ b'7' ∷ [];
  fd = false;
  brs = false;
}

build_frame-AllOk_example : AllOk IsFrame (build_frame args)
build_frame-AllOk_example = build_frame-AllOk args

abbrev frame : Frame
frame = record {
  id = standard 0x123;
  kind = classic;
  len = 2;
  data_buf = 0xde ∷ 0xad ∷ replicate 62 0;
  timestamp_ns = some 9;
}

frame-IsFrame : IsFrame frame
frame-IsFrame = record {
  id_fits = omega arith;
  len_fits = omega arith;
  buf_len = refl;
  buf_bytes = omega arith;
}

build_frame-from_frame_example :
    build_frame (as_argument (from_frame frame)) ≡ ok (record frame { timestamp_ns = none })
build_frame-from_frame_example = build_frame-from_frame frame frame-IsFrame refl

abbrev can0 : List ℕ
can0 = b'c' ∷ b'a' ∷ b'n' ∷ b'0' ∷ []

abbrev can1 : List ℕ
can1 = b'c' ∷ b'a' ∷ b'n' ∷ b'1' ∷ []

abbrev writable : Config
writable = record { allowlist = can0 ∷ []; readonly = false }

abbrev readonly : Config
readonly = record { allowlist = can0 ∷ []; readonly = true }

-- A runtime that runs the closure at once.
abbrev runtime : Runtime Host
runtime = record { spawn_blocking = λ {A} f w. (some (f w).0, (f w).1) }

abbrev runtime-IsRuntime : IsRuntime Host runtime
runtime-IsRuntime = record { runs = λ {A} f w. refl }

abbrev busy : Host
busy = record {
  open_fds = 1 ∷ [];
  inbox = record { bytes = frame_bytes little frame; control = [] } ∷ [];
  outbox = [];
  clock = 0;
  queues = λ tx. [];
}

abbrev send_args : SendFrameArgs
send_args = record {
  iface = can0;
  id = args.id;
  extended = false;
  data_hex = args.data_hex;
  fd = false;
  brs = false;
}

abbrev capture_args : CaptureArgs
capture_args = record {
  iface = can0;
  timeout_ms = default_timeout_ms;
  max_frames = default_max_frames;
  filter = none;
}

abbrev request_args : IsoTpRequestArgs
request_args = record {
  iface = can0;
  tx_id = b'7' ∷ b'e' ∷ b'0' ∷ [];
  rx_id = b'7' ∷ b'e' ∷ b'8' ∷ [];
  extended = false;
  payload_hex = b'0' ∷ b'9' ∷ b'0' ∷ b'2' ∷ [];
  padding = default_padding;
  timeout_ms = default_timeout_ms;
  block_size = 0;
  st_min_ms = 0;
}

abbrev exchange_args : SendAndCaptureArgs
exchange_args = record {
  iface = can0;
  rx_iface = none;
  frame = args;
  timeout_ms = default_timeout_ms;
  max_frames = default_max_frames;
  filter = none;
}

readonly-Refuses_example :
    Refuses host runtime readonly busy (send_frame host runtime readonly send_args busy)
    × Refuses host runtime readonly busy (isotp_request host runtime readonly request_args 9 busy)
    × Refuses host runtime readonly busy
        (send_and_capture host runtime readonly exchange_args 9 busy)
readonly-Refuses_example =
    readonly-Refuses host runtime readonly send_args request_args exchange_args 9 busy refl

can1_unlisted : is_listed writable.allowlist can1 ≡ false
unfolding is_listed same_text
can1_unlisted = refl

unlisted-Refuses_example :
    Refuses host runtime writable busy
      (send_frame host runtime writable (record send_args { iface = can1 }) busy)
    × Refuses host runtime writable busy
        (capture host runtime writable (record capture_args { iface = can1 }) 9 busy)
    × Refuses host runtime writable busy
        (isotp_request host runtime writable (record request_args { iface = can1 }) 9 busy)
    × Refuses host runtime writable busy
        (send_and_capture host runtime writable (record exchange_args { iface = can1 }) 9 busy)
    × Refuses host runtime writable busy (
        send_and_capture host runtime writable
          (record exchange_args { rx_iface = some can1 })
          9
          busy)
unlisted-Refuses_example =
    unlisted-Refuses host runtime writable can1 send_args capture_args request_args exchange_args 9
      busy can1_unlisted

tools-At_example :
    At host host-Ledger host-CallLedger (1 ∷ []) (send_frame host runtime writable send_args busy)
    × At host host-Ledger host-CallLedger
        (1 ∷ [])
        (capture host runtime writable capture_args 9 busy)
    × At host host-Ledger host-CallLedger
        (1 ∷ [])
        (isotp_request host runtime writable request_args 9 busy)
    × At host host-Ledger host-CallLedger
        (1 ∷ [])
        (send_and_capture host runtime writable exchange_args 9 busy)
tools-At_example =
    tools-At host host-Ledger host-CallLedger runtime runtime-IsRuntime writable send_args
      capture_args request_args exchange_args 9 busy

abbrev socket : Socket
socket = record { fd = 3; fd_rx_enabled = true }

capture_window-Captured_example :
    Captured
      (channel host socket)
      (min 5 max_frames_cap)
      (0 + 1 * 1_000_000)
      busy
      []
      (capture_window (channel host socket) 1 5 2_000_000 busy)
capture_window-Captured_example =
    capture_window-Captured (channel host socket) (channel-IsTimed host host-KernelTime socket) 1 5
      2_000_000 busy (omega arith)

names-IsName : All IsName (can0 ∷ can1 ∷ [])
names-IsName = (
  (
    omega arith,
    (
      (refl, refl, omega arith),
      ((refl, refl, omega arith), ((refl, refl, omega arith), ((refl, refl, omega arith), tt))),
    ),
  ),
  (
    (
      omega arith,
      (
        (refl, refl, omega arith),
        ((refl, refl, omega arith), ((refl, refl, omega arith), ((refl, refl, omega arith), tt))),
      ),
    ),
    tt,
  ),
)

from_env-join_commas_example :
    ((from_env (some (join_commas (can0 ∷ can1 ∷ []))) none).allowlist ≡ can0 ∷ can1 ∷ [])
    × ((from_env none none).allowlist ≡ [])
from_env-join_commas_example = from_env-join_commas (can0 ∷ can1 ∷ []) none names-IsName
