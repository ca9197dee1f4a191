-- ===== src/Mcp/Tools.antt =====
-- socketcan-mcp/src/main.rs: the tools that use a bus. The arguments are the deserialized ones, and a
-- result holds what its JSON holds.
pub mod Policy
pub mod Scope
pub mod Ledger
use mcanbus.Base.{
  ℕ, ◌+◌, ◌*◌, ◌-◌, ◌/◌, ◌%◌, ◌^◌, Bool, ◌&&◌, Option, none, some, List, [], ◌∷◌, map, leb,
  if◌then◌else◌, length,
}
use mcanbus.Base.Results.{Result, ok, err}
use mcanbus.Frame.Data.{Frame}
use mcanbus.Frame.Id.{CanId}
use mcanbus.IsoTp.Encode.{Options, default_options}
use mcanbus.IsoTp.Request.{request}
use mcanbus.Socket.Kernel.{Kernel}
use mcanbus.Socket.Link.{channel}
use mcanbus.Socket.Open.{default_open_opts, open_socket}
use mcanbus.Socket.Transfer.{Socket, send, try_clone}
use mcanbus.Base.Text.{same_text}
use mcanbus.Mcp.{
  McpError, Config, SendFrameInline, check_iface, check_writable, build_frame, parse_hex_id,
  parse_hex_bytes, parse_single_hex_byte,
}
use mcanbus.Base.Text.{hex_text}
use mcanbus.Mcp.Json.{FrameJson, from_frame}
use mcanbus.Mcp.Runtime.{Runtime, then_act, checked, internal, joined}
use mcanbus.Mcp.Capture.{
  FilterSpec, capture_window, transpose_filter, capture_opts, closing, run_capture,
}

pub record SendFrameArgs : Type 0 where
  pub iface : List ℕ
  pub id : List ℕ
  pub extended : Bool
  pub data_hex : List ℕ
  pub fd : Bool
  pub brs : Bool

pub record CaptureArgs : Type 0 where
  pub iface : List ℕ
  pub timeout_ms : ℕ
  pub max_frames : ℕ
  pub filter : Option FilterSpec

pub record SendAndCaptureArgs : Type 0 where
  pub iface : List ℕ
  pub rx_iface : Option (List ℕ)
  pub frame : SendFrameInline
  pub timeout_ms : ℕ
  pub max_frames : ℕ
  pub filter : Option FilterSpec

pub record IsoTpRequestArgs : Type 0 where
  pub iface : List ℕ
  pub tx_id : List ℕ
  pub rx_id : List ℕ
  pub extended : Bool
  pub payload_hex : List ℕ
  pub padding : List ℕ
  pub timeout_ms : ℕ
  pub block_size : ℕ
  pub st_min_ms : ℕ

-- What stands for an argument that is left out.
abbrev pub default_timeout_ms : ℕ
default_timeout_ms = 1000

abbrev pub default_max_frames : ℕ
default_max_frames = 256

abbrev pub default_padding : List ℕ
default_padding = b'C' ∷ b'C' ∷ []

-- `let inline = SendFrameInline { … };`
abbrev pub inline_of : SendFrameArgs → SendFrameInline
inline_of args = record {
  id = args.id;
  extended = args.extended;
  data_hex = args.data_hex;
  fd = args.fd;
  brs = args.brs;
}

pub record CaptureReply : Type 0 where
  pub frames : List FrameJson
  pub count : ℕ

pub record ExchangeReply : Type 0 where
  pub sent : FrameJson
  pub responses : List FrameJson
  pub count : ℕ

pub record IsoTpReply : Type 0 where
  pub hex : List ℕ
  pub ascii : List ℕ
  pub len : ℕ
  pub duration_ms : ℕ

-- `response_ascii`: a byte that is no printable ASCII character is a dot.
unfoldable pub ascii_of : ℕ → ℕ
ascii_of b = if leb 0x20 b && leb b 0x7E then b else b'.'

-- `.map(|d| …)` on the options of the transport.
abbrev pub isotp_options : IsoTpRequestArgs → ℕ → Options
isotp_options args padding = record default_options {
  padding = padding;
  block_size = args.block_size;
  st_min_ms = args.st_min_ms;
  timeout = args.timeout_ms * 1_000_000;
}

unfoldable pub rx_iface_of : SendAndCaptureArgs → List ℕ
rx_iface_of args = elim args.rx_iface [ none ↦ args.iface | some rx ↦ rx ]

module _ (k : Kernel) (runtime : Runtime k.World) (config : Config) where
  open k use {World, now}
  open runtime use {spawn_blocking}

  unfoldable pub send_on : List ℕ → Frame → World → Result FrameJson McpError × World
  send_on iface frame w = then_act (internal (open_socket k iface default_open_opts w)) λ socket w₁.
      closing k socket
        (then_act (internal (send k socket frame w₁)) λ sent w₂. (ok (from_frame frame), w₂))

  unfoldable pub send_frame : SendFrameArgs → World → Result FrameJson McpError × World
  unfolding send_on
  send_frame args = checked (check_iface config args.iface) λ listed.
      checked (check_writable config)
        λ writable. checked (build_frame (inline_of args)) λ frame. send_on args.iface frame

  unfoldable pub capture : CaptureArgs → ℕ → World → Result CaptureReply McpError × World
  capture args fuel = checked (check_iface config args.iface) λ listed w.
      then_act
        (joined (
          spawn_blocking (run_capture k args.iface args.timeout_ms args.max_frames args.filter fuel)
            w))
        λ frames w₁. (ok (record { frames = frames; count = length frames }), w₁)

  -- The closure of `isotp_request`.
  unfoldable pub request_on :
      IsoTpRequestArgs → CanId → CanId → List ℕ → ℕ → ℕ → World → Result (List ℕ) McpError × World
  request_on args tx_id rx_id payload padding fuel w =
      then_act (internal (open_socket k args.iface (capture_opts 50 none) w)) λ socket w₁.
        closing k socket (
          internal
            (request (channel k socket) tx_id rx_id payload (isotp_options args padding) fuel w₁))

  unfoldable pub isotp_request : IsoTpRequestArgs → ℕ → World → Result IsoTpReply McpError × World
  unfolding request_on
  isotp_request args fuel = checked (check_iface config args.iface) λ listed.
      checked (check_writable config) λ writable.
        checked (parse_hex_id args.tx_id args.extended) λ tx_id.
          checked (parse_hex_id args.rx_id args.extended) λ rx_id.
            checked (parse_hex_bytes args.payload_hex) λ payload.
              checked (parse_single_hex_byte args.padding) λ padding w.
                let (started, w₁) = now w in
                then_act
                  (joined (spawn_blocking (request_on args tx_id rx_id payload padding fuel) w₁))
                  λ response w₂.
                    let (ended, w₃) = now w₂ in
                    (
                      ok (record {
                        hex = hex_text response;
                        ascii = map ascii_of response;
                        len = length response;
                        duration_ms = (ended - started) / 1_000_000 % 2 ^ 64;
                      }),
                      w₃,
                    )

  -- The sending socket: a clone of the receiving one, or one of its own.
  unfoldable pub tx_socket : SendAndCaptureArgs → Socket → World → Result Socket McpError × World
  tx_socket args rx w =
      if same_text (rx_iface_of args) args.iface
      then internal (try_clone k rx w)
      else internal (open_socket k args.iface default_open_opts w)

  -- The closure of `send_and_capture`: the receiving socket is open before the frame is sent.
  unfoldable pub exchange_on :
      SendAndCaptureArgs → Frame → ℕ → World → Result (FrameJson × List FrameJson) McpError × World
  unfolding tx_socket
  exchange_on args frame fuel = checked (transpose_filter args.filter) λ filters w.
      then_act (internal (open_socket k (rx_iface_of args) (capture_opts 50 filters) w)) λ rx w₁.
        closing k rx (
          then_act (tx_socket args rx w₁) λ tx w₂. closing k tx (
            then_act (internal (send k tx frame w₂)) λ sent w₃.
              then_act
                (internal (capture_window (channel k rx) args.timeout_ms args.max_frames fuel w₃))
                λ out w₄. (ok (from_frame frame, out), w₄)))

  unfoldable pub send_and_capture :
      SendAndCaptureArgs → ℕ → World → Result ExchangeReply McpError × World
  unfolding exchange_on
  send_and_capture args fuel = checked (check_iface config args.iface) λ listed.
      checked (check_writable config) λ writable.
        checked
          (if same_text (rx_iface_of args) args.iface
            then ok tt
            else check_iface config (rx_iface_of args))
          λ rx_listed. checked (build_frame args.frame) λ frame w.
            then_act (joined (spawn_blocking (exchange_on args frame fuel) w)) λ result w₁.
              (ok (record { sent = result.0; responses = result.1; count = length result.1 }), w₁)
