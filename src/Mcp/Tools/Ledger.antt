-- ===== src/Mcp/Tools/Ledger.antt =====
-- socketcan-mcp/src/main.rs: the file descriptors of the tools.
use mcanbus.Base.{ℕ, ◌≡◌, refl, ◌∙◌, Bool, true, false, none, List, ◌∷◌, if◌then◌else◌}
use mcanbus.Base.Results.{Result, ok}
use mcanbus.Frame.Data.{Frame}
use mcanbus.Frame.Id.{CanId}
use mcanbus.IsoTp.Kept.{request-Stays}
use mcanbus.IsoTp.Request.{request}
use mcanbus.Socket.Kernel.{Kernel}
use mcanbus.Socket.Kept.{CallLedger, channel-IsKept, try_clone-Opened}
use mcanbus.Socket.Link.{channel}
use mcanbus.Socket.Open.{default_open_opts, open_socket}
use mcanbus.Socket.Ledger.{Ledger}
use mcanbus.Socket.Open.Laws.{open_socket-Opened}
use mcanbus.Socket.Transfer.{Socket, try_clone, send}
use mcanbus.Base.Text.{same_text}
use mcanbus.Mcp.{
  McpError, Config, check_iface, check_writable, build_frame, parse_hex_bytes, parse_hex_id,
  parse_single_hex_byte,
}
use mcanbus.Mcp.Json.{FrameJson, from_frame}
use mcanbus.Mcp.Runtime.{Runtime, IsRuntime, then_act, internal, joined}
use mcanbus.Mcp.Capture.{capture_window, transpose_filter, capture_opts, run_capture, closing}
use mcanbus.Mcp.Tools.{
  SendFrameArgs, CaptureArgs, IsoTpRequestArgs, SendAndCaptureArgs, send_on, send_frame, capture,
  request_on, isotp_request, tx_socket, exchange_on, send_and_capture, rx_iface_of, isotp_options,
  inline_of,
}
use mcanbus.Mcp.Tools.Scope.{
  At, then-At, checked-At, internal-At, scope-At, window-At, sent-At, run_capture-At,
}

module _ (k : Kernel) (ledger : Ledger k) (calls : CallLedger k ledger) (runtime : Runtime k.World)
    (runs : IsRuntime k.World runtime) (config : Config) where
  open k use {World, now}
  open ledger use {open_fds}
  open calls use {now_keeps}
  open runtime use {spawn_blocking}

  joined-At :
      {A : Type 0} (fds : List ℕ) (f : World → Result A McpError × World) (w : World)
      → At k ledger calls fds (f w)
      → At k ledger calls fds (joined (spawn_blocking f w))
  joined-At fds f w h = rw (runs.runs f w) h

  send_frame-At :
      (args : SendFrameArgs) (fds : List ℕ) (w : World)
      → open_fds w ≡ fds
      → At k ledger calls fds (send_frame k runtime config args w)
  unfolding send_frame send_on
  send_frame-At args fds w h =
      checked-At k ledger calls fds (check_iface config args.iface) _ w h (λ listed.
        checked-At k ledger calls fds (check_writable config) _ w h (λ writable.
          checked-At k ledger calls fds (build_frame (inline_of args)) _ w h (λ frame.
            scope-At k ledger calls fds w (open_socket k args.iface default_open_opts w) _ h
              (open_socket-Opened k ledger args.iface _ w)
              (λ socket w₁ h₁.
                then-At k ledger calls _ (internal (send k socket frame w₁)) _
                  (sent-At k ledger calls socket frame _ w₁ h₁) (λ sent w₂ h₂. h₂)))))

  capture-At :
      (args : CaptureArgs) (fuel : ℕ) (fds : List ℕ) (w : World)
      → open_fds w ≡ fds
      → At k ledger calls fds (capture k runtime config args fuel w)
  unfolding capture
  capture-At args fuel fds w h =
      checked-At k ledger calls fds (check_iface config args.iface) _ w h (λ listed.
        then-At k ledger calls fds
          (joined (
            spawn_blocking
              (run_capture k args.iface args.timeout_ms args.max_frames args.filter fuel) w))
          _
          (joined-At fds (run_capture k args.iface args.timeout_ms args.max_frames args.filter fuel)
            w
            (run_capture-At k ledger calls args.iface args.timeout_ms args.max_frames args.filter
              fuel fds w h))
          (λ frames w₁ h₁. h₁))

  request_on-At :
      (args : IsoTpRequestArgs) (tx_id rx_id : CanId) (bytes : List ℕ) (padding fuel : ℕ)
      (fds : List ℕ) (w : World)
      → open_fds w ≡ fds
      → At k ledger calls fds (request_on k runtime config args tx_id rx_id bytes padding fuel w)
  unfolding request_on
  request_on-At args tx_id rx_id bytes padding fuel fds w h =
      scope-At k ledger calls fds w (open_socket k args.iface (capture_opts 50 none) w) _ h
        (open_socket-Opened k ledger args.iface _ w)
        (λ socket w₁ h₁.
          internal-At k ledger calls _
            (request (channel k socket) tx_id rx_id bytes (isotp_options args padding) fuel w₁)
            (request-Stays (channel k socket) open_fds (channel-IsKept k ledger calls socket) _
              tx_id rx_id bytes (isotp_options args padding) fuel w₁ h₁))

  isotp_request-At :
      (args : IsoTpRequestArgs) (fuel : ℕ) (fds : List ℕ) (w : World)
      → open_fds w ≡ fds
      → At k ledger calls fds (isotp_request k runtime config args fuel w)
  unfolding isotp_request
  isotp_request-At args fuel fds w h =
      checked-At k ledger calls fds (check_iface config args.iface) _ w h (λ listed.
        checked-At k ledger calls fds (check_writable config) _ w h (λ writable.
          checked-At k ledger calls fds (parse_hex_id args.tx_id args.extended) _ w h (λ tx_id.
            checked-At k ledger calls fds (parse_hex_id args.rx_id args.extended) _ w h (λ rx_id.
              checked-At k ledger calls fds (parse_hex_bytes args.payload_hex) _ w h (λ bytes.
                checked-At k ledger calls fds (parse_single_hex_byte args.padding) _ w h (λ padding.
                  then-At k ledger calls fds
                    (joined (
                      spawn_blocking
                        (request_on k runtime config args tx_id rx_id bytes padding fuel)
                        (now w).1))
                    _
                    (joined-At fds (request_on k runtime config args tx_id rx_id bytes padding fuel)
                      (now w).1
                      (request_on-At args tx_id rx_id bytes padding fuel fds (now w).1
                        (now_keeps w ∙ h)))
                    (λ response w₂ h₂. now_keeps w₂ ∙ h₂)))))))

  exchange_on-At :
      (args : SendAndCaptureArgs) (frame : Frame) (fuel : ℕ) (fds : List ℕ) (w : World)
      → open_fds w ≡ fds
      → At k ledger calls fds (exchange_on k runtime config args frame fuel w)
  unfolding exchange_on tx_socket
  exchange_on-At args frame fuel fds w h =
      checked-At k ledger calls fds (transpose_filter args.filter) _ w h (λ filters.
        scope-At k ledger calls fds w (open_socket k (rx_iface_of args) (capture_opts 50 filters) w)
          _ h (open_socket-Opened k ledger (rx_iface_of args) _ w)
          (λ rx w₁ h₁. transmitted rx (same_text (rx_iface_of args) args.iface) w₁ h₁))
    where
      sending :
          (rx tx : Socket) (w₂ : World)
          → open_fds w₂ ≡ tx.fd ∷ rx.fd ∷ fds
          → At k ledger calls {A = FrameJson × List FrameJson} (tx.fd ∷ rx.fd ∷ fds) (
              then_act (internal (send k tx frame w₂)) λ sent w₃.
                then_act
                  (internal (capture_window (channel k rx) args.timeout_ms args.max_frames fuel w₃))
                  λ out w₄. (ok (from_frame frame, out), w₄))
      sending rx tx w₂ h₂ =
          then-At k ledger calls _ (internal (send k tx frame w₂)) _
            (sent-At k ledger calls tx frame _ w₂ h₂)
            (λ sent w₃ h₃.
              then-At k ledger calls _
                (internal (capture_window (channel k rx) args.timeout_ms args.max_frames fuel w₃)) _
                (window-At k ledger calls rx args.timeout_ms args.max_frames fuel _ w₃ h₃)
                (λ out w₄ h₄. h₄))

      transmitted :
          (rx : Socket) (same : Bool) (w₁ : World)
          → open_fds w₁ ≡ rx.fd ∷ fds
          → At k ledger calls {A = FrameJson × List FrameJson} (rx.fd ∷ fds) (
              then_act
                (if same
                  then internal (try_clone k rx w₁)
                  else internal (open_socket k args.iface default_open_opts w₁))
                λ tx w₂. closing k tx (
                  then_act (internal (send k tx frame w₂)) λ sent w₃.
                    then_act
                      (internal
                        (capture_window (channel k rx) args.timeout_ms args.max_frames fuel w₃))
                      λ out w₄. (ok (from_frame frame, out), w₄)))
      transmitted rx true w₁ h₁ =
          scope-At k ledger calls _ w₁ (try_clone k rx w₁) _ h₁
            (try_clone-Opened k ledger calls rx w₁) (λ tx w₂ h₂. sending rx tx w₂ h₂)
      transmitted rx false w₁ h₁ =
          scope-At k ledger calls _ w₁ (open_socket k args.iface default_open_opts w₁) _ h₁
            (open_socket-Opened k ledger args.iface _ w₁) (λ tx w₂ h₂. sending rx tx w₂ h₂)

  send_and_capture-At :
      (args : SendAndCaptureArgs) (fuel : ℕ) (fds : List ℕ) (w : World)
      → open_fds w ≡ fds
      → At k ledger calls fds (send_and_capture k runtime config args fuel w)
  unfolding send_and_capture
  send_and_capture-At args fuel fds w h =
      checked-At k ledger calls fds (check_iface config args.iface) _ w h (λ listed.
        checked-At k ledger calls fds (check_writable config) _ w h (λ writable.
          checked-At k ledger calls fds
            (if same_text (rx_iface_of args) args.iface
              then ok tt
              else check_iface config (rx_iface_of args))
            _ w h
            (λ rx_listed. checked-At k ledger calls fds (build_frame args.frame) _ w h (λ frame.
              then-At k ledger calls fds
                (joined (spawn_blocking (exchange_on k runtime config args frame fuel) w)) _
                (joined-At fds (exchange_on k runtime config args frame fuel) w
                  (exchange_on-At args frame fuel fds w h))
                (λ result w₁ h₁. h₁)))))

  -- Over a runtime that runs a closure to its end and a kernel that opens and closes the
  -- descriptors that it says: wherever a tool ends, with its answer or with an error, it has
  -- closed every socket that it opened or cloned, and the open descriptors are those of before.
  pub tools-At :
      (send_args : SendFrameArgs) (capture_args : CaptureArgs) (request_args : IsoTpRequestArgs)
      (exchange_args : SendAndCaptureArgs) (fuel : ℕ) (w : World)
      → At k ledger calls (open_fds w) (send_frame k runtime config send_args w)
        × At k ledger calls (open_fds w) (capture k runtime config capture_args fuel w)
        × At k ledger calls (open_fds w) (isotp_request k runtime config request_args fuel w)
        × At k ledger calls (open_fds w) (send_and_capture k runtime config exchange_args fuel w)
  tools-At send_args capture_args request_args exchange_args fuel w = (
    send_frame-At send_args (open_fds w) w refl,
    capture-At capture_args fuel (open_fds w) w refl,
    isotp_request-At request_args fuel (open_fds w) w refl,
    send_and_capture-At exchange_args fuel (open_fds w) w refl,
  )
