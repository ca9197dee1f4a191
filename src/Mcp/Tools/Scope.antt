-- ===== src/Mcp/Tools/Scope.antt =====
-- socketcan-mcp/src/main.rs: the file descriptors of a step of a tool, and of the scope of a socket.
use mcanbus.Base.{ℕ, ◌≡◌, ap, ◌∙◌, Option, List, ◌∷◌}
use mcanbus.Base.Results.{Result, ok, err}
use mcanbus.Io.{IoError}
use mcanbus.Frame.Data.{Frame}
use mcanbus.Socket.Kernel.{Kernel}
use mcanbus.Socket.Kept.{CallLedger, channel-IsKept}
use mcanbus.Socket.Link.{channel}
use mcanbus.Socket.Open.{open_socket, drop_socket}
use mcanbus.Socket.Ledger.{Ledger}
use mcanbus.Socket.Open.Laws.{Opened, open_socket-Opened}
use mcanbus.Socket.Transfer.{Socket, send}
use mcanbus.Mcp.{McpError}
use mcanbus.Mcp.Runtime.{then_act, checked, internal}
use mcanbus.Mcp.Capture.{
  FilterSpec, capture_window, transpose_filter, capture_opts, run_capture, closing,
}
use mcanbus.Mcp.Capture.Kept.{capture_window-keeps}

module _ (k : Kernel) (ledger : Ledger k) (calls : CallLedger k ledger) where
  open k use {World, now}
  open ledger use {open_fds, close_closes}
  open calls use {now_keeps}

  -- The outcome of a step at the descriptors `fds`.
  abbrev pub At : {A : Type 0} → List ℕ → Result A McpError × World → Type 0
  At fds r = open_fds r.1 ≡ fds

  pub then-At :
      {A B : Type 0} (fds : List ℕ) (r : Result A McpError × World)
      (f : A → World → Result B McpError × World)
      → At fds r
      → ((a : A) (w : World) → open_fds w ≡ fds → At fds (f a w))
      → At fds (then_act r f)
  then-At fds (ok a, w) f h next = next a w h
  then-At fds (err e, w) f h next = h

  pub checked-At :
      {A B : Type 0} (fds : List ℕ) (r : Result A McpError)
      (f : A → World → Result B McpError × World) (w : World)
      → open_fds w ≡ fds
      → ((a : A) → At fds (f a w))
      → At fds (checked r f w)
  checked-At fds (ok a) f w h next = next a
  checked-At fds (err e) f w h next = h

  pub internal-At :
      {A : Type 0} (fds : List ℕ) (r : Result A IoError × World)
      → open_fds r.1 ≡ fds
      → At fds (internal r)
  internal-At fds (ok a, w) h = h
  internal-At fds (err e, w) h = h

  -- The scope of a socket: what it does at one more descriptor, and the end that closes it.
  pub scope-At :
      {B : Type 0} (fds : List ℕ) (w : World) (r : Result Socket IoError × World)
      (body : Socket → World → Result B McpError × World)
      → open_fds w ≡ fds
      → Opened k ledger w r
      → ((socket : Socket) (w₁ : World)
          → open_fds w₁ ≡ socket.fd ∷ fds
          → At (socket.fd ∷ fds) (body socket w₁))
      → At fds (then_act (internal r) (λ socket w₁. closing k socket (body socket w₁)))
  unfolding drop_socket
  scope-At fds w (ok socket, w₁) body h opened next =
      close_closes socket.fd fds (body socket w₁).1
        (next socket w₁ (opened ∙ ap (λ (t : List ℕ). socket.fd ∷ t) h))
  scope-At fds w (err e, w₁) body h opened next = opened ∙ h

  pub window-At :
      (socket : Socket) (timeout_ms max_frames fuel : ℕ) (fds : List ℕ) (w : World)
      → open_fds w ≡ fds
      → At fds (internal (capture_window (channel k socket) timeout_ms max_frames fuel w))
  window-At socket timeout_ms max_frames fuel fds w h =
      internal-At fds (capture_window (channel k socket) timeout_ms max_frames fuel w) (
        capture_window-keeps (channel k socket) open_fds (channel-IsKept k ledger calls socket) fds
          timeout_ms max_frames fuel w h)

  pub sent-At :
      (socket : Socket) (frame : Frame) (fds : List ℕ) (w : World)
      → open_fds w ≡ fds
      → At fds (internal (send k socket frame w))
  sent-At socket frame fds w h =
      internal-At fds (send k socket frame w)
        ((channel-IsKept k ledger calls socket).send_keeps frame w ∙ h)

  pub run_capture-At :
      (iface : List ℕ) (timeout_ms max_frames : ℕ) (filter : Option FilterSpec) (fuel : ℕ)
      (fds : List ℕ) (w : World)
      → open_fds w ≡ fds
      → At fds (run_capture k iface timeout_ms max_frames filter fuel w)
  unfolding run_capture
  run_capture-At iface timeout_ms max_frames filter fuel fds w h =
      checked-At fds (transpose_filter filter) _ w h (λ filters.
        scope-At fds w (open_socket k iface (capture_opts 100 filters) w) _ h
          (open_socket-Opened k ledger iface _ w)
          (λ socket w₁ h₁. window-At socket timeout_ms max_frames fuel _ w₁ h₁))
