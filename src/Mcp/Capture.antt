-- ===== src/Mcp/Capture.antt =====
-- socketcan-mcp/src/main.rs, `run_capture`, and the window of `send_and_capture`.
pub mod Bounds
pub mod Kept
use mcanbus.Base.{
  ℕ, zero, suc, ◌+◌, ◌*◌, min, Option, none, some, List, [], ◌∷◌, ◌++◌, ltb, if◌then◌else◌, length,
}
use mcanbus.Base.Results.{Result, ok, err}
use mcanbus.Io.{Io, IoError, out_of_fuel, throw, ◌>>=◌}
use mcanbus.Channel.{Channel}
use mcanbus.Frame.Data.{Frame}
use mcanbus.Socket.Filter.{CanFilter}
use mcanbus.Socket.Kernel.{Kernel}
use mcanbus.Socket.Link.{channel}
use mcanbus.Socket.Open.{OpenOpts, default_open_opts, Duration, open_socket, drop_socket}
use mcanbus.Socket.Transfer.{Socket}
use mcanbus.Mcp.{McpError, FilterEntry, build_filters}
use mcanbus.Mcp.Json.{FrameJson, from_frame}
use mcanbus.Mcp.Runtime.{then_act, checked, internal}

pub record FilterSpec : Type 0 where
  pub entries : List FilterEntry

abbrev pub max_frames_cap : ℕ
max_frames_cap = 4096

module _ (ch : Channel) where
  open ch use {World, now, recv}

  unfoldable pub capture_loop : ℕ → ℕ → ℕ → List FrameJson → Io World (List FrameJson)
  capture_loop max_frames deadline zero out w = (err out_of_fuel, w)
  capture_loop max_frames deadline (suc fuel) out w =
      if ltb (length out) max_frames
      then (let (instant, w₁) = now w in
          if ltb instant deadline
          then (recv >>= λ got. elim got [
            | none ↦ λ w₂. capture_loop max_frames deadline fuel out w₂
            | some frame ↦
                λ w₂. capture_loop max_frames deadline fuel (out ++ from_frame frame ∷ []) w₂
          ])
              w₁
          else (ok out, w₁))
      else (ok out, w)

  -- The deadline, in nanoseconds, and the loop.
  unfoldable pub capture_window : ℕ → ℕ → ℕ → Io World (List FrameJson)
  unfolding capture_loop
  capture_window timeout_ms max_frames fuel w =
      let (started, w₁) = now w in
      capture_loop (min max_frames max_frames_cap) (started + timeout_ms * 1_000_000) fuel [] w₁

-- `filter.map(build_filters).transpose()`.
unfoldable pub transpose_filter : Option FilterSpec → Result (Option (List CanFilter)) McpError
transpose_filter none = ok none
transpose_filter (some spec) = elim (build_filters spec.entries) [
  | ok entries ↦ ok (some entries)
  | err e ↦ err e
]

-- A timeout below a second, in milliseconds.
abbrev pub capture_opts : ℕ → Option (List CanFilter) → OpenOpts
capture_opts ms filter = record default_open_opts {
  recv_timeout = some (record { secs = 0; nanos = ms * 1_000_000 });
  filter = filter;
}

module _ (k : Kernel) where
  open k use {World}

  -- The end of a socket's scope.
  abbrev pub closing : {A : Type 0} → Socket → Result A McpError × World → Result A McpError × World
  closing socket (r, w) = (r, drop_socket k socket w)

  unfoldable pub run_capture :
      List ℕ → ℕ → ℕ → Option FilterSpec → ℕ → World → Result (List FrameJson) McpError × World
  unfolding transpose_filter capture_window
  run_capture iface timeout_ms max_frames filter fuel =
      checked (transpose_filter filter) λ filters w.
        then_act (internal (open_socket k iface (capture_opts 100 filters) w)) λ socket w₁.
          closing socket
            (internal (capture_window (channel k socket) timeout_ms max_frames fuel w₁))
