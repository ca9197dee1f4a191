-- ===== src/Mcp/Capture/Kept.antt =====
-- socketcan-mcp/src/main.rs: a capture leaves alone what the calls on its channel leave alone.
use mcanbus.Base.{
  ℕ, zero, suc, ◌+◌, ◌*◌, ◌≡◌, ◌∙◌, Option, none, some, List, [], ◌∷◌, ◌++◌, min, ltb, length,
  either_branch,
}
use mcanbus.Base.Results.{Result, ok, err}
use mcanbus.Io.{IoError, proceed}
use mcanbus.Channel.{Channel}
use mcanbus.Frame.Data.{Frame}
use mcanbus.IsoTp.Kept.{IsKept}
use mcanbus.Mcp.Json.{FrameJson, from_frame}
use mcanbus.Mcp.Capture.{capture_loop, capture_window, max_frames_cap}

module _ {S : Type 0} (ch : Channel) (view : ch.World → S) (kept : IsKept ch view) (s : S) where
  open ch use {World, now, recv}
  open kept use {now_keeps, recv_keeps}

  capture_loop-keeps :
      (max_frames deadline fuel : ℕ) (out : List FrameJson) (w : World)
      → view w ≡ s
      → view (capture_loop ch max_frames deadline fuel out w).1 ≡ s
  unfolding capture_loop
  capture_loop-keeps max_frames deadline zero out w h = h
  capture_loop-keeps max_frames deadline (suc fuel) out w h =
      either_branch (λ (r : Result (List FrameJson) IoError × World). view r.1 ≡ s)
        (ltb (length out) max_frames)
        (either_branch (λ (r : Result (List FrameJson) IoError × World). view r.1 ≡ s)
          (ltb (now w).0 deadline)
          (next (recv (now w).1) (recv_keeps (now w).1 ∙ (now_keeps w ∙ h))
            (λ out' w₂. capture_loop-keeps max_frames deadline fuel out' w₂))
          (now_keeps w ∙ h))
        h
    where
      next :
          (r : Result (Option Frame) IoError × World)
          → view r.1 ≡ s
          → ((out' : List FrameJson) (w₂ : World)
              → view w₂ ≡ s
              → view (capture_loop ch max_frames deadline fuel out' w₂).1 ≡ s)
          → view
              (proceed r (λ got. elim got [
                | none ↦ λ w₂. capture_loop ch max_frames deadline fuel out w₂
                | some frame ↦
                    λ w₂. capture_loop ch max_frames deadline fuel (out ++ from_frame frame ∷ []) w₂
              ])).1
            ≡ s
      next (ok none, w₂) h₂ rest = rest out w₂ h₂
      next (ok (some frame), w₂) h₂ rest = rest (out ++ from_frame frame ∷ []) w₂ h₂
      next (err e, w₂) h₂ rest = h₂

  pub capture_window-keeps :
      (timeout_ms max_frames fuel : ℕ) (w : World)
      → view w ≡ s
      → view (capture_window ch timeout_ms max_frames fuel w).1 ≡ s
  unfolding capture_window
  capture_window-keeps timeout_ms max_frames fuel w h =
      capture_loop-keeps (min max_frames max_frames_cap) ((now w).0 + timeout_ms * 1_000_000) fuel
        [] (now w).1 (now_keeps w ∙ h)
