-- ===== src/Mcp/Capture/Bounds.antt =====
-- socketcan-mcp/src/main.rs: what a capture returns, and that it ends.
use mcanbus.Base.{
  ℕ, zero, suc, ◌+◌, ◌*◌, min, ◌≤◌, ◌<◌, ◌≡◌, refl, ◌∙◌, sym, arith, Option, none, some, List, [],
  ◌∷◌, ◌++◌, ltb, length, length-append, map, ◌⊎◌, Bool-cases, inl, inr, ltb→lt, ltb→le,
  append_assoc, append-nil,
}
use mcanbus.Base.Results.{Result, ok, err}
use mcanbus.Io.{IoError, out_of_fuel, proceed}
use mcanbus.Channel.{Channel}
use mcanbus.Channel.Laws.{IsTimed, Ended}
use mcanbus.Frame.Data.{Frame}
use mcanbus.Mcp.Json.{FrameJson, from_frame}
use mcanbus.Mcp.Capture.{max_frames_cap, capture_loop, capture_window}

-- The frames that `recv` returns in rounds that begin before the deadline, in their order.
pub data Delivers (ch : Channel) (deadline : ℕ) : ch.World → List Frame → ch.World → Type 0 where
  at_end : (w : ch.World) → Delivers ch deadline w [] w
  in_silence :
      (w w₁ w' : ch.World) (frames : List Frame)
      → (ch.now w).0 < deadline
      → ch.recv (ch.now w).1 ≡ (ok none, w₁)
      → Delivers ch deadline w₁ frames w'
      → Delivers ch deadline w frames w'
  on_arrival :
      (w w₁ w' : ch.World) (frame : Frame) (frames : List Frame)
      → (ch.now w).0 < deadline
      → ch.recv (ch.now w).1 ≡ (ok (some frame), w₁)
      → Delivers ch deadline w₁ frames w'
      → Delivers ch deadline w (frame ∷ frames) w'

-- What a capture from `w` returns behind `out`: all frames that are delivered up to some moment,
-- which is when there are enough or the deadline has passed.
pub record Complete (ch : Channel) (max_frames deadline : ℕ) (w : ch.World)
    (out result : List FrameJson) : Type 0 where
  pub frames : List Frame
  pub stopped : ch.World
  pub delivered : Delivers ch deadline w frames stopped
  pub returned : result ≡ out ++ map from_frame frames
  pub few : length result ≤ max_frames
  pub reason : (length result ≡ max_frames) ⊎ (deadline ≤ (ch.now stopped).0)

abbrev pub Captured :
    (ch : Channel)
    → ℕ
    → ℕ
    → ch.World
    → List FrameJson
    → Result (List FrameJson) IoError × ch.World
    → Type 0
Captured ch max_frames deadline w out (ok result, w') = Complete ch max_frames deadline w out result
Captured ch max_frames deadline w out (err e, w') = ¬ (e ≡ out_of_fuel)

module _ (ch : Channel) (timed : IsTimed ch) (max_frames deadline : ℕ) where
  open ch use {World, now, recv}
  open timed use {time, now_reads, now_passes, recv_passes, recv_ends}

  -- One more round before the others.
  after_silence :
      (w w₁ : World) (out : List FrameJson) (r : Result (List FrameJson) IoError × World)
      → (now w).0 < deadline
      → recv (now w).1 ≡ (ok none, w₁)
      → Captured ch max_frames deadline w₁ out r
      → Captured ch max_frames deadline w out r
  after_silence w w₁ out (err e, w') early quiet h = h
  after_silence w w₁ out (ok result, w') early quiet h = record {
    frames = h.frames;
    stopped = h.stopped;
    delivered = in_silence w w₁ h.stopped h.frames early quiet h.delivered;
    returned = h.returned;
    few = h.few;
    reason = h.reason;
  }

  after_arrival :
      (w w₁ : World) (frame : Frame) (out : List FrameJson)
      (r : Result (List FrameJson) IoError × World)
      → (now w).0 < deadline
      → recv (now w).1 ≡ (ok (some frame), w₁)
      → Captured ch max_frames deadline w₁ (out ++ from_frame frame ∷ []) r
      → Captured ch max_frames deadline w out r
  after_arrival w w₁ frame out (err e, w') early arrived h = h
  after_arrival w w₁ frame out (ok result, w') early arrived h = record {
    frames = frame ∷ h.frames;
    stopped = h.stopped;
    delivered = on_arrival w w₁ h.stopped frame h.frames early arrived h.delivered;
    returned = h.returned ∙ append_assoc out (from_frame frame ∷ []) (map from_frame h.frames);
    few = h.few;
    reason = h.reason;
  }

  stop :
      (w w' : World) (out : List FrameJson)
      → length out ≤ max_frames
      → (length out ≡ max_frames) ⊎ (deadline ≤ (now w).0)
      → Captured ch max_frames deadline w out (ok out, w')
  stop w w' out few reason = record {
    frames = [];
    stopped = w;
    delivered = at_end w;
    returned = sym (append-nil out);
    few = few;
    reason = reason;
  }

  capture_loop-Captured :
      (fuel : ℕ) (out : List FrameJson) (w : World)
      → length out ≤ max_frames
      → deadline < time w + fuel
      → 0 < fuel
      → Captured ch max_frames deadline w out (capture_loop ch max_frames deadline fuel out w)
  unfolding capture_loop
  capture_loop-Captured zero out w few enough pos = absurd (omega arith)
  capture_loop-Captured (suc fuel) out w few enough pos =
      elim (Bool-cases (ltb (length out) max_frames)) [
        | inr full ↦
            rw full
              (stop w w out few (inl (omega (arith, few, ltb→le (length out) max_frames full))))
        | inl room ↦ elim (Bool-cases (ltb (now w).0 deadline)) [
          | inr late ↦
              rw (room, late) (stop w (now w).1 out few (inr (ltb→le (now w).0 deadline late)))
          | inl early ↦
              rw (room, early)
                (next (ltb→lt (length out) max_frames room) (ltb→lt (now w).0 deadline early)
                  (recv (now w).1) refl (recv_ends (now w).1) (recv_passes (now w).1)
                  (λ out' w₂. capture_loop-Captured fuel out' w₂))
        ]
      ]
    where
      next :
          length out < max_frames
          → (now w).0 < deadline
          → (r : Result (Option Frame) IoError × World) → recv (now w).1 ≡ r
          → Ended r.0
          → time (now w).1 < time r.1
          → ((out' : List FrameJson) (w₂ : World)
              → length out' ≤ max_frames
              → deadline < time w₂ + fuel
              → 0 < fuel
              → Captured ch max_frames deadline w₂ out'
                  (capture_loop ch max_frames deadline fuel out' w₂))
          → Captured ch max_frames deadline w out (
              proceed r (λ got. elim got [
                | none ↦ λ w₂. capture_loop ch max_frames deadline fuel out w₂
                | some frame ↦
                    λ w₂. capture_loop ch max_frames deadline fuel (out ++ from_frame frame ∷ []) w₂
              ]))
      next room early (ok none, w₂) same ends later rest = after_silence w w₂ out _ early same (
          rest out w₂ few (omega (arith, now_passes w, now_reads w))
            (omega (arith, now_passes w, now_reads w)))
      next room early (ok (some frame), w₂) same ends later rest =
          after_arrival w w₂ frame out _ early same (
            rest (out ++ from_frame frame ∷ []) w₂
              (omega (arith, length-append out (from_frame frame ∷ [])))
              (omega (arith, now_passes w, now_reads w)) (omega (arith, now_passes w, now_reads w)))
      next room early (err e, w₂) same ends later rest = λ own. ends (cc own)

-- Over a channel whose clock does not run back and whose recv takes time, a capture with more
-- rounds than its timeout has nanoseconds ends, whatever the traffic: with an error of the source,
-- or with the frames that are delivered from its start on, each of them printed once and in their
-- order, until they are as many as asked for, or 4096 if that is less, or the timeout has passed.
pub capture_window-Captured :
    (ch : Channel) (timed : IsTimed ch) (timeout_ms max_frames fuel : ℕ) (w : ch.World)
    → timeout_ms * 1_000_000 < fuel
    → Captured ch
        (min max_frames max_frames_cap)
        ((ch.now w).0 + timeout_ms * 1_000_000)
        (ch.now w).1
        []
        (capture_window ch timeout_ms max_frames fuel w)
unfolding capture_window
capture_window-Captured ch timed timeout_ms max_frames fuel w enough =
    capture_loop-Captured ch timed (min max_frames max_frames_cap)
      ((ch.now w).0 + timeout_ms * 1_000_000) fuel [] (ch.now w).1 (omega arith)
      (omega (arith, timed.now_passes w)) (omega arith)
