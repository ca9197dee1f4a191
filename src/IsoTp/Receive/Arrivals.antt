-- ===== src/IsoTp/Receive/Arrivals.antt =====
-- mcanbus/src/isotp.rs: what arrives on a channel, and the receiving loop.
use mcanbus.Base.{
  ℕ, zero, suc, ◌+◌, ◌≤◌, ◌<◌, ◌≡◌, refl, ap, Option, none, some, List, [], ◌∷◌, arith, lt→ltb,
}
use mcanbus.Base.Results.{Result, ok}
use mcanbus.Io.{IoError, proceed}
use mcanbus.Channel.{Channel}
use mcanbus.Channel.Laws.{IsTimed}
use mcanbus.Frame.Id.{CanId}
use mcanbus.Frame.Data.{Frame, payload}
use mcanbus.IsoTp.Receive.{accept, recv_with_id, recv_or_time_out}

module _ (ch : Channel) (rx_id : CanId) (deadline : ℕ) where
  open ch use {World, now, recv}

  -- From a world, `frame` is the first with the identifier that arrives before the deadline; others,
  -- and rounds without a frame, may come before it.
  pub data Arrives : World → Frame → World → Type 0 where
    hit :
        {w w' : World} {frame : Frame} (got : Option Frame)
        → (now w).0 < deadline
        → recv (now w).1 ≡ (ok got, w')
        → accept rx_id got ≡ some frame
        → Arrives w frame w'
    skip :
        {w w₁ w' : World} {frame : Frame} (got : Option Frame)
        → (now w).0 < deadline
        → recv (now w).1 ≡ (ok got, w₁)
        → accept rx_id got ≡ none
        → Arrives w₁ frame w'
        → Arrives w frame w'

  -- Frames with the given payloads arrive one after the other.
  abbrev pub Delivers : World → List (List ℕ) → World → Type 0
  Delivers w [] w' = w ≡ w'
  Delivers w (body ∷ bodies) w' =
      (frame : Frame) × (w₁ : World) × Arrives w frame w₁
      × (payload frame ≡ body)
      × Delivers w₁ bodies w'

  module _ (timed : IsTimed ch) where
    open timed use {time, now_reads, now_passes, recv_passes}

    -- A call of `recv` after a look at the clock, where that is before the deadline.
    recv_later :
        {w w' : World} {r : Result (Option Frame) IoError}
        → recv (now w).1 ≡ (r, w')
        → time w < time w'
    recv_later {w} e = omega (
      arith,
      now_reads w,
      now_passes w,
      recv_passes (now w).1,
      ap (λ (t : Result (Option Frame) IoError × World). time t.1) e,
    )

    pub Arrives-time :
        {w w' : World} {frame : Frame}
        → Arrives w frame w'
        → (time w < time w') × (time w < deadline)
    Arrives-time {w} (hit got h e a) = omega (arith, recv_later {w = w} e, now_reads w)
    Arrives-time {w} (skip got h e a rest) =
        omega (arith, recv_later {w = w} e, now_reads w, Arrives-time rest)

    -- The loop passes over everything else and returns the frame.
    pub recv_with_id-Arrives :
        (fuel : ℕ) {w w' : World} {frame : Frame}
        → deadline ≤ time w + fuel
        → Arrives w frame w'
        → recv_with_id ch rx_id deadline fuel w ≡ (ok (some frame), w')
    unfolding recv_with_id
    recv_with_id-Arrives zero {w} h (hit got l e a) = absurd (omega (arith, now_reads w))
    recv_with_id-Arrives zero {w} h (skip got l e a rest) = absurd (omega (arith, now_reads w))
    recv_with_id-Arrives (suc fuel) {w} h (hit got l e a) =
        rw (lt→ltb (now w).0 deadline l, e, proceed, a) refl
    recv_with_id-Arrives (suc fuel) {w} h (skip got l e a rest) =
        rw (lt→ltb (now w).0 deadline l, e, proceed, a)
          (recv_with_id-Arrives fuel (omega (arith, recv_later {w = w} e)) rest)

    pub recv_or_time_out-Arrives :
        (fuel : ℕ) {w w' : World} {frame : Frame}
        → deadline ≤ time w + fuel
        → Arrives w frame w'
        → recv_or_time_out ch rx_id deadline fuel w ≡ (ok frame, w')
    unfolding recv_or_time_out
    recv_or_time_out-Arrives fuel h a = rw (recv_with_id-Arrives fuel h a) refl
