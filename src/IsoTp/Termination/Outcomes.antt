-- ===== src/IsoTp/Termination/Outcomes.antt =====
-- How an action of mcanbus/src/isotp.rs may end, and that this passes on to the action after it.
use mcanbus.Base.{ℕ, ◌≤◌, ◌<◌, Option, none, some, arith}
use mcanbus.Base.Results.{Result, ok, err}
use mcanbus.Io.{Io, IoError, proceed}
use mcanbus.Channel.{Channel}
use mcanbus.Channel.Laws.{IsTimed, Ended}
use mcanbus.Frame.Data.{Frame}

module _ (ch : Channel) (timed : IsTimed ch) where
  open ch use {World, now, sleep, send, recv}
  open timed use {
    time, now_reads, now_passes, sleep_passes, send_passes, recv_passes, send_ends, recv_ends,
  }

  -- An outcome from `w`: it is not for want of fuel, and no time is taken back.
  abbrev pub Steady : {A : Type 0} → World → Result A IoError × World → Type 0
  Steady w r = Ended r.0 × (time w ≤ time r.1)

  -- An outcome whose success took time and began before the deadline; and one where a frame did.
  abbrev pub Timely : {A : Type 0} → ℕ → World → Result A IoError × World → Type 0
  Timely deadline w (ok a, w₁) = (time w < time w₁) × (time w < deadline)
  Timely deadline w (err e, w₁) = Ended {A = Unit {0}} (err e) × (time w ≤ time w₁)

  abbrev pub Watched : ℕ → World → Result (Option Frame) IoError × World → Type 0
  Watched deadline w (ok none, w₁) = time w ≤ time w₁
  Watched deadline w (ok (some frame), w₁) = (time w < time w₁) × (time w < deadline)
  Watched deadline w (err e, w₁) = Ended {A = Unit {0}} (err e) × (time w ≤ time w₁)

  pub earlier-Watched :
      (deadline : ℕ) (w w₁ : World) (r : Result (Option Frame) IoError × World)
      → time w < time w₁
      → Watched deadline w₁ r
      → Watched deadline w r
  earlier-Watched deadline w w₁ (ok none, w₂) lt h = omega arith
  earlier-Watched deadline w w₁ (ok (some frame), w₂) lt (later, before) =
      (omega arith, omega arith)
  earlier-Watched deadline w w₁ (err e, w₂) lt (ends, le) = (ends, omega arith)

  pub pass_on : {A B : Type 0} (e : IoError) → Ended {A = A} (err e) → Ended {A = B} (err e)
  pass_on e ends eq = ends (cc eq)

  pub then-Steady :
      {A B : Type 0} (w : World) (r : Result A IoError × World) (f : A → Io World B)
      → Steady w r
      → ((a : A) (w₁ : World) → time w ≤ time w₁ → Steady w₁ (f a w₁))
      → Steady w (proceed r f)
  then-Steady w (ok a, w₁) f (ends, le) next =
      let later = next a w₁ le in (later.0, omega (arith, later.1))
  then-Steady w (err e, w₁) f (ends, le) next = (pass_on e ends, le)

  pub then-Timely :
      {A B : Type 0} (deadline : ℕ) (w : World) (r : Result A IoError × World) (f : A → Io World B)
      → Timely deadline w r
      → ((a : A) (w₁ : World) → time w < time w₁ → time w < deadline → Steady w₁ (f a w₁))
      → Steady w (proceed r f)
  then-Timely deadline w (ok a, w₁) f (lt, before) next =
      let later = next a w₁ lt before in (later.0, omega (arith, later.1))
  then-Timely deadline w (err e, w₁) f (ends, le) next = (pass_on e ends, le)
