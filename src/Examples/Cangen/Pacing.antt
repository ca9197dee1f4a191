-- ===== src/Examples/Cangen/Pacing.antt =====
-- examples/cangen.rs: the rate of its frames.
use mcanbus.Base.{
  ℕ, zero, suc, ◌+◌, ◌-◌, ◌*◌, ◌%◌, ◌^◌, ◌≤◌, ◌<◌, ◌≡◌, refl, arith, Bool-cases, either_branch, inl,
  inr, ltb, ltb→lt, ltb→le, ◌==◌, List, [], ◌∷◌, map, length, length-take, take,
}
use mathlib.Core.Path.{subst}
use native.Mathlib.Nat.{div-add-mod, mod-lt, mul-le-mul_left}
use mcanbus.Base.Results.{Result, ok, err}
use mcanbus.Io.{IoError}
use mcanbus.Examples.{Halt, then_do, attempt}
use mcanbus.Examples.Cangen.Buffer.{Fills, fill-Fills, length-map}
use mcanbus.Examples.Cangen.{
  Args, Pace, fill, burst_period, send_first, send_burst, keep_pace, paced, burst, round, rounds_of,
  first_pace, generate,
}
use mcanbus.Frame.Data.{Frame}
use mcanbus.Frame.Wire.{frame_bytes}
use mcanbus.Socket.Kernel.{Kernel, last_os_error}
use mcanbus.Socket.Link.{KernelTime}
use mcanbus.Socket.Transfer.{Socket, send, send_batch, max_batch}

-- A sleep lasts at least as long as it is asked to, and `sendmmsg` takes no more messages than it
-- is given.
pub record PaceTime (k : Kernel) (sleep_nanos : ℕ → k.World → k.World) : Type 0 where
  pub clock : KernelTime k
  pub sleeps : (nanos : ℕ) (w : k.World) → clock.time w + nanos ≤ clock.time (sleep_nanos nanos w)
  pub sendmmsg_counts :
      (fd n : ℕ) (msgs : List (List ℕ)) (w w' : k.World)
      → k.sendmmsg fd msgs w ≡ (ok n, w')
      → n ≤ length msgs

module _ (k : Kernel) (sleep_nanos : ℕ → k.World → k.World) (timed : PaceTime k sleep_nanos)
    (socket : Socket) (args : Args) where
  open k use {World, endian, now, write, sendmmsg}
  open timed use {clock, sleeps, sendmmsg_counts}
  open clock use {time, now_reads, now_passes}

  -- The next deadline is not put forward, and the clock has reached it.
  keep_pace-le :
      (deadline : ℕ) (w : World)
      → let (next_deadline, w') = keep_pace k sleep_nanos deadline w in
        (deadline ≤ next_deadline) × (next_deadline ≤ time w')
  unfolding keep_pace
  keep_pace-le deadline w = elim (Bool-cases (ltb (now w).0 deadline)) [
    | inl early ↦ rw early (
      omega arith,
      omega (
        arith,
        ltb→lt (now w).0 deadline early,
        sleeps (deadline - (now w).0) (now w).1,
        now_passes w,
      ),
    )
    | inr late ↦ rw late (
        either_branch (λ (r : ℕ × World). (deadline ≤ r.0) × (r.0 ≤ time r.1))
          (ltb 500_000_000 ((now w).0 - deadline)) (ltb→le (now w).0 deadline late, now_passes w)
          (omega arith, omega (arith, ltb→le (now w).0 deadline late, now_passes w)))
  ]

  -- What a call sends is at most `n`.
  abbrev SendsAtMost : ℕ → Result ℕ Halt × World → Type 0
  SendsAtMost n (ok sent, w') = sent ≤ n
  SendsAtMost n (err e, w') = Unit {0}

  send_first-SendsAtMost :
      (frames : List Frame) (w : World)
      → SendsAtMost (length frames) (send_first k sleep_nanos socket frames w)
  unfolding send_first
  send_first-SendsAtMost [] w = tt
  send_first-SendsAtMost (frame ∷ frames) w = written (send k socket frame w)
    where
      written :
          (r : Result (Unit {0}) IoError × World)
          → SendsAtMost (suc (length frames)) (then_do (attempt r) (λ _ w₁. (ok 1, w₁)))
      written (ok unit, w₁) = omega arith
      written (err e, w₁) = tt

  send_batch-SendsAtMost :
      (frames : List Frame) (w : World)
      → SendsAtMost (length frames) (attempt (send_batch k socket frames w))
  unfolding send_batch
  send_batch-SendsAtMost frames w =
      either_branch (λ (r : Result ℕ IoError × World). SendsAtMost (length frames) (attempt r))
        (length frames == 0) (omega arith) (written (sendmmsg socket.fd msgs w) refl)
    where
      msgs : List (List ℕ)
      msgs = map (frame_bytes endian) (take max_batch frames)

      written :
          (r : Result ℕ ℕ × World)
          → sendmmsg socket.fd (map (frame_bytes endian) (take max_batch frames)) w ≡ r
          → SendsAtMost (length frames) (attempt (last_os_error r))
      written (ok n, w₁) same = omega (
        arith,
        sendmmsg_counts socket.fd n (map (frame_bytes endian) (take max_batch frames)) w w₁ same,
        length-map (frame_bytes endian) (take max_batch frames),
        length-take max_batch frames,
      )
      written (err errno, w₁) same = tt

  -- From a moment on whose deadline is at least `deadline`, at most `sent` frames having been sent.
  abbrev Paced : ℕ → ℕ → Result Pace Halt × World → Type 0
  Paced deadline sent (ok pace, w') =
      (deadline ≤ pace.next_deadline) × (pace.next_deadline ≤ time w') × (pace.sent ≤ sent)
  Paced deadline sent (err e, w') = Unit {0}

  round-Paced :
      (pace : Pace) (w : World)
      → Paced
          (pace.next_deadline + burst_period args)
          (pace.sent + args.batch)
          (round k sleep_nanos socket args pace w)
  unfolding round burst send_burst
  round-Paced pace w = filled (fill args args.batch pace.seq) (fill-Fills args args.batch pace.seq)
    where
      sent_on :
          (seq : ℕ) (r : Result ℕ Halt × World)
          → SendsAtMost args.batch r
          → Paced (pace.next_deadline + burst_period args) (pace.sent + args.batch) (
              then_do r (λ n w₁.
                paced
                  ((pace.sent + n % 2 ^ 64) % 2 ^ 64)
                  seq
                  (keep_pace k sleep_nanos (pace.next_deadline + burst_period args) w₁)))
      sent_on seq (err e, w₁) h = tt
      sent_on seq (ok n, w₁) h =
          let kept = keep_pace-le (pace.next_deadline + burst_period args) w₁ in
          (kept.0, kept.1, omega (arith, h))

      filled :
          (r : Result (List Frame × ℕ) Halt)
          → Fills args.batch r
          → Paced
              (pace.next_deadline + burst_period args)
              (pace.sent + args.batch)
              (burst k sleep_nanos socket args pace r w)
      filled (err e) h = tt
      filled (ok (frames, seq)) h = sent_on seq _ (
          subst (λ (n : ℕ). SendsAtMost n (send_burst k sleep_nanos socket args frames w)) h
            (either_branch (SendsAtMost (length frames)) (args.batch == 1)
              (send_first-SendsAtMost frames w) (send_batch-SendsAtMost frames w)))

  rounds_of-Paced :
      (rounds : ℕ) (pace : Pace) (w : World)
      → pace.next_deadline ≤ time w
      → Paced
          (pace.next_deadline + rounds * burst_period args)
          (pace.sent + rounds * args.batch)
          (rounds_of k sleep_nanos socket args rounds pace w)
  unfolding rounds_of
  rounds_of-Paced zero pace w reached = (omega arith, reached, omega arith)
  rounds_of-Paced (suc rounds) pace w reached =
      next (round k sleep_nanos socket args pace w) (round-Paced pace w)
        (λ pace' w₁ h. rounds_of-Paced rounds pace' w₁ h)
    where
      next :
          (r : Result Pace Halt × World)
          → Paced (pace.next_deadline + burst_period args) (pace.sent + args.batch) r
          → ((pace' : Pace) (w₁ : World)
              → pace'.next_deadline ≤ time w₁
              → Paced
                  (pace'.next_deadline + rounds * burst_period args)
                  (pace'.sent + rounds * args.batch)
                  (rounds_of k sleep_nanos socket args rounds pace' w₁))
          → Paced
              (pace.next_deadline + suc rounds * burst_period args)
              (pace.sent + suc rounds * args.batch)
              (then_do r (rounds_of k sleep_nanos socket args rounds))
      next (err e, w₁) h rest = tt
      next (ok pace', w₁) h rest =
          later (rounds_of k sleep_nanos socket args rounds pace' w₁) (rest pace' w₁ h.1)
        where
          later :
              (r : Result Pace Halt × World)
              → Paced
                  (pace'.next_deadline + rounds * burst_period args)
                  (pace'.sent + rounds * args.batch)
                  r
              → Paced
                  (pace.next_deadline + suc rounds * burst_period args)
                  (pace.sent + suc rounds * args.batch)
                  r
          later (err e, w₂) g = tt
          later (ok last, w₂) g = (grind (arith, h, g), g.1, grind (arith, h, g))

  -- A period is less than a nanosecond shorter than what the rate says.
  period-rate :
      0 < args.rate
      → 1_000_000_000 * args.batch < 2 ^ 64
      → 1_000_000_000 * args.batch ≤ args.rate * (burst_period args + 1)
  unfolding burst_period
  period-rate some_rate fits =
      let nanos = 1_000_000_000 * args.batch in
      let whole : nanos % 2 ^ 64 ≡ nanos = omega (arith, fits) in
      rw whole (grind (arith, div-add-mod nanos args.rate, mod-lt nanos some_rate))

  -- What is sent in some rounds, each of which lasts a period on the average.
  rate-bound :
      (rounds sent period elapsed : ℕ)
      → 1_000_000_000 * args.batch ≤ args.rate * (period + 1)
      → sent ≤ rounds * args.batch
      → rounds * period ≤ elapsed
      → 1_000_000_000 * sent ≤ args.rate * (elapsed + rounds)
  rate-bound rounds sent period elapsed whole few long =
      let each = mul-le-mul_left rounds whole in
      let all =
        mul-le-mul_left {m = rounds * period + rounds} {n = elapsed + rounds} args.rate
          (omega (arith, long)) in
      let at_most : 1_000_000_000 * sent ≤ rounds * (1_000_000_000 * args.batch) =
        grind (arith, few) in
      let spread : rounds * (args.rate * (period + 1)) ≡ args.rate * (rounds * period + rounds) =
        grind arith in
      omega (arith, each, all, at_most, spread)

  -- With a rate of at least 1 and a batch whose nanoseconds fit 64 bits, the rate is kept on the
  -- average since the start, but for a nanosecond in each round by which the period is rounded
  -- down, whatever the calls took: when the loop has gone round some times without an error, what
  -- it has counted as sent is at most a batch for each round, and at most what the rate allows for
  -- the time that has passed and a nanosecond for each round.
  pub generate-Paced :
      (rounds : ℕ) (w w' : World) (pace : Pace)
      → 0 < args.rate
      → 1_000_000_000 * args.batch < 2 ^ 64
      → generate k sleep_nanos socket args rounds w ≡ (ok pace, w')
      → (pace.sent ≤ rounds * args.batch)
        × (time w ≤ time w')
        × (1_000_000_000 * pace.sent ≤ args.rate * (time w' - time w + rounds))
  unfolding generate
  generate-Paced rounds w w' pace some_rate fits same =
      let h : Paced ((now w).0 + rounds * burst_period args) (0 + rounds * args.batch)
          (generate k sleep_nanos socket args rounds w) =
        rounds_of-Paced rounds (first_pace (now w).0) (now w).1 (now_passes w) in
      let g =
        subst (Paced ((now w).0 + rounds * burst_period args) (0 + rounds * args.batch)) same h in
      let few : pace.sent ≤ rounds * args.batch = omega (arith, g) in
      (
        few,
        omega (arith, g, now_reads w),
        rate-bound rounds pace.sent (burst_period args) (time w' - time w)
            (period-rate some_rate fits) few (omega (arith, g, now_reads w)),
      )
