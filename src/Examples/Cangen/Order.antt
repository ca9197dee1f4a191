-- ===== src/Examples/Cangen/Order.antt =====
-- examples/cangen.rs: what is on the bus, in its order.
use mathlib.Core.List.{map-append}
use native.Mathlib.Nat.{zero-mul}
use mcanbus.Base.{
  ℕ, zero, suc, ◌+◌, ◌*◌, ◌%◌, ◌^◌, ◌≤◌, ◌≡◌, refl, sym, ap, ◌∙◌, arith, List, [], ◌++◌, map,
  append_assoc, append-nil, length,
}
use mcanbus.Base.Results.{Result, ok, err}
use mcanbus.Examples.{Halt, then_do}
use mcanbus.Examples.Cangen.{
  Args, Pace, fill, burst_period, keep_pace, paced, burst, round, rounds_of, first_pace, generate,
}
use mcanbus.Examples.Cangen.Buffer.{
  Fills, fill-Fills, Filled, behind, after, fill-add, fill_zero, AreNumbered, filled_buffer,
}
use mcanbus.Frame.Data.{Frame}
use mcanbus.Frame.Wire.{frame_bytes}
use mcanbus.Socket.Kernel.{Kernel}
use mcanbus.Socket.Transfer.{Socket, max_batch}
use mcanbus.Examples.Cangen.Bus.{Bus, TakesAll, Sends, keep_pace-keeps, send_burst-Sends}

module _ (k : Kernel) (sleep_nanos : ℕ → k.World → k.World) (bus : Bus k sleep_nanos)
    (takes_all : TakesAll k) (socket : Socket) (args : Args) (small : args.batch ≤ max_batch) where
  open k use {World, endian, now}
  open bus use {on_bus, now_keeps}

  -- From `w` on, the frames numbered from `seq` have been put on the bus, as one buffer of `m`.
  abbrev Numbered : World → ℕ → ℕ → Result Pace Halt × World → Type 0
  Numbered w m seq (ok pace, w') =
      (filled : List Frame × ℕ) × (fill args m seq ≡ ok filled)
      × (on_bus w' ≡ on_bus w ++ map (frame_bytes endian) filled.0)
      × (pace.seq ≡ filled.1)
  Numbered w m seq (err e, w') = Unit {0}

  round-Numbered :
      (pace : Pace) (w : World)
      → Numbered w args.batch pace.seq (round k sleep_nanos socket args pace w)
  unfolding round burst
  round-Numbered pace w =
      built (fill args args.batch pace.seq) refl (fill-Fills args args.batch pace.seq)
    where
      sent_on :
          (frames : List Frame) (seq : ℕ) (r : Result ℕ Halt × World)
          → fill args args.batch pace.seq ≡ ok (frames, seq)
          → Sends k sleep_nanos bus w frames r
          → Numbered w args.batch pace.seq (
              then_do r (λ n w₁.
                paced
                  ((pace.sent + n % 2 ^ 64) % 2 ^ 64)
                  seq
                  (keep_pace k sleep_nanos (pace.next_deadline + burst_period args) w₁)))
      sent_on frames seq (err e, w₁) same h = tt
      sent_on frames seq (ok n, w₁) same h =
          ((frames, seq), same, keep_pace-keeps k sleep_nanos bus _ w₁ ∙ h, refl)

      built :
          (r : Filled)
          → fill args args.batch pace.seq ≡ r
          → Fills args.batch r
          → Numbered w args.batch pace.seq (burst k sleep_nanos socket args pace r w)
      built (err e) same whole = tt
      built (ok (frames, seq)) same whole =
          sent_on frames seq _ same
            (send_burst-Sends k sleep_nanos bus takes_all socket args small frames w whole)

  rounds_of-Numbered :
      (rounds : ℕ) (pace : Pace) (w : World)
      → Numbered w
          (rounds * args.batch)
          pace.seq
          (rounds_of k sleep_nanos socket args rounds pace w)
  unfolding rounds_of
  rounds_of-Numbered zero pace w = (([], pace.seq), none_filled, sym (append-nil (on_bus w)), refl)
    where
      none_filled : fill args (zero * args.batch) pace.seq ≡ ok ([], pace.seq)
      none_filled = rw (zero-mul args.batch) (fill_zero args pace.seq)
  rounds_of-Numbered (suc rounds) pace w =
      next (round k sleep_nanos socket args pace w) (round-Numbered pace w)
        (λ pace' w₁. rounds_of-Numbered rounds pace' w₁)
    where
      next :
          (r : Result Pace Halt × World)
          → Numbered w args.batch pace.seq r
          → ((pace' : Pace) (w₁ : World)
              → Numbered w₁
                  (rounds * args.batch)
                  pace'.seq
                  (rounds_of k sleep_nanos socket args rounds pace' w₁))
          → Numbered w
              (suc rounds * args.batch)
              pace.seq
              (then_do r (rounds_of k sleep_nanos socket args rounds))
      next (err e, w₁) h rest = tt
      next (ok pace', w₁) ((front, seq'), filled, on, same) rest =
          later (rounds_of k sleep_nanos socket args rounds pace' w₁) (rest pace' w₁)
        where
          later :
              (r : Result Pace Halt × World)
              → Numbered w₁ (rounds * args.batch) pace'.seq r
              → Numbered w (suc rounds * args.batch) pace.seq r
          later (err e, w₂) g = tt
          later (ok last, w₂) ((more, seq''), filled', on', same') = (
            (front ++ more, seq''),
            joined,
            on'
                ∙ (ap (λ (b : List (List ℕ)). b ++ map (frame_bytes endian) more) on
                    ∙ (append_assoc (on_bus w) (map (frame_bytes endian) front)
                          (map (frame_bytes endian) more)
                        ∙ ap (λ (b : List (List ℕ)). on_bus w ++ b)
                            (sym (map-append (frame_bytes endian) front more)))),
            same',
          )
            where
              joined : fill args (suc rounds * args.batch) pace.seq ≡ ok (front ++ more, seq'')
              joined =
                  ap (λ (m : ℕ). fill args m pace.seq) (omega arith)
                  ∙ (fill-add args args.batch (rounds * args.batch) pace.seq
                      ∙ (ap (λ (r : Filled). after r (fill args (rounds * args.batch))) filled
                          ∙ ap (behind front)
                              (ap (fill args (rounds * args.batch)) (sym same) ∙ filled')))

  -- `m` frames, numbered from 0 on, have been put on the bus, each once and in this order.
  abbrev pub OnBus : World → ℕ → Result Pace Halt × World → Type 0
  OnBus w m (ok pace, w') =
      (frames : List Frame) × (length frames ≡ m)
      × AreNumbered args 0 frames
      × (on_bus w' ≡ on_bus w ++ map (frame_bytes endian) frames)
  OnBus w m (err e, w') = Unit {0}

  -- With a batch of at most 64 and a kernel that takes all messages of a call, the batches cannot be
  -- told on the bus: what has been sent when the loop has gone round some times without an error
  -- are the frames with the numbers from 0 on, a batch for each round, in order and each of them
  -- once.
  pub generate-OnBus :
      (rounds : ℕ) (w : World)
      → OnBus w (rounds * args.batch) (generate k sleep_nanos socket args rounds w)
  unfolding generate
  generate-OnBus rounds w =
      started (rounds_of k sleep_nanos socket args rounds (first_pace (now w).0) (now w).1)
        (rounds_of-Numbered rounds (first_pace (now w).0) (now w).1)
    where
      started :
          (r : Result Pace Halt × World)
          → Numbered (now w).1 (rounds * args.batch) 0 r
          → OnBus w (rounds * args.batch) r
      started (err e, w') h = tt
      started (ok pace, w') (filled, same, on, last) =
          let held = filled_buffer args (rounds * args.batch) filled same in
          (
            filled.0,
            held.0,
            held.1,
            on ∙ ap (λ (b : List (List ℕ)). b ++ map (frame_bytes endian) filled.0) (now_keeps w),
          )
