-- ===== src/Examples/Cangen/Bus.antt =====
-- examples/cangen.rs: what its calls put on the bus.
use mcanbus.Base.{
  ℕ, ◌-◌, ◌≤◌, ◌≡◌, refl, sym, ap, ◌∙◌, arith, Bool-cases, either_branch, inl, inr, ltb, ◌==◌,
  ==_iff, ◌!=◌, if◌then◌else◌, pos→==, List, [], ◌∷◌, ◌++◌, map, append-nil, length, take, take-all,
}
use mcanbus.Base.Results.{Result, ok, err}
use mcanbus.Io.{IoError, kind, write_zero, proceed}
use mcanbus.Examples.{Halt, then_do, attempt}
use mcanbus.Examples.Cangen.{Args, send_first, send_burst, keep_pace}
use mcanbus.Frame.Data.{Frame, is_fd}
use mcanbus.Frame.Wire.{frame_bytes, wire_size}
use mcanbus.Socket.Kernel.{Kernel, last_os_error}
use mcanbus.Socket.Transfer.{Socket, send, send_batch, max_batch}

-- The bus: a write that goes well sends its bytes, `sendmmsg` as many of the messages as it says,
-- and neither the clock nor sleeping sends any.
pub record Bus (k : Kernel) (sleep_nanos : ℕ → k.World → k.World) : Type 0 where
  pub on_bus : k.World → List (List ℕ)
  pub write_sends :
      (fd n : ℕ) (bytes : List ℕ) (w w' : k.World)
      → k.write fd bytes w ≡ (ok n, w')
      → on_bus w' ≡ on_bus w ++ bytes ∷ []
  pub sendmmsg_sends :
      (fd n : ℕ) (msgs : List (List ℕ)) (w w' : k.World)
      → k.sendmmsg fd msgs w ≡ (ok n, w')
      → on_bus w' ≡ on_bus w ++ take n msgs
  pub now_keeps : (w : k.World) → on_bus (k.now w).1 ≡ on_bus w
  pub sleep_keeps : (nanos : ℕ) (w : k.World) → on_bus (sleep_nanos nanos w) ≡ on_bus w

-- The kernel takes all messages of a call that goes well.
abbrev pub TakesAll : Kernel → Type 0
TakesAll k =
    (fd n : ℕ) (msgs : List (List ℕ)) (w w' : k.World)
    → k.sendmmsg fd msgs w ≡ (ok n, w')
    → n ≡ length msgs

module _ (k : Kernel) (sleep_nanos : ℕ → k.World → k.World) (bus : Bus k sleep_nanos) where
  open k use {World, endian, now, write, sendmmsg}
  open bus use {on_bus, write_sends, sendmmsg_sends, now_keeps, sleep_keeps}

  pub keep_pace-keeps :
      (deadline : ℕ) (w : World) → on_bus (keep_pace k sleep_nanos deadline w).1 ≡ on_bus w
  unfolding keep_pace
  keep_pace-keeps deadline w =
      either_branch (λ (r : ℕ × World). on_bus r.1 ≡ on_bus w) (ltb (now w).0 deadline)
        (sleep_keeps (deadline - (now w).0) (now w).1 ∙ now_keeps w)
        (either_branch (λ (r : ℕ × World). on_bus r.1 ≡ on_bus w)
          (ltb 500_000_000 ((now w).0 - deadline)) (now_keeps w) (now_keeps w))

  -- A call from `w` that goes well has put the frames on the bus.
  abbrev pub Sends : {A : Type 0} → World → List Frame → Result A Halt × World → Type 0
  Sends w frames (ok a, w') = on_bus w' ≡ on_bus w ++ map (frame_bytes endian) frames
  Sends w frames (err e, w') = Unit {0}

  module _ (takes_all : TakesAll k) (socket : Socket) where
    send_first-Sends :
        (frames : List Frame) (w : World)
        → length frames ≡ 1
        → Sends w frames (send_first k sleep_nanos socket frames w)
    unfolding send_first send
    send_first-Sends [] w one = tt
    send_first-Sends (frame ∷ other ∷ frames) w one = absurd (omega arith)
    send_first-Sends (frame ∷ []) w one =
        written (write socket.fd (frame_bytes endian frame) w) refl
      where
        written :
            (r : Result ℕ ℕ × World)
            → write socket.fd (frame_bytes endian frame) w ≡ r
            → Sends w (frame ∷ []) (
                then_do
                  (attempt (
                    proceed (last_os_error r) (λ n w₂.
                      let sized : Result (Unit {0}) IoError × World =
                        if n != wire_size (is_fd frame)
                        then (err (kind write_zero), w₂)
                        else (ok tt, w₂) in
                      sized)))
                  (λ _ w₁. (let one_sent : Result ℕ Halt × World = (ok 1, w₁) in one_sent)))
        written (err errno, w₁) same = tt
        written (ok n, w₁) same =
            either_branch
              (λ (q : Result (Unit {0}) IoError × World). Sends w (frame ∷ []) (
                then_do (attempt q)
                  (λ _ w₁. (let one_sent : Result ℕ Halt × World = (ok 1, w₁) in one_sent))))
              (n != wire_size (is_fd frame)) tt
              (write_sends socket.fd n (frame_bytes endian frame) w w₁ same)

    send_batch-Sends :
        (frames : List Frame) (w : World)
        → length frames ≤ max_batch
        → Sends w frames (attempt (send_batch k socket frames w))
    unfolding send_batch
    send_batch-Sends [] w few = sym (append-nil (on_bus w))
    send_batch-Sends (frame ∷ frames) w few = rw (pos→== (length (frame ∷ frames)) (omega arith)) (
        written (sendmmsg socket.fd (map (frame_bytes endian) (take max_batch (frame ∷ frames))) w)
          refl)
      where
        written :
            (r : Result ℕ ℕ × World)
            → sendmmsg socket.fd (map (frame_bytes endian) (take max_batch (frame ∷ frames))) w ≡ r
            → Sends w (frame ∷ frames) (attempt (last_os_error r))
        written (err errno, w₁) same = tt
        written (ok n, w₁) same =
            sendmmsg_sends socket.fd n _ w w₁ same
            ∙ ap (λ (sent : List (List ℕ)). on_bus w ++ sent)
                (take-all n (map (frame_bytes endian) (take max_batch (frame ∷ frames)))
                    (omega (arith, takes_all socket.fd n _ w w₁ same))
                  ∙ ap (map (frame_bytes endian)) (take-all max_batch (frame ∷ frames) few))

    pub send_burst-Sends :
        (args : Args)
        → args.batch ≤ max_batch
        → (frames : List Frame) (w : World) → length frames ≡ args.batch
        → Sends w frames (send_burst k sleep_nanos socket args frames w)
    unfolding send_burst
    send_burst-Sends args small frames w whole = elim (Bool-cases (args.batch == 1)) [
      | inl one ↦ rw one (send_first-Sends frames w (whole ∙ (==_iff args.batch 1).0 one))
      | inr more ↦ rw more (send_batch-Sends frames w (omega (arith, whole)))
    ]
