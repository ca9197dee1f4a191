-- ===== src/Examples/Ledger.antt =====
-- examples: the file descriptors of the programs.
use mcanbus.Base.{
  ℕ, zero, suc, ◌+◌, ◌-◌, ◌≡◌, refl, ◌∙◌, either_branch, ltb, ◌==◌, Option, none, some, List, [],
  ◌∷◌, map, take, length,
}
use mcanbus.Base.Results.{Result, ok, err}
use mcanbus.Io.{IoError}
use mcanbus.Examples.{Halt, then_do, attempt, closing}
use mcanbus.Examples.Cangen
use mcanbus.Examples.Candump
use mcanbus.Frame.Data.{Frame}
use mcanbus.Frame.Wire.{frame_bytes}
use mcanbus.Socket.Kernel.{Kernel, last_os_error}
use mcanbus.Socket.Kept.{CallLedger, channel-IsKept}
use mcanbus.Socket.Ledger.{Ledger}
use mcanbus.Socket.Open.{open_socket, drop_socket}
use mcanbus.Socket.Open.Laws.{Opened, open_socket-Opened}
use mcanbus.Socket.Transfer.{Socket, recv, send, send_batch, max_batch}

-- The two calls that only the programs make.
pub record ProgramLedger (k : Kernel) (ledger : Ledger k) (sleep_nanos : ℕ → k.World → k.World)
    : Type 0 where
  pub sleep_nanos_keeps :
      (nanos : ℕ) (w : k.World) → ledger.open_fds (sleep_nanos nanos w) ≡ ledger.open_fds w
  pub sendmmsg_keeps :
      (fd : ℕ) (msgs : List (List ℕ)) (w : k.World)
      → ledger.open_fds (k.sendmmsg fd msgs w).1 ≡ ledger.open_fds w

module _ (k : Kernel) (sleep_nanos : ℕ → k.World → k.World) (ledger : Ledger k)
    (calls : CallLedger k ledger) (programs : ProgramLedger k ledger sleep_nanos) where
  open k use {World, endian, now, sendmmsg}
  open ledger use {open_fds, close_closes}
  open calls use {now_keeps}
  open programs use {sleep_nanos_keeps, sendmmsg_keeps}

  -- An outcome with the descriptors `fds` open.
  abbrev Holds : {A : Type 0} → List ℕ → A × World → Type 0
  Holds fds r = open_fds r.1 ≡ fds

  then_do-Holds :
      {A B : Type 0} (fds : List ℕ) (r : Result A Halt × World)
      (f : A → World → Result B Halt × World)
      → Holds fds r
      → ((a : A) (w : World) → open_fds w ≡ fds → Holds fds (f a w))
      → Holds fds (then_do r f)
  then_do-Holds fds (ok a, w) f h next = next a w h
  then_do-Holds fds (err e, w) f h next = h

  attempt-Holds :
      {A : Type 0} (fds : List ℕ) (r : Result A IoError × World)
      → Holds fds r
      → Holds fds (attempt r)
  attempt-Holds fds (ok a, w) h = h
  attempt-Holds fds (err e, w) h = h

  last_os_error-Holds :
      {A : Type 0} (fds : List ℕ) (r : Result A ℕ × World)
      → Holds fds r
      → Holds fds (last_os_error r)
  last_os_error-Holds fds (ok a, w) h = h
  last_os_error-Holds fds (err e, w) h = h

  module _ (socket : Socket) (args : Cangen.Args) (fds : List ℕ) where
    send_first-Holds :
        (frames : List Frame) (w : World)
        → open_fds w ≡ fds
        → Holds fds (Cangen.send_first k sleep_nanos socket frames w)
    unfolding Cangen.send_first
    send_first-Holds [] w h = h
    send_first-Holds (frame ∷ frames) w h =
        then_do-Holds fds (attempt (send k socket frame w)) _
          (attempt-Holds fds (send k socket frame w)
            ((channel-IsKept k ledger calls socket).send_keeps frame w ∙ h))
          (λ _ w₁ h₁. h₁)

    send_batch-Holds :
        (frames : List Frame) (w : World)
        → open_fds w ≡ fds
        → Holds fds (send_batch k socket frames w)
    unfolding send_batch
    send_batch-Holds frames w h =
        either_branch (λ (r : Result ℕ IoError × World). Holds fds r) (length frames == 0) h
          (last_os_error-Holds fds
            (sendmmsg socket.fd (map (frame_bytes endian) (take max_batch frames)) w)
            (sendmmsg_keeps socket.fd (map (frame_bytes endian) (take max_batch frames)) w ∙ h))

    keep_pace-Holds :
        (deadline : ℕ) (w : World)
        → open_fds w ≡ fds
        → Holds fds (Cangen.keep_pace k sleep_nanos deadline w)
    unfolding Cangen.keep_pace
    keep_pace-Holds deadline w h =
        either_branch (λ (r : ℕ × World). Holds fds r) (ltb (now w).0 deadline)
          (sleep_nanos_keeps (deadline - (now w).0) (now w).1 ∙ (now_keeps w ∙ h))
          (either_branch (λ (r : ℕ × World). Holds fds r) (ltb 500_000_000 ((now w).0 - deadline))
            (now_keeps w ∙ h) (now_keeps w ∙ h))

    round-Holds :
        (pace : Cangen.Pace) (w : World)
        → open_fds w ≡ fds
        → Holds fds (Cangen.round k sleep_nanos socket args pace w)
    unfolding Cangen.round Cangen.burst Cangen.send_burst
    round-Holds pace w h = filled (Cangen.fill args args.batch pace.seq)
      where
        filled :
            (r : Result (List Frame × ℕ) Halt)
            → Holds fds (Cangen.burst k sleep_nanos socket args pace r w)
        filled (err e) = h
        filled (ok (frames, seq)) =
            then_do-Holds fds (Cangen.send_burst k sleep_nanos socket args frames w) _
              (either_branch (λ (r : Result ℕ Halt × World). Holds fds r) (args.batch == 1)
                (send_first-Holds frames w h)
                (attempt-Holds fds (send_batch k socket frames w) (send_batch-Holds frames w h)))
              (λ n w₁ h₁. keep_pace-Holds (pace.next_deadline + Cangen.burst_period args) w₁ h₁)

    rounds_of-Holds :
        (rounds : ℕ) (pace : Cangen.Pace) (w : World)
        → open_fds w ≡ fds
        → Holds fds (Cangen.rounds_of k sleep_nanos socket args rounds pace w)
    unfolding Cangen.rounds_of
    rounds_of-Holds zero pace w h = h
    rounds_of-Holds (suc rounds) pace w h =
        then_do-Holds fds (Cangen.round k sleep_nanos socket args pace w) _ (round-Holds pace w h)
          (λ pace' w₁ h₁. rounds_of-Holds rounds pace' w₁ h₁)

  cangen-Holds :
      (argv : List (List ℕ)) (rounds : ℕ) (w : World)
      → Holds (open_fds w) (Cangen.main k sleep_nanos argv rounds w)
  unfolding Cangen.main Cangen.run Cangen.generate drop_socket
  cangen-Holds argv rounds w = parsed (Cangen.parse_args argv)
    where
      on_socket :
          (args : Cangen.Args) (r : Result Socket IoError × World)
          → Opened k ledger w r
          → Holds (open_fds w) (
              then_do (attempt r) (λ socket w₁.
                closing k socket (Cangen.generate k sleep_nanos socket args rounds w₁)))
      on_socket args (err e, w₁) h = h
      on_socket args (ok socket, w₁) h =
          close_closes socket.fd (open_fds w) _
            (rounds_of-Holds socket args _ rounds _ (now w₁).1 (now_keeps w₁ ∙ h))

      parsed :
          (r : Result Cangen.Args Halt)
          → Holds (open_fds w) (elim r as (λ q. Result Cangen.Pace Halt × World) [
            | err e ↦ (err e, w)
            | ok args ↦ Cangen.run k sleep_nanos args rounds w
          ])
      parsed (err e) = refl
      parsed (ok args) =
          on_socket args (open_socket k args.iface Cangen.cangen_opts w)
            (open_socket-Opened k ledger args.iface Cangen.cangen_opts w)

  dump-Holds :
      (socket : Socket) (iface : List ℕ) (fds : List ℕ) (rounds : ℕ) (out : List (List ℕ))
      (count : ℕ) (w : World)
      → open_fds w ≡ fds
      → Holds fds (Candump.dump k socket iface rounds out count w)
  unfolding Candump.dump
  dump-Holds socket iface fds zero out count w h = h
  dump-Holds socket iface fds (suc rounds) out count w h =
      received (recv k socket w) ((channel-IsKept k ledger calls socket).recv_keeps w ∙ h)
        (λ out' count' w₁. dump-Holds socket iface fds rounds out' count' w₁)
    where
      received :
          (r : Result (Option Frame) IoError × World)
          → Holds fds r
          → ((out' : List (List ℕ)) (count' : ℕ) (w₁ : World)
              → open_fds w₁ ≡ fds
              → Holds fds (Candump.dump k socket iface rounds out' count' w₁))
          → Holds fds (Candump.on_recv k iface out count (Candump.dump k socket iface rounds) r)
      received (ok none, w₁) h₁ rest = rest out count w₁ h₁
      received (ok (some frame), w₁) h₁ rest = rest _ _ w₁ h₁
      received (err e, w₁) h₁ rest = h₁

  candump-Holds :
      (argv : List (List ℕ)) (rounds : ℕ) (w : World)
      → Holds (open_fds w) (Candump.main k argv rounds w)
  unfolding Candump.main Candump.dump_on drop_socket
  candump-Holds argv rounds w = parsed (Candump.parse_args argv)
    where
      on_socket :
          (args : Candump.Args) (r : Result Socket IoError × World)
          → Opened k ledger w r
          → Holds (open_fds w) (Candump.dump_on k args rounds r)
      on_socket args (err e, w₁) h = h
      on_socket args (ok socket, w₁) h =
          close_closes socket.fd (open_fds w) _ (dump-Holds socket args.iface _ rounds [] 0 w₁ h)

      parsed :
          (r : Result Candump.Args Halt)
          → Holds (open_fds w) (elim r as (λ q. Candump.Printed k) [
            | err e ↦ ((err e, []), w)
            | ok args ↦
                Candump.dump_on k args rounds
                  (open_socket k args.iface (Candump.dump_opts args.filter) w)
          ])
      parsed (err e) = refl
      parsed (ok args) =
          on_socket args (open_socket k args.iface (Candump.dump_opts args.filter) w)
            (open_socket-Opened k ledger args.iface (Candump.dump_opts args.filter) w)

  -- Over a kernel that opens and closes the descriptors that it says, cangen and candump have closed
  -- the socket that they open when they end, whatever their arguments are, however many rounds
  -- they make, and whether they end in order, by an error or by a panic.
  pub cangen-candump :
      (argv : List (List ℕ)) (rounds : ℕ) (w : World)
      → (open_fds (Cangen.main k sleep_nanos argv rounds w).1 ≡ open_fds w)
        × (open_fds (Candump.main k argv rounds w).1 ≡ open_fds w)
  cangen-candump argv rounds w = (cangen-Holds argv rounds w, candump-Holds argv rounds w)
