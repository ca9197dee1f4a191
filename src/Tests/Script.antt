-- ===== src/Tests/Script.antt =====
-- A channel that plays a script: the frames still to arrive, those that were sent, and a clock that
-- each call moves on by one.
use mcanbus.Base.{ℕ, ◌+◌, Option, none, List, [], ◌∷◌, ◌++◌, ◌≡◌, refl, arith}
use mcanbus.Base.Results.{Result, ok}
use mcanbus.Io.{IoError}
use mcanbus.Channel.{Channel}
use mcanbus.Channel.Laws.{IsTimed, Ended, ok-Ended}
use mcanbus.Frame.Data.{Frame}

pub record Script : Type 0 where
  pub clock : ℕ
  pub inbox : List (Option Frame)
  pub sent : List Frame

abbrev pub receive : List (Option Frame) → Script → Result (Option Frame) IoError × Script
receive [] s = (ok none, record s { clock = s.clock + 1 })
receive (got ∷ later) s = (ok got, record s { clock = s.clock + 1; inbox = later })

abbrev pub scripted : Channel
scripted = record {
  World = Script;
  now = λ s. (s.clock, s);
  sleep = λ ms s. s;
  send = λ f s. (ok tt, record s { sent = s.sent ++ f ∷ [] });
  recv = λ s. receive s.inbox s;
}

pub receive_passes :
    (inbox : List (Option Frame)) (s : Script) → s.clock + 1 ≡ (receive inbox s).1.clock
receive_passes [] s = refl
receive_passes (got ∷ later) s = refl

pub receive_ends : (inbox : List (Option Frame)) (s : Script) → Ended (receive inbox s).0
receive_ends [] s = ok-Ended none
receive_ends (got ∷ later) s = ok-Ended got

abbrev pub scripted-IsTimed : IsTimed scripted
scripted-IsTimed = record {
  time = λ s. s.clock;
  now_reads = λ s. omega arith;
  now_passes = λ s. omega arith;
  sleep_passes = λ ms s. omega arith;
  send_passes = λ f s. omega arith;
  recv_passes = λ s. omega (arith, receive_passes s.inbox s);
  send_ends = λ f s. ok-Ended tt;
  recv_ends = λ s. receive_ends s.inbox s;
}
