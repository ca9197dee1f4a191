-- ===== src/Channel/Laws.antt =====
-- What a client may rely on: time passes.
use mcanbus.Base.{ℕ, ◌≤◌, ◌<◌, ◌≡◌}
use mcanbus.Base.Results.{Result, ok, err}
use mcanbus.Io.{IoError, ErrorKind, kind, out_of_fuel}
use mcanbus.Channel.{Channel}
use mcanbus.Frame.Data.{Frame}

-- A result that is not the model's own `out_of_fuel`.
abbrev pub Ended : {A : Type 0} → Result A IoError → Type 0
Ended r = ¬ (r ≡ err out_of_fuel)

pub ok-Ended : {A : Type 0} (a : A) → Ended (ok a)
ok-Ended a e = cc e

pub kind-Ended : {A : Type 0} (k : ErrorKind) → Ended {A = A} (err (kind k))
kind-Ended k e = cc e

-- The clock never runs back, each `recv` takes time, and the calls themselves use no fuel.
pub record IsTimed (ch : Channel) : Type 0 where
  pub time : ch.World → ℕ
  pub now_reads : (w : ch.World) → time w ≤ (ch.now w).0
  pub now_passes : (w : ch.World) → (ch.now w).0 ≤ time (ch.now w).1
  pub sleep_passes : (ms : ℕ) (w : ch.World) → time w ≤ time (ch.sleep ms w)
  pub send_passes : (f : Frame) (w : ch.World) → time w ≤ time (ch.send f w).1
  pub recv_passes : (w : ch.World) → time w < time (ch.recv w).1
  pub send_ends : (f : Frame) (w : ch.World) → Ended (ch.send f w).0
  pub recv_ends : (w : ch.World) → Ended (ch.recv w).0
