-- ===== src/Channel.antt =====
-- What the transport needs of a socket and of the clock: an interface that mcanbus/src/isotp.rs uses
-- and that the socket fills (`Socket.Link`). The world is whatever lies outside the program.
pub mod Laws
use mcanbus.Base.{ℕ, List, Option, none, some, Bool, true, false, ◌==◌}
use mcanbus.Io.{Io}
use mcanbus.Frame.Id.{CanId, standard, extended}
use mcanbus.Frame.Data.{Frame}

-- `now` is `Instant::now()` in nanoseconds, `sleep` is `thread::sleep` in milliseconds, `send` and
-- `recv` are the methods of `Socket`.
pub record Channel : Type 1 where
  pub World : Type 0
  pub now : World → ℕ × World
  pub sleep : ℕ → World → World
  pub send : Frame → Io World (Unit {0})
  pub recv : Io World (Option Frame)
