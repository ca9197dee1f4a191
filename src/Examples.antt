-- ===== src/Examples.antt =====
-- examples: the command-line programs, how they end, and what they share. A text is the list of its
-- bytes; what goes to stderr is not kept. The handler of SIGINT does nothing but set `STOP`, so a
-- run of `while !STOP.load(…)` is told by its number of rounds.
pub mod Cangen
pub mod Candump
pub mod Multireader
pub mod ListInterfaces
pub mod CommandLines
pub mod Ledger
use mcanbus.Base.{ℕ, ◌+◌, Option, none, some, List, [], ◌∷◌}
use mcanbus.Base.Results.{Result, ok, err}
pub use mcanbus.Base.Text.{codes}
use mcanbus.Io.{IoError}
use mcanbus.Socket.Kernel.{Kernel}
use mcanbus.Socket.Open.{drop_socket}
use mcanbus.Socket.Transfer.{Socket}

-- How a program ends early: `process::exit`, a panic, or an error that `run` returns.
pub data Halt : Type 0 where
  exited : ℕ → Halt
  panicked : Halt
  failed : IoError → Halt

-- `usage()`.
abbrev pub usage : Halt
usage = exited 2

-- `unwrap_or_else(|| usage())`.
abbrev pub or_usage : {A : Type 0} → Option A → Result A Halt
or_usage none = err usage
or_usage (some a) = ok a

-- `unwrap_or_else(|e| { …; std::process::exit(2); })`.
abbrev pub or_exit : {A : Type 0} → Option A → Result A Halt
or_exit none = err (exited 2)
or_exit (some a) = ok a

-- The exit status: `ExitCode::SUCCESS`, `ExitCode::FAILURE`, and 101 after a panic.
abbrev pub exit_status : {A : Type 0} → Result A Halt → ℕ
exit_status (ok a) = 0
exit_status (err (exited status)) = status
exit_status (err panicked) = 101
exit_status (err (failed e)) = 1

abbrev pub Act : Type 0 → Type 0 → Type 0
Act W A = W → Result A Halt × W

module _ {W : Type 0} where
  abbrev pub then_do : {A B : Type 0} → Result A Halt × W → (A → Act W B) → Result B Halt × W
  then_do (ok a, w) f = f a w
  then_do (err e, w) f = (err e, w)

  -- `?` on an `io::Result`.
  abbrev pub attempt : {A : Type 0} → Result A IoError × W → Result A Halt × W
  attempt (ok a, w) = (ok a, w)
  attempt (err e, w) = (err (failed e), w)

-- The end of a socket's scope, by a return or by unwinding.
abbrev pub closing :
    (k : Kernel) {A : Type 0} → Socket → Result A Halt × k.World → Result A Halt × k.World
closing k socket (r, w) = (r, drop_socket k socket w)
