-- ===== src/Io.antt =====
-- `std::io::Result` with explicit passing of the world outside: an action takes the world and gives
-- its result and the next world. Of an `io::Error` the kind, or the number that the operating
-- system gave, is kept and the text of its message is not.
use mcanbus.Base.{ℕ}
use mcanbus.Base.Results.{Result, ok, err}
use mcanbus.Frame.Data.{FrameError, data_too_long}

pub data ErrorKind : Type 0 where
  invalid_input invalid_data timed_out unsupported write_zero other : ErrorKind

-- `out_of_fuel` is the model's own: a loop was given too few rounds.
pub data IoError : Type 0 where
  os : ℕ → IoError
  kind : ErrorKind → IoError
  out_of_fuel : IoError

-- `impl From<FrameError> for std::io::Error`.
unfoldable pub from_frame_error : FrameError → IoError
from_frame_error (data_too_long len max) = kind invalid_input

abbrev pub Io : Type 0 → Type 0 → Type 0
Io W A = W → Result A IoError × W

module _ {W : Type 0} where
  infixl 5 ◌>>=◌ ◌>>◌
  abbrev pub proceed : {A B : Type 0} → Result A IoError × W → (A → Io W B) → Result B IoError × W
  proceed (ok a, w) f = f a w
  proceed (err e, w) f = (err e, w)

  abbrev pub ◌>>=◌ : {A B : Type 0} → Io W A → (A → Io W B) → Io W B
  ◌>>=◌ m f w = proceed (m w) f

  abbrev pub ◌>>◌ : {B : Type 0} → Io W (Unit {0}) → Io W B → Io W B
  ◌>>◌ m k w = proceed (m w) (λ _. k)

  -- A result that is at hand: `Ok(a)`, `Err(e)`, and `r?`.
  abbrev pub pure : {A : Type 0} → A → Io W A
  pure a w = (ok a, w)

  abbrev pub throw : {A : Type 0} → IoError → Io W A
  throw e w = (err e, w)

  abbrev pub lift : {A : Type 0} → Result A IoError → Io W A
  lift r w = (r, w)
