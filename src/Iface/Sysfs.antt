-- ===== src/Iface/Sysfs.antt =====
-- mcanbus/src/iface.rs: what is read from `/sys/class/net`. The file system is a parameter.
pub mod CanType
pub mod Laws
use mcanbus.Base.{
  ℕ, ◌%◌, bit_and, Bool, true, false, Option, none, some, List, [], ◌∷◌, ◌++◌, ◌!=◌, if◌then◌else◌,
}
use mcanbus.Base.Results.{Result, ok, err}
use mcanbus.Base.Text.{trim, strip_0x, from_str_radix, same_text, text_le}
use mcanbus.Io.{Io, IoError, kind, invalid_data}

-- How a call fails: with `ErrorKind::NotFound`, or otherwise.
pub data FileError : Type 0 where
  not_found : FileError
  failed : IoError → FileError

-- A directory is read entry by entry; a name that is no UTF-8 is `none`.
pub record Files (W : Type 0) : Type 0 where
  pub read_to_string : List ℕ → W → Result (List ℕ) FileError × W
  pub read_dir : List ℕ → W → Result (List (Result (Option (List ℕ)) IoError)) FileError × W
  pub exists : List ℕ → W → Bool × W

abbrev pub class_net : List ℕ
class_net =
    b'/' ∷ b's' ∷ b'y' ∷ b's' ∷ b'/' ∷ b'c' ∷ b'l' ∷ b'a' ∷ b's' ∷ b's' ∷ b'/' ∷ b'n' ∷ b'e' ∷ b't'
    ∷ []

abbrev pub flags_path : List ℕ → List ℕ
flags_path name = class_net ++ (b'/' ∷ name ++ (b'/' ∷ b'f' ∷ b'l' ∷ b'a' ∷ b'g' ∷ b's' ∷ []))

abbrev pub type_path : List ℕ → List ℕ
type_path name = class_net ++ (b'/' ∷ name ++ (b'/' ∷ b't' ∷ b'y' ∷ b'p' ∷ b'e' ∷ []))

abbrev pub arphrd_can : List ℕ
arphrd_can = b'2' ∷ b'8' ∷ b'0' ∷ []

-- `Ok(Some(flags & 1 != 0))`, or the error of the number.
abbrev pub parsed_flags : Option ℕ → Result (Option Bool) IoError
parsed_flags none = err (kind invalid_data)
parsed_flags (some flags) = ok (some (bit_and flags 1 != 0))

unfoldable pub up_of : Result (List ℕ) FileError → Result (Option Bool) IoError
up_of (ok s) = parsed_flags (from_str_radix 16 32 (strip_0x (trim s)))
up_of (err not_found) = ok none
up_of (err (failed e)) = err e

-- `kind.trim() == ARPHRD_CAN`, of the empty text when the file cannot be read.
unfoldable pub is_can_type : Result (List ℕ) FileError → Bool
is_can_type (ok s) = same_text (trim s) arphrd_can
is_can_type (err e) = same_text (trim []) arphrd_can

-- `out.sort_by(|a, b| a.name.cmp(&b.name))`. Texts that are equal cannot be told apart, so any sort
-- does what the stable one does.
unfoldable pub insert : List ℕ → List (List ℕ) → List (List ℕ)
insert name [] = name ∷ []
insert name (other ∷ names) =
    let later = insert name names in
    if text_le name other then name ∷ other ∷ names else other ∷ later

unfoldable pub sort : List (List ℕ) → List (List ℕ)
sort [] = []
sort (name ∷ names) = insert name (sort names)

module _ {W : Type 0} (files : Files W) where
  open files use {read_to_string, read_dir, exists}

  -- `Interface::is_up`.
  unfoldable pub is_up : List ℕ → Io W (Option Bool)
  unfolding up_of
  is_up name w = let (r, w₁) = read_to_string (flags_path name) w in (up_of r, w₁)

  -- Whether the device of a name is listed.
  unfoldable pub is_can_device : List ℕ → W → Bool × W
  is_can_device name w =
      let (there, w₁) = exists (type_path name) w in
      let (text, w₂) = read_to_string (type_path name) w₁ in
      if there then (is_can_type text, w₂) else (false, w₁)

  -- The loop over the entries, with the names so far in `out`.
  unfoldable pub collect_devices :
      List (Result (Option (List ℕ)) IoError) → List (List ℕ) → Io W (List (List ℕ))
  collect_devices [] out w = (ok out, w)
  collect_devices (err e ∷ dir) out w = (err e, w)
  collect_devices (ok none ∷ dir) out w = collect_devices dir out w
  collect_devices (ok (some name) ∷ dir) out w =
      let (listed, w₁) = is_can_device name w in
      collect_devices dir (if listed then out ++ name ∷ [] else out) w₁

  abbrev pub sorted : Result (List (List ℕ)) IoError × W → Result (List (List ℕ)) IoError × W
  sorted (ok out, w) = (ok (sort out), w)
  sorted (err e, w) = (err e, w)

  abbrev pub listed_dir :
      Result (List (Result (Option (List ℕ)) IoError)) FileError × W
      → Result (List (List ℕ)) IoError × W
  listed_dir (ok dir, w) = sorted (collect_devices dir [] w)
  listed_dir (err not_found, w) = (ok [], w)
  listed_dir (err (failed e), w) = (err e, w)

  unfoldable pub list_can_interfaces : Io W (List (List ℕ))
  list_can_interfaces w = listed_dir (read_dir class_net w)
