-- ===== src/Base/Text.antt =====
-- Numbers in text, as Rust's standard library reads and prints them. A text is the list of its bytes.
pub mod Laws
pub mod Decimal
pub mod Split
use Prim.Native.Char.{code}
use Prim.Native.String.{String}
use Prim.Native.Nat.{ℕ, zero, suc, ◌+◌, ◌-◌, ◌*◌, ◌/◌, ◌%◌, ◌^◌, ◌<◌, max}
use mathlib.Core.Path.{◌≡◌, refl, ap, ◌∙◌}
use mathlib.Core.Bool.{Bool, true, false, ◌&&◌, ◌||◌}
use mathlib.Core.Option.{Option, none, some, map as option_map}
use mathlib.Core.List.{List, [], ◌∷◌, ◌++◌}
use native.Mathlib.Nat.{pow-suc}
use native.Mathlib.Omega.{arith}
use mcanbus.Base.Tests.{ltb, leb, ◌==◌, if◌then◌else◌}

-- The bytes of an ASCII literal.
abbrev pub codes : String → List ℕ
codes String.[] = []
codes (String.◌∷◌ c s) = code c ∷ codes s

-- `char::to_digit` for a radix up to 16.
abbrev pub to_digit : ℕ → ℕ → Option ℕ
to_digit radix c =
    let d : ℕ =
      if leb b'0' c && leb c b'9'
      then c - b'0'
      else if leb b'a' c && leb c b'f'
      then c - b'a' + 10
      else if leb b'A' c && leb c b'F'
      then c - b'A' + 10
      else 16 in
    if ltb d radix then some d else none

-- One more digit, with the checks for an invalid digit and for an overflow of `w` bits.
abbrev pub push_digit : ℕ → ℕ → Option ℕ → ℕ → Option ℕ
push_digit radix w none c = none
push_digit radix w (some n) c = elim (to_digit radix c) [
  | none ↦ none
  | some d ↦ if ltb (n * radix + d) (2 ^ w) then some (n * radix + d) else none
]

unfoldable pub scan : ℕ → ℕ → Option ℕ → List ℕ → Option ℕ
scan radix w acc [] = acc
scan radix w acc (c ∷ s) = scan radix w (push_digit radix w acc c) s

-- `from_str_radix` of the unsigned type with `w` bits; a lone sign is no number.
unfoldable pub from_str_radix : ℕ → ℕ → List ℕ → Option ℕ
unfolding scan
from_str_radix radix w [] = none
from_str_radix radix w (c ∷ []) =
    if c == b'+' || c == b'-' then none else scan radix w (some 0) (c ∷ [])
from_str_radix radix w (c ∷ d ∷ s) =
    if c == b'+' then scan radix w (some 0) (d ∷ s) else scan radix w (some 0) (c ∷ d ∷ s)

-- `trim` of the white space that ASCII has, and `strip_prefix(p).unwrap_or(s)`.
abbrev pub is_white_space : ℕ → Bool
is_white_space c = leb 9 c && leb c 13 || c == 32

unfoldable pub trim_start : List ℕ → List ℕ
trim_start [] = []
trim_start (c ∷ s) = let rest = trim_start s in if is_white_space c then rest else c ∷ s

abbrev pub blank_or : ℕ → List ℕ → List ℕ
blank_or c [] = if is_white_space c then [] else c ∷ []
blank_or c (d ∷ s) = c ∷ d ∷ s

unfoldable pub trim_end : List ℕ → List ℕ
trim_end [] = []
trim_end (c ∷ s) = blank_or c (trim_end s)

unfoldable pub trim : List ℕ → List ℕ
unfolding trim_start trim_end
trim s = trim_end (trim_start s)

abbrev pub strip_0x : List ℕ → List ℕ
strip_0x (c ∷ d ∷ s) = if c == b'0' && d == b'x' then s else c ∷ d ∷ s
strip_0x s = s

-- `trim_start_matches` of the two bytes `a` and `b`.
unfoldable pub trim_pairs : ℕ → ℕ → List ℕ → List ℕ
trim_pairs a b [] = []
trim_pairs a b (c ∷ []) = c ∷ []
trim_pairs a b (c ∷ d ∷ s) =
    let trimmed = trim_pairs a b s in if c == a && d == b then trimmed else c ∷ d ∷ s

-- `split(',')`.
abbrev pub onto_first : ℕ → List (List ℕ) → List (List ℕ)
onto_first c [] = (c ∷ []) ∷ []
onto_first c (part ∷ parts) = (c ∷ part) ∷ parts

unfoldable pub split_commas : List ℕ → List (List ℕ)
split_commas [] = [] ∷ []
split_commas (c ∷ s) =
    let parts = split_commas s in if c == b',' then [] ∷ parts else onto_first c parts

-- `split_once(c)`.
unfoldable pub split_once : ℕ → List ℕ → Option (List ℕ × List ℕ)
split_once c [] = none
split_once c (d ∷ s) =
    if d == c then some ([], s) else option_map (λ (a, b). (d ∷ a, b)) (split_once c s)

-- Equality of texts, and their order by bytes.
unfoldable pub same_text : List ℕ → List ℕ → Bool
same_text [] [] = true
same_text (a ∷ s) (b ∷ t) = a == b && same_text s t
same_text _ _ = false

unfoldable pub text_le : List ℕ → List ℕ → Bool
text_le [] t = true
text_le (a ∷ s) [] = false
text_le (a ∷ s) (b ∷ t) =
    let rest = text_le s t in if ltb a b then true else if a == b then rest else false

-- A digit of `{:X}`, and the `k` lowest digits of a number.
abbrev pub upper_digit : ℕ → ℕ
upper_digit d = if ltb d 10 then b'0' + d else b'A' + (d - 10)

unfoldable pub hex_fixed : ℕ → ℕ → List ℕ
hex_fixed zero n = []
hex_fixed (suc k) n = hex_fixed k (n / 16) ++ upper_digit (n % 16) ∷ []

-- How many digits a `u32` has, 0 for 0.
unfoldable pub digit_count : ℕ → ℕ → ℕ
digit_count zero n = 0
digit_count (suc fuel) n = let more = digit_count fuel (n / 16) in if n == 0 then 0 else suc more

-- `{:0width$X}` of a `u32`.
unfoldable pub format_hex : ℕ → ℕ → List ℕ
unfolding hex_fixed digit_count
format_hex width n = hex_fixed (max (max width 1) (digit_count 8 n)) n

-- `{:02X}` of each of some bytes.
unfoldable pub hex_text : List ℕ → List ℕ
hex_text [] = []
hex_text (b ∷ bytes) = format_hex 2 b ++ hex_text bytes

pub scan-append :
    (radix w : ℕ) (acc : Option ℕ) (s t : List ℕ)
    → scan radix w acc (s ++ t) ≡ scan radix w (scan radix w acc s) t
unfolding scan
scan-append radix w acc [] t = refl
scan-append radix w acc (c ∷ s) t = scan-append radix w (push_digit radix w acc c) s t

to_digit-upper_digit : (d : ℕ) → d < 16 → to_digit 16 (upper_digit d) ≡ some d
to_digit-upper_digit d h = ground arith

push_digit-upper_digit :
    (w a d : ℕ)
    → d < 16
    → a * 16 + d < 2 ^ w
    → push_digit 16 w (some a) (upper_digit d) ≡ some (a * 16 + d)
push_digit-upper_digit w a d h fits = ground (arith, to_digit-upper_digit d h)

-- The digits of a number that they hold are read as that number.
pub scan-hex_fixed :
    (w k n : ℕ) → n < 16 ^ k → n < 2 ^ w → scan 16 w (some 0) (hex_fixed k n) ≡ some n
unfolding hex_fixed scan
scan-hex_fixed w zero n h fits = ap some (omega arith)
scan-hex_fixed w (suc k) n h fits =
    scan-append 16 w (some 0) (hex_fixed k (n / 16)) (upper_digit (n % 16) ∷ [])
    ∙ rw (scan-hex_fixed w k (n / 16) (omega (arith, pow-suc 16 k)) (omega arith)) (
        push_digit-upper_digit w (n / 16) (n % 16) (omega arith) (omega arith)
        ∙ ap some (omega arith))
