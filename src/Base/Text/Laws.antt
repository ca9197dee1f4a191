-- ===== src/Base/Text/Laws.antt =====
-- What is printed in hexadecimal is read back.
use Prim.Native.Nat.{ℕ, zero, suc, ◌+◌, ◌*◌, ◌/◌, ◌%◌, ◌^◌, ◌≤◌, ◌<◌, max}
use mathlib.Core.Path.{◌≡◌, refl, ap, ◌∙◌}
use mathlib.Core.Logic.{inl, inr}
use mathlib.Core.Bool.{Bool, true, false, ◌&&◌}
use mathlib.Core.Option.{Option, none, some}
use mathlib.Core.List.{List, [], ◌∷◌}
use native.Mathlib.Nat.{pow-suc, pow-le-pow_right}
use native.Mathlib.Omega.{arith}
use mcanbus.Base.Lists.{All, All-append, length, length-append}
use mcanbus.Base.Tests.{ltb, ◌==◌, if◌then◌else◌, ==_iff, Bool-cases, either_branch, ltb→lt}
use mcanbus.Base.Text.{
  same_text, trim_pairs, to_digit, push_digit, scan, from_str_radix, upper_digit, hex_fixed,
  digit_count, format_hex, hex_text, scan-hex_fixed,
}

-- The bytes between `0` and `F`: the digits, and no sign.
abbrev pub IsPrinted : ℕ → Type 0
IsPrinted c = (b'0' ≤ c) × (c ≤ b'F')

pub hex_fixed-IsPrinted : (k n : ℕ) → All IsPrinted (hex_fixed k n)
unfolding hex_fixed
hex_fixed-IsPrinted zero n = tt
hex_fixed-IsPrinted (suc k) n =
    let digit : IsPrinted (upper_digit (n % 16)) = ground arith in
    All-append IsPrinted (hex_fixed k (n / 16)) (upper_digit (n % 16) ∷ [])
      (hex_fixed-IsPrinted k (n / 16)) (digit, tt)

pub length-hex_fixed : (k n : ℕ) → length (hex_fixed k n) ≡ k
unfolding hex_fixed
length-hex_fixed zero n = refl
length-hex_fixed (suc k) n = omega (
  arith,
  length-append (hex_fixed k (n / 16)) (upper_digit (n % 16) ∷ []),
  length-hex_fixed k (n / 16),
)

-- Nothing is trimmed off digits, for a second byte that is no digit.
pub trim_pairs-IsPrinted :
    (a b : ℕ) (s : List ℕ) → b'F' < b → All IsPrinted s → trim_pairs a b s ≡ s
unfolding trim_pairs
trim_pairs-IsPrinted a b [] above printed = refl
trim_pairs-IsPrinted a b (c ∷ []) above printed = refl
trim_pairs-IsPrinted a b (c ∷ d ∷ s) above printed = ground (arith, printed)

from_str_radix-scan :
    (w : ℕ) (s : List ℕ)
    → 0 < length s
    → All IsPrinted s
    → from_str_radix 16 w s ≡ scan 16 w (some 0) s
unfolding from_str_radix
from_str_radix-scan w [] some_bytes ok = absurd (omega arith)
from_str_radix-scan w (c ∷ []) some_bytes ok = ground (arith, ok)
from_str_radix-scan w (c ∷ d ∷ s) some_bytes ok = ground (arith, ok)

pow_more : (n a b : ℕ) → n < 16 ^ a → a ≤ b → n < 16 ^ b
pow_more n a b h le =
    let raised : 16 ^ a ≤ 16 ^ b = pow-le-pow_right (omega arith) le in omega (arith, raised)

lt-digit_count : (fuel n : ℕ) → n < 16 ^ fuel → n < 16 ^ digit_count fuel n
unfolding digit_count
lt-digit_count zero n h = h
lt-digit_count (suc fuel) n h = elim (Bool-cases (n == 0)) [
  | inl none_left ↦ rw none_left (omega (arith, (==_iff n 0).0 none_left))
  | inr left ↦ rw left (
      omega (
        arith,
        pow-suc 16 fuel,
        pow-suc 16 (digit_count fuel (n / 16)),
        lt-digit_count fuel (n / 16) (omega (arith, pow-suc 16 fuel)),
      ))
]

digit_count-le : (fuel k n : ℕ) → n < 16 ^ k → digit_count fuel n ≤ k
unfolding digit_count
digit_count-le zero k n h = omega arith
digit_count-le (suc fuel) zero n h = ground arith
digit_count-le (suc fuel) (suc k) n h = ground (arith, digit_count-le fuel k (n / 16), pow-suc 16 k)

pub from_str_radix-format_hex :
    (w width n : ℕ) → n < 2 ^ 32 → n < 2 ^ w → from_str_radix 16 w (format_hex width n) ≡ some n
unfolding format_hex
from_str_radix-format_hex w width n h fits =
    let k = max (max width 1) (digit_count 8 n) in
    let room = lt-digit_count 8 n (omega arith) in
    from_str_radix-scan w (hex_fixed k n) (omega (arith, length-hex_fixed k n))
      (hex_fixed-IsPrinted k n)
    ∙ scan-hex_fixed w k n (pow_more n (digit_count 8 n) k room (omega arith)) fits

pub format_hex-IsPrinted : (width n : ℕ) → All IsPrinted (format_hex width n)
unfolding format_hex
format_hex-IsPrinted width n = hex_fixed-IsPrinted (max (max width 1) (digit_count 8 n)) n

-- A byte has two digits.
pub format_hex-byte :
    (b : ℕ) → b < 256 → format_hex 2 b ≡ upper_digit (b / 16) ∷ upper_digit (b % 16) ∷ []
unfolding format_hex
format_hex-byte b h =
    let two : max (max 2 1) (digit_count 8 b) ≡ 2 =
      omega (arith, digit_count-le 8 2 b (omega arith)) in
    rw two (two_digits b h)
  where
    the_digit : (c : ℕ) → c < 256 → c / 16 % 16 ≡ c / 16
    the_digit c small = omega arith

    two_digits :
        (c : ℕ) → c < 256 → hex_fixed 2 c ≡ upper_digit (c / 16) ∷ upper_digit (c % 16) ∷ []
    two_digits c small = ap (λ d. upper_digit d ∷ upper_digit (c % 16) ∷ []) (the_digit c small)

pub hex_text-IsPrinted : (bytes : List ℕ) → All IsPrinted (hex_text bytes)
unfolding hex_text
hex_text-IsPrinted [] = tt
hex_text-IsPrinted (b ∷ bytes) =
    All-append IsPrinted (format_hex 2 b) (hex_text bytes) (format_hex-IsPrinted 2 b)
      (hex_text-IsPrinted bytes)

pub length-format_hex :
    (width n : ℕ) → 0 < width → width ≤ 8 → n < 16 ^ width → length (format_hex width n) ≡ width
unfolding format_hex
length-format_hex width n some_width most small = omega (
  arith,
  length-hex_fixed (max (max width 1) (digit_count 8 n)) n,
  digit_count-le 8 width n small,
)

pub format_hex-nibble : (n : ℕ) → n < 16 → format_hex 0 n ≡ upper_digit n ∷ []
unfolding format_hex
format_hex-nibble n h =
    let one : max (max 0 1) (digit_count 8 n) ≡ 1 =
      omega (arith, digit_count-le 8 1 n (omega arith)) in
    rw one (digit n h)
  where
    whole_digit : (c : ℕ) → c < 16 → c % 16 ≡ c
    whole_digit c small = omega arith

    digit : (c : ℕ) → c < 16 → hex_fixed 1 c ≡ upper_digit c ∷ []
    digit c small = ap (λ d. upper_digit d ∷ []) (whole_digit c small)

pub upper_digit-injective : (a b : ℕ) → a < 16 → b < 16 → upper_digit a ≡ upper_digit b → a ≡ b
upper_digit-injective a b h k e = ground (arith, e)

-- What is read fits.
abbrev Fits : ℕ → Option ℕ → Type 0
Fits w none = Unit {0}
Fits w (some n) = n < 2 ^ w

push_digit-Fits : (radix w : ℕ) (acc : Option ℕ) (c : ℕ) → Fits w (push_digit radix w acc c)
push_digit-Fits radix w none c = tt
push_digit-Fits radix w (some n) c = judged (to_digit radix c)
  where
    judged :
        (o : Option ℕ)
        → Fits w (elim o [
          | none ↦ none
          | some d ↦ if ltb (n * radix + d) (2 ^ w) then some (n * radix + d) else none
        ])
    judged none = tt
    judged (some d) = elim (Bool-cases (ltb (n * radix + d) (2 ^ w))) [
      | inl small ↦ rw small (ltb→lt (n * radix + d) (2 ^ w) small)
      | inr large ↦ rw large tt
    ]

scan-Fits : (radix w : ℕ) (acc : Option ℕ) (s : List ℕ) → Fits w acc → Fits w (scan radix w acc s)
unfolding scan
scan-Fits radix w acc [] h = h
scan-Fits radix w acc (c ∷ s) h =
    scan-Fits radix w (push_digit radix w acc c) s (push_digit-Fits radix w acc c)

power_pos : (w : ℕ) → 0 < 2 ^ w
power_pos zero = omega arith
power_pos (suc w) = omega (arith, pow-suc 2 w, power_pos w)

from_str_radix-Fits : (w : ℕ) (s : List ℕ) → Fits w (from_str_radix 16 w s)
unfolding from_str_radix
from_str_radix-Fits w [] = tt
from_str_radix-Fits w (c ∷ []) =
    either_branch (Fits w) _ {x = none} tt (scan-Fits 16 w (some 0) (c ∷ []) (power_pos w))
from_str_radix-Fits w (c ∷ d ∷ s) =
    either_branch (Fits w) _ (scan-Fits 16 w (some 0) (d ∷ s) (power_pos w))
      (scan-Fits 16 w (some 0) (c ∷ d ∷ s) (power_pos w))

pub from_str_radix-lt : (w : ℕ) (s : List ℕ) (n : ℕ) → from_str_radix 16 w s ≡ some n → n < 2 ^ w
from_str_radix-lt w s n e = judged (from_str_radix 16 w s) e (from_str_radix-Fits w s)
  where
    judged : (o : Option ℕ) → o ≡ some n → Fits w o → n < 2 ^ w
    judged none e fits = absurd (cc e)
    judged (some m) e fits = let same : m ≡ n = cc e in omega (arith, same, fits)

-- Texts that are equal by the test are the same.
pub same_text-≡ : (s t : List ℕ) → same_text s t ≡ true → s ≡ t
unfolding same_text
same_text-≡ [] [] h = refl
same_text-≡ [] (b ∷ t) h = absurd (cc h)
same_text-≡ (a ∷ s) [] h = absurd (cc h)
same_text-≡ (a ∷ s) (b ∷ t) h = both (a == b) refl h (λ later. same_text-≡ s t later)
  where
    both :
        (c : Bool)
        → (a == b) ≡ c
        → (c && same_text s t) ≡ true
        → (same_text s t ≡ true → s ≡ t)
        → a ∷ s ≡ b ∷ t
    both true e same rest =
        let head : a ≡ b = (==_iff a b).0 e in let tail = rest same in cc (head, tail)
    both false e same rest = absurd (cc same)
