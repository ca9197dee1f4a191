-- ===== src/Base/Text/Decimal.antt =====
-- Decimal numbers in text: `{:0width$}` of Rust's standard library, and that `parse` reads it back.
use Prim.Native.Nat.{ℕ, zero, suc, ◌+◌, ◌*◌, ◌/◌, ◌%◌, ◌^◌, ◌≤◌, ◌<◌, max}
use mathlib.Core.Path.{◌≡◌, refl, ap, sym, ◌∙◌}
use mathlib.Core.Logic.{inl, inr}
use mathlib.Core.Option.{some}
use mathlib.Core.List.{List, [], ◌∷◌, ◌++◌}
use native.Mathlib.Nat.{pow-suc, pow-le-pow_right}
use native.Mathlib.Omega.{arith}
use mcanbus.Base.Lists.{All, All-append, length, length-append}
use mcanbus.Base.Tests.{◌==◌, if◌then◌else◌, ==_iff, Bool-cases}
use mcanbus.Base.Text.{push_digit, scan, from_str_radix, scan-append}

unfoldable pub dec_fixed : ℕ → ℕ → List ℕ
dec_fixed zero n = []
dec_fixed (suc k) n = dec_fixed k (n / 10) ++ (b'0' + n % 10) ∷ []

-- How many digits a number has, 0 for 0.
unfoldable pub dec_count : ℕ → ℕ → ℕ
dec_count zero n = 0
dec_count (suc fuel) n = let more = dec_count fuel (n / 10) in if n == 0 then 0 else suc more

-- `{:0width$}` of a `u64`, which has 20 digits at most.
unfoldable pub format_dec : ℕ → ℕ → List ℕ
unfolding dec_fixed dec_count
format_dec width n = dec_fixed (max (max width 1) (dec_count 20 n)) n

-- The digits, and no sign.
abbrev pub IsDigit : ℕ → Type 0
IsDigit c = (b'0' ≤ c) × (c ≤ b'9')

pub dec_fixed-IsDigit : (k n : ℕ) → All IsDigit (dec_fixed k n)
unfolding dec_fixed
dec_fixed-IsDigit zero n = tt
dec_fixed-IsDigit (suc k) n =
    let digit : IsDigit (b'0' + n % 10) = omega arith in
    All-append IsDigit (dec_fixed k (n / 10)) ((b'0' + n % 10) ∷ []) (dec_fixed-IsDigit k (n / 10))
      (digit, tt)

pub length-dec_fixed : (k n : ℕ) → length (dec_fixed k n) ≡ k
unfolding dec_fixed
length-dec_fixed zero n = refl
length-dec_fixed (suc k) n = omega (
  arith,
  length-append (dec_fixed k (n / 10)) ((b'0' + n % 10) ∷ []),
  length-dec_fixed k (n / 10),
)

push_digit-dec :
    (w a d : ℕ)
    → d < 10
    → a * 10 + d < 2 ^ w
    → push_digit 10 w (some a) (b'0' + d) ≡ some (a * 10 + d)
push_digit-dec w a d h fits = ground arith

-- The digits of a number that they hold are read as that number.
pub scan-dec_fixed :
    (w k n : ℕ) → n < 10 ^ k → n < 2 ^ w → scan 10 w (some 0) (dec_fixed k n) ≡ some n
unfolding dec_fixed scan
scan-dec_fixed w zero n h fits = ap some (omega arith)
scan-dec_fixed w (suc k) n h fits =
    scan-append 10 w (some 0) (dec_fixed k (n / 10)) ((b'0' + n % 10) ∷ [])
    ∙ rw (scan-dec_fixed w k (n / 10) (omega (arith, pow-suc 10 k)) (omega arith))
        (push_digit-dec w (n / 10) (n % 10) (omega arith) (omega arith) ∙ ap some (omega arith))

from_str_radix-digits :
    (w : ℕ) (s : List ℕ)
    → 0 < length s
    → All IsDigit s
    → from_str_radix 10 w s ≡ scan 10 w (some 0) s
unfolding from_str_radix
from_str_radix-digits w [] some_bytes digits = absurd (omega arith)
from_str_radix-digits w (c ∷ []) some_bytes digits = ground (arith, digits)
from_str_radix-digits w (c ∷ d ∷ s) some_bytes digits = ground (arith, digits)

lt-dec_count : (fuel n : ℕ) → n < 10 ^ fuel → n < 10 ^ dec_count fuel n
unfolding dec_count
lt-dec_count zero n h = h
lt-dec_count (suc fuel) n h = elim (Bool-cases (n == 0)) [
  | inl none_left ↦ rw none_left (omega (arith, (==_iff n 0).0 none_left))
  | inr left ↦ rw left (
      omega (
        arith,
        pow-suc 10 fuel,
        pow-suc 10 (dec_count fuel (n / 10)),
        lt-dec_count fuel (n / 10) (omega (arith, pow-suc 10 fuel)),
      ))
]

dec_count-le : (fuel k n : ℕ) → n < 10 ^ k → dec_count fuel n ≤ k
unfolding dec_count
dec_count-le zero k n h = omega arith
dec_count-le (suc fuel) zero n h = ground arith
dec_count-le (suc fuel) (suc k) n h = ground (arith, dec_count-le fuel k (n / 10), pow-suc 10 k)

pow_more : (n a b : ℕ) → n < 10 ^ a → a ≤ b → n < 10 ^ b
pow_more n a b h le =
    let raised : 10 ^ a ≤ 10 ^ b = pow-le-pow_right (omega arith) le in omega (arith, raised)

-- A `u64` is read back by `parse::<u64>`.
pub from_str_radix-format_dec :
    (width n : ℕ) → n < 2 ^ 64 → from_str_radix 10 64 (format_dec width n) ≡ some n
unfolding format_dec
from_str_radix-format_dec width n h =
    let k = max (max width 1) (dec_count 20 n) in
    let room = lt-dec_count 20 n (omega arith) in
    from_str_radix-digits 64 (dec_fixed k n) (omega (arith, length-dec_fixed k n))
      (dec_fixed-IsDigit k n)
    ∙ scan-dec_fixed 64 k n (pow_more n (dec_count 20 n) k room (omega arith)) h

-- A number that fits its width is printed with that many digits.
pub format_dec-fixed :
    (width n : ℕ) → 1 ≤ width → n < 10 ^ width → format_dec width n ≡ dec_fixed width n
unfolding format_dec
format_dec-fixed width n pos small =
    let exact : max (max width 1) (dec_count 20 n) ≡ width =
      omega (arith, dec_count-le 20 width n small) in
    ap (λ (k : ℕ). dec_fixed k n) exact

-- As many digits of two numbers that they hold tell them apart.
pub dec_fixed-injective :
    (k a b : ℕ)
    → a < 10 ^ k
    → b < 10 ^ k
    → a < 2 ^ 64
    → b < 2 ^ 64
    → dec_fixed k a ≡ dec_fixed k b
    → a ≡ b
dec_fixed-injective k a b h h' fits fits' same =
    let read : some a ≡ some b =
      sym (scan-dec_fixed 64 k a h fits)
      ∙ (ap (scan 10 64 (some 0)) same ∙ scan-dec_fixed 64 k b h' fits') in
    cc read
