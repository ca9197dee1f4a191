-- ===== src/Base/Bits.antt =====
-- `&` and `|` on numbers split into a high and a low field, at every width. The native operations
-- have no laws at variables but the recursion on binary digits that they stand for.
use Prim.Native.Nat.{
  ℕ, zero, suc, ◌+◌, ◌-◌, ◌*◌, ◌/◌, ◌%◌, ◌^◌, ◌≤◌, ◌<◌, min, max, bit_and, bit_or, digits, bitwise,
  bit_and-bitwise, bit_or-bitwise,
}
use mathlib.Core.Path.{◌≡◌, refl, ap, ◌∙◌}
use native.Mathlib.Nat.{pow-suc, one-le-pow, zero-add, suc-add}
use native.Mathlib.Omega.{arith}

-- Of the fuel of `digits` only the first number is needed.
module _ (z : ℕ → ℕ) (op : ℕ → ℕ → ℕ) where
  spare_fuel : (x y n k : ℕ) → x ≤ n → digits z op (n + k) x y ≡ digits z op n x y
  spare_fuel zero y zero zero le = refl
  spare_fuel zero y zero (suc k) le = rw zero-add refl
  spare_fuel zero y (suc n) k le = rw suc-add refl
  spare_fuel (suc x) y zero k le = absurd (omega arith)
  spare_fuel (suc x) y (suc n) k le =
      rw (suc-add, spare_fuel (suc x / 2) (y / 2) n k (omega arith)) refl

  lowest_digit :
      (x y : ℕ)
      → bitwise z op (suc x) y ≡ op (suc x % 2) (y % 2) + 2 * bitwise z op (suc x / 2) (y / 2)
  lowest_digit x y =
      let h = suc x / 2 in
      let cut : h + (x - h) ≡ x = omega arith in
      omega (
        arith,
        spare_fuel h (y / 2) h (x - h) (omega arith),
        ap (λ (n : ℕ). digits z op n h (y / 2)) cut,
      )

bit_and_step : (x y : ℕ) → bit_and x y ≡ min (x % 2) (y % 2) + 2 * bit_and (x / 2) (y / 2)
bit_and_step zero y = omega (arith, bit_and-bitwise 0 y, bit_and-bitwise 0 (y / 2))
bit_and_step (suc x) y = simp bit_and-bitwise (lowest_digit (λ rest. 0) min x y)

bit_or_step : (x y : ℕ) → bit_or x y ≡ max (x % 2) (y % 2) + 2 * bit_or (x / 2) (y / 2)
bit_or_step zero y = omega (arith, bit_or-bitwise 0 y, bit_or-bitwise 0 (y / 2))
bit_or_step (suc x) y = simp bit_or-bitwise (lowest_digit (λ rest. rest) max x y)

scaled_pow : (k q : ℕ) → 2 * (q * 2 ^ k) ≡ q * 2 ^ suc k
scaled_pow k q = omega (arith, ap (λ (power : ℕ). q * power) (pow-suc 2 k))

-- Halving a number with a field of `suc k` low bits halves the field.
half_fields :
    (k q r : ℕ) → ((q * 2 ^ suc k + r) / 2 ≡ q * 2 ^ k + r / 2) × ((q * 2 ^ suc k + r) % 2 ≡ r % 2)
half_fields k q r = omega (arith, scaled_pow k q)

half-lt : (k r : ℕ) → r < 2 ^ suc k → r / 2 < 2 ^ k
half-lt k r h = omega (arith, pow-suc 2 k)

-- Two fields side by side are combined field by field.
pub bit_and_fields :
    (k q r h m : ℕ)
    → r < 2 ^ k
    → m < 2 ^ k
    → bit_and (q * 2 ^ k + r) (h * 2 ^ k + m) ≡ bit_and q h * 2 ^ k + bit_and r m
bit_and_fields zero q r h m p s = ground (arith, bit_and-bitwise 0 0)
bit_and_fields (suc k) q r h m p s =
    bit_and_step (q * 2 ^ suc k + r) (h * 2 ^ suc k + m)
    ∙ rw
        (
          (half_fields k q r).0,
          (half_fields k q r).1,
          (half_fields k h m).0,
          (half_fields k h m).1,
          bit_and_fields k q (r / 2) h (m / 2) (half-lt k r p) (half-lt k m s),
        )
        (omega (arith, bit_and_step r m, scaled_pow k (bit_and q h)))

pub bit_or_fields :
    (k q r h m : ℕ)
    → r < 2 ^ k
    → m < 2 ^ k
    → bit_or (q * 2 ^ k + r) (h * 2 ^ k + m) ≡ bit_or q h * 2 ^ k + bit_or r m
bit_or_fields zero q r h m p s = ground (arith, bit_or-bitwise 0 0)
bit_or_fields (suc k) q r h m p s =
    bit_or_step (q * 2 ^ suc k + r) (h * 2 ^ suc k + m)
    ∙ rw
        (
          (half_fields k q r).0,
          (half_fields k q r).1,
          (half_fields k h m).0,
          (half_fields k h m).1,
          bit_or_fields k q (r / 2) h (m / 2) (half-lt k r p) (half-lt k m s),
        )
        (omega (arith, bit_or_step r m, scaled_pow k (bit_or q h)))

-- Zero on the right, for numbers up to a bound.
zero_right : (bound x : ℕ) → x ≤ bound → (bit_or x 0 ≡ x) × (bit_and x 0 ≡ 0)
zero_right bound zero le = (refl, refl)
zero_right zero (suc x) le = absurd (omega arith)
zero_right (suc bound) (suc x) le =
    let half = zero_right bound (suc x / 2) (omega arith) in
    (omega (arith, half.0, bit_or_step (suc x) 0), omega (arith, half.1, bit_and_step (suc x) 0))

pub bit_and-zero : (x : ℕ) → bit_and x 0 ≡ 0
bit_and-zero x = (zero_right x x (omega arith)).1

pub bit_or-zero : (x : ℕ) → bit_or x 0 ≡ x
bit_or-zero x = (zero_right x x (omega arith)).0

pub zero-bit_and : (a : ℕ) → bit_and 0 a ≡ 0
zero-bit_and a = bit_and-bitwise 0 a

pub zero-bit_or : (a : ℕ) → bit_or 0 a ≡ a
zero-bit_or a = bit_or-bitwise 0 a

bit_and_ones : (k r : ℕ) → r < 2 ^ k → bit_and r (2 ^ k - 1) ≡ r
bit_and_ones zero r h = ground (arith, bit_and-zero r)
bit_and_ones (suc k) r h = omega (
  arith,
  bit_and_step r (2 ^ suc k - 1),
  pow-suc 2 k,
  one-le-pow k 2,
  ap (bit_and (r / 2)) (halved),
  bit_and_ones k (r / 2) (half-lt k r h),
)
  where
    halved : (2 ^ suc k - 1) / 2 ≡ 2 ^ k - 1
    halved = omega (arith, pow-suc 2 k, one-le-pow k 2)

-- A mask of `k` low ones is the remainder by `2 ^ k`.
pub bit_and_mask : (k a : ℕ) → bit_and a (2 ^ k - 1) ≡ a % 2 ^ k
bit_and_mask k a = ground (
  arith,
  one-le-pow k 2,
  bit_and_fields k (a / 2 ^ k) (a % 2 ^ k) 0 (2 ^ k - 1),
  bit_and-zero (a / 2 ^ k),
  bit_and_ones k (a % 2 ^ k),
)

-- A mask above `k` low zeros reads the high field.
pub bit_and_shifted : (k a m : ℕ) → bit_and a (m * 2 ^ k) ≡ bit_and (a / 2 ^ k) m * 2 ^ k
bit_and_shifted k a m =
    ground (
      arith,
      one-le-pow k 2,
      bit_and_fields k (a / 2 ^ k) (a % 2 ^ k) m 0,
      bit_and-zero (a % 2 ^ k),
    )

-- One bit.
pub bit_and_bit : (k a : ℕ) → bit_and a (2 ^ k) ≡ a / 2 ^ k % 2 * 2 ^ k
bit_and_bit k a = ground (arith, bit_and_shifted k a 1, bit_and_mask 1 (a / 2 ^ k))

-- A low field beside a high one, in either order.
pub bit_or_high_low : (k q r : ℕ) → r < 2 ^ k → bit_or (q * 2 ^ k) r ≡ q * 2 ^ k + r
bit_or_high_low k q r h =
    ground (arith, one-le-pow k 2, bit_or_fields k q 0 0 r, bit_or-zero q, zero-bit_or r)

pub bit_or_low_high : (k q r : ℕ) → r < 2 ^ k → bit_or r (q * 2 ^ k) ≡ q * 2 ^ k + r
bit_or_low_high k q r h =
    ground (arith, one-le-pow k 2, bit_or_fields k 0 r q 0, zero-bit_or q, bit_or-zero r)
