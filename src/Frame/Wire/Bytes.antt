-- ===== src/Frame/Wire/Bytes.antt =====
-- `from_ne_bytes` and the bytes in memory of a `u32` and a `u16`, for both byte orders: what
-- mcanbus/src/frame.rs and mcanbus/src/iface.rs read and write.
use mcanbus.Base.{ℕ, ◌+◌, ◌*◌, ◌/◌, ◌%◌, ◌^◌, ◌<◌, ◌≡◌, refl, List, [], ◌∷◌, arith, length, get_or}

pub data Endian : Type 0 where
  little big : Endian

unfoldable pub u32_to_ne_bytes : Endian → ℕ → List ℕ
u32_to_ne_bytes little n = n % 256 ∷ n / 256 % 256 ∷ n / 65536 % 256 ∷ n / 16777216 % 256 ∷ []
u32_to_ne_bytes big n = n / 16777216 % 256 ∷ n / 65536 % 256 ∷ n / 256 % 256 ∷ n % 256 ∷ []

unfoldable pub u32_from_ne_bytes : Endian → List ℕ → ℕ
u32_from_ne_bytes little b =
    get_or b 0 0 + 256 * get_or b 1 0 + 65536 * get_or b 2 0 + 16777216 * get_or b 3 0
u32_from_ne_bytes big b =
    get_or b 3 0 + 256 * get_or b 2 0 + 65536 * get_or b 1 0 + 16777216 * get_or b 0 0

pub from_ne_bytes-to_ne_bytes :
    (e : Endian) (n : ℕ) → n < 2 ^ 32 → u32_from_ne_bytes e (u32_to_ne_bytes e n) ≡ n
unfolding u32_to_ne_bytes u32_from_ne_bytes
from_ne_bytes-to_ne_bytes little n h = omega arith
from_ne_bytes-to_ne_bytes big n h = omega arith

pub length-to_ne_bytes : (e : Endian) (n : ℕ) → length (u32_to_ne_bytes e n) ≡ 4
unfolding u32_to_ne_bytes
length-to_ne_bytes little n = refl
length-to_ne_bytes big n = refl

unfoldable pub u16_to_ne_bytes : Endian → ℕ → List ℕ
u16_to_ne_bytes little n = n % 256 ∷ n / 256 % 256 ∷ []
u16_to_ne_bytes big n = n / 256 % 256 ∷ n % 256 ∷ []

unfoldable pub u16_from_ne_bytes : Endian → List ℕ → ℕ
u16_from_ne_bytes little b = get_or b 0 0 + 256 * get_or b 1 0
u16_from_ne_bytes big b = get_or b 1 0 + 256 * get_or b 0 0
