-- ===== src/Iface/Attr/Fuel.antt =====
-- mcanbus/src/iface.rs, `nl_find_attr`: the number of rounds, for any bytes.
use mcanbus.Base.{
  ℕ, zero, suc, ◌+◌, ◌^◌, ◌<◌, ◌≤◌, ◌≡◌, refl, arith, List, [], ◌∷◌, ltb, lt→leb, ltb→le, length,
  take, drop, get_or, IsBytes, All-take, All-drop, Bool-cases, inl, inr,
}
use mcanbus.Frame.Wire.Bytes.{Endian, little, big, u16_from_ne_bytes}
use mcanbus.Iface.Attr.{nla_align, find_from, nl_find_attr}
use mcanbus.Iface.Attr.RoundTrip.{nla_align_lem}

get_or-lt : (b : List ℕ) (i : ℕ) → IsBytes b → get_or b i 0 < 256
get_or-lt [] i h = omega arith
get_or-lt (x ∷ b) zero h = h.0
get_or-lt (x ∷ b) (suc i) h = get_or-lt b i h.1

u16-lt : (e : Endian) (b : List ℕ) → IsBytes b → u16_from_ne_bytes e b < 2 ^ 16
unfolding u16_from_ne_bytes
u16-lt little b h = omega (arith, get_or-lt b 0 h, get_or-lt b 1 h)
u16-lt big b h = omega (arith, get_or-lt b 0 h, get_or-lt b 1 h)

module _ (e : Endian) (buf : List ℕ) (ty : ℕ) (bytes : IsBytes buf) where
  abbrev len_at : ℕ → ℕ
  len_at off = u16_from_ne_bytes e (take 2 (drop off buf))

  onward : (off : ℕ) → 4 ≤ len_at off → 4 ≤ nla_align (len_at off)
  onward off h = omega (
    arith,
    nla_align_lem (len_at off),
    u16-lt e (take 2 (drop off buf))
        (All-take (λ b. b < 256) 2 (drop off buf) (All-drop (λ b. b < 256) off buf bytes)),
  )

  -- Two numbers of rounds that are both enough from an offset on.
  find_from-eq :
      (f g off : ℕ)
      → length buf < off + f
      → length buf < off + g
      → find_from e buf ty f off ≡ find_from e buf ty g off
  unfolding find_from
  find_from-eq zero zero off p q = refl
  find_from-eq zero (suc g) off p q = rw (lt→leb (off + 4) (length buf) (omega arith)) refl
  find_from-eq (suc f) zero off p q = rw (lt→leb (off + 4) (length buf) (omega arith)) refl
  find_from-eq (suc f) (suc g) off p q = elim (Bool-cases (ltb (len_at off) 4)) [
    | inl short ↦ rw short refl
    | inr long ↦
        let moved = onward off (ltb→le (len_at off) 4 long) in
        rw (find_from-eq f g (off + nla_align (len_at off)) (omega arith) (omega arith)) refl
  ]

  -- Whatever the bytes of the buffer are, more rounds than there are bytes change nothing: the
  -- search has ended.
  pub find_from-nl_find_attr :
      (fuel : ℕ) → length buf < fuel → find_from e buf ty fuel 0 ≡ nl_find_attr e buf ty
  unfolding nl_find_attr
  find_from-nl_find_attr fuel enough =
      find_from-eq fuel (suc (length buf)) 0 (omega arith) (omega arith)
