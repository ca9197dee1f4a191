-- ===== src/Iface/Attr/RoundTrip.antt =====
-- mcanbus/src/iface.rs: attributes as the kernel lays them out, and the search through them.
use mcanbus.Base.{
  ℕ, zero, suc, ◌+◌, ◌-◌, ◌*◌, ◌/◌, ◌%◌, ◌^◌, ◌<◌, ◌≡◌, refl, sym, ap, ◌∙◌, bit_and, arith, Option,
  none, some, List, [], ◌∷◌, ◌++◌, le→ltb, le→leb, ◌==◌, if◌then◌else◌, length, take, drop,
  replicate, length-append, length-replicate, drop-drop, drop-append_length, take-append_length,
  bit_and_mask, bit_and_shifted, All,
}
use mathlib.Core.List.{append_assoc}
use mcanbus.Frame.Wire.Bytes.{Endian, little, big, u16_from_ne_bytes, u16_to_ne_bytes}
use mcanbus.Iface.Attr.{nla_align, nla_type_mask, find_from, nl_find_attr}

pub nla_align_lem : (n : ℕ) → n < 2 ^ 32 → nla_align n ≡ (n + 3) / 4 * 4
unfolding nla_align
nla_align_lem n h =
    omega (arith, bit_and_shifted 2 (n + 3) (2 ^ 62 - 1), bit_and_mask 62 ((n + 3) / 2 ^ 2))

-- One attribute of a message: its type, with the two flag bits, and its payload.
pub record Attr : Type 0 where
  pub nla_type : ℕ
  pub payload : List ℕ

abbrev pub nla_len_of : Attr → ℕ
nla_len_of a = 4 + length a.payload

-- An attribute fits when its length and its type are numbers of 16 bits.
abbrev pub IsAttr : Attr → Type 0
IsAttr a = (nla_len_of a < 2 ^ 16) × (a.nla_type < 2 ^ 16)

-- How the kernel writes attributes: length, type, payload, and zeros up to a multiple of four.
unfoldable pub encode : Endian → List Attr → List ℕ
encode e [] = []
encode e (a ∷ attrs) =
    u16_to_ne_bytes e (nla_len_of a)
    ++ (u16_to_ne_bytes e a.nla_type
        ++ (a.payload
            ++ (replicate ((nla_len_of a + 3) / 4 * 4 - nla_len_of a) 0 ++ encode e attrs)))

-- The first attribute of a type.
abbrev pub lookup : ℕ → List Attr → Option (List ℕ)
lookup ty [] = none
lookup ty (a ∷ attrs) =
    let later = lookup ty attrs in if a.nla_type % 2 ^ 14 == ty then some a.payload else later

module _ (e : Endian) (a : Attr) (ok : IsAttr a) (attrs : List Attr) where
  abbrev pad : List ℕ
  pad = replicate ((nla_len_of a + 3) / 4 * 4 - nla_len_of a) 0

  abbrev text : List ℕ
  text = encode e (a ∷ attrs)

  reads_len : u16_from_ne_bytes e (take 2 text) ≡ nla_len_of a
  unfolding u16_from_ne_bytes u16_to_ne_bytes encode
  reads_len =
      elim e as (λ e'. u16_from_ne_bytes e' (take 2 (encode e' (a ∷ attrs))) ≡ nla_len_of a) [
        | little ↦ omega arith
        | big ↦ omega arith
      ]

  reads_type : u16_from_ne_bytes e (take 2 (drop 2 text)) ≡ a.nla_type
  unfolding u16_from_ne_bytes u16_to_ne_bytes encode
  reads_type =
      elim e
        as (λ e'. u16_from_ne_bytes e' (take 2 (drop 2 (encode e' (a ∷ attrs)))) ≡ a.nla_type) [
          | little ↦ omega arith
          | big ↦ omega arith
        ]

  behind_header : drop 4 text ≡ a.payload ++ (pad ++ encode e attrs)
  unfolding u16_to_ne_bytes encode
  behind_header =
      elim e as (λ e'. drop 4 (encode e' (a ∷ attrs)) ≡ a.payload ++ (pad ++ encode e' attrs)) [
        | little ↦ refl
        | big ↦ refl
      ]

  reads_payload : take (nla_len_of a - 4) (drop 4 text) ≡ a.payload
  reads_payload = rw behind_header (take-append_length (nla_len_of a - 4) a.payload _ (omega arith))

  width : length (a.payload ++ pad) ≡ (nla_len_of a + 3) / 4 * 4 - 4
  width = omega (
    arith,
    length-append a.payload pad,
    length-replicate {A = ℕ} ((nla_len_of a + 3) / 4 * 4 - nla_len_of a) 0,
  )

  reads_rest : drop ((nla_len_of a + 3) / 4 * 4) text ≡ encode e attrs
  reads_rest =
      ap (λ (n : ℕ). drop n text) (omega arith)
      ∙ sym (drop-drop ((nla_len_of a + 3) / 4 * 4 - 4) 4 text)
      ∙ ap (drop ((nla_len_of a + 3) / 4 * 4 - 4))
          (behind_header ∙ sym (append_assoc a.payload pad (encode e attrs)))
      ∙ drop-append_length _ (a.payload ++ pad) (encode e attrs) width

  length-text : length text ≡ (nla_len_of a + 3) / 4 * 4 + length (encode e attrs)
  unfolding u16_to_ne_bytes encode
  length-text =
      elim e
        as (λ e'.
          length (encode e' (a ∷ attrs)) ≡ (nla_len_of a + 3) / 4 * 4 + length (encode e' attrs)) [
            | little ↦ omega (
              arith,
              width,
              length-append a.payload (pad ++ encode little attrs),
              length-append pad (encode little attrs),
              length-append a.payload pad,
            )
            | big ↦ omega (
              arith,
              width,
              length-append a.payload (pad ++ encode big attrs),
              length-append pad (encode big attrs),
              length-append a.payload pad,
            )
          ]

length_none : (e : Endian) → length (encode e []) ≡ 0
unfolding encode
length_none e = refl

type_mask_lem : (t : ℕ) → bit_and t nla_type_mask ≡ t % 2 ^ 14
type_mask_lem t = bit_and_mask 14 t

module _ (e : Endian) (buf : List ℕ) (ty : ℕ) where
  -- The search at an offset behind which attributes stand.
  find_from-encode :
      (fuel off : ℕ) (attrs : List Attr)
      → All IsAttr attrs
      → drop off buf ≡ encode e attrs
      → length buf ≡ off + length (encode e attrs)
      → length (encode e attrs) < fuel
      → find_from e buf ty fuel off ≡ lookup ty attrs
  unfolding find_from
  find_from-encode zero off attrs ok here all enough = absurd (omega arith)
  find_from-encode (suc fuel) off [] ok here all enough = ground (arith, all, length_none e)
  find_from-encode (suc fuel) off (a ∷ attrs) (fits, ok) here all enough =
      let total = length-text e a fits attrs in
      let aligned = (nla_len_of a + 3) / 4 * 4 in
      rw
        (
          ← drop-drop 2 off buf,
          ← drop-drop 4 off buf,
          here,
          reads_len e a fits attrs,
          reads_type e a fits attrs,
          reads_payload e a fits attrs,
          type_mask_lem a.nla_type,
          nla_align_lem (nla_len_of a) (omega arith),
          le→leb (off + 4) (length buf) (omega (arith, all, total)),
          le→ltb (nla_len_of a) 4 (omega arith),
          le→ltb (length buf) (off + nla_len_of a) (omega (arith, all, total)),
          find_from-encode fuel (off + aligned) attrs ok
              (sym (drop-drop aligned off buf) ∙ ap (drop aligned) here ∙ reads_rest e a fits attrs)
              (omega (arith, all, total)) (omega (arith, total)),
        )
        refl

-- Searching the attributes that the kernel writes finds the payload of the first one of the type,
-- its flag bits aside, or nothing if there is none.
pub nl_find_attr-encode :
    (e : Endian) (attrs : List Attr) (ty : ℕ)
    → All IsAttr attrs
    → nl_find_attr e (encode e attrs) ty ≡ lookup ty attrs
unfolding nl_find_attr
nl_find_attr-encode e attrs ty ok =
    find_from-encode e (encode e attrs) ty (suc (length (encode e attrs))) 0 attrs ok refl
      (omega arith) (omega arith)
