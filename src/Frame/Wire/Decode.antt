-- ===== src/Frame/Wire/Decode.antt =====
-- mcanbus/src/frame.rs: decoding in terms of the layout of a buffer: a header of eight bytes and the rest.
use mcanbus.Base.{
  ℕ, ◌+◌, ◌-◌, ◌/◌, ◌%◌, ◌^◌, ◌<◌, ◌≤◌, min, ◌≡◌, refl, ap, ◌∙◌, Option, none, some, List, ◌∷◌,
  ◌++◌, arith, lt→ltb, map-if, le→ltb, ◌==◌, ◌!=◌, if◌then◌else◌, length, take, drop, replicate,
  overwrite, get_or, length-append, take-append_length,
}
use mcanbus.Consts.{can_frame_size, canfd_frame_size}
use mcanbus.Frame.Id.{from_wire}
use mcanbus.Frame.Id.Masks.{eff_mask_lem, rtr_flag_test, err_flag_test}
use mcanbus.Frame.Data.{
  Frame, FrameKind, fd, classic, flags_from_wire, max_data_len, max_fd_data_len,
}
use mcanbus.Frame.Wire.{
  DecodedFrame, data_frame, rtr, error, decode_wire, decode_error, decode_data, decode_id,
}
use mcanbus.Frame.Wire.Bytes.{
  length-to_ne_bytes, Endian, little, big, u32_to_ne_bytes, u32_from_ne_bytes,
  from_ne_bytes-to_ne_bytes,
}

-- A buffer that holds the word `c`, the bytes `len` and `flags`, two more and `rest`.
abbrev pub layout : Endian → ℕ → ℕ → ℕ → ℕ → ℕ → List ℕ → List ℕ
layout e c len flags r₀ r₁ rest = u32_to_ne_bytes e c ++ len ∷ flags ∷ r₀ ∷ r₁ ∷ rest

-- The first `n` bytes of `rest` in a zeroed array of `size` bytes.
abbrev pub padded : ℕ → ℕ → List ℕ → List ℕ
padded size n rest = overwrite 0 (take n rest) (replicate size 0)

-- The payload length that a classic or FD buffer can carry.
abbrev pub carried : ℕ → List ℕ → ℕ
carried len rest =
    min (min len (if length rest == 64 then max_fd_data_len else max_data_len)) (length rest)

abbrev pub kind_of : ℕ → List ℕ → FrameKind
kind_of flags rest = if length rest == 64 then fd (flags_from_wire flags) else classic

abbrev pub data_of : ℕ → ℕ → ℕ → List ℕ → Option ℕ → Frame
data_of c len flags rest timestamp_ns = record {
  id = from_wire c;
  kind = kind_of flags rest;
  len = carried len rest;
  data_buf = padded 64 (carried len rest) rest;
  timestamp_ns = timestamp_ns;
}

abbrev pub error_of : ℕ → ℕ → List ℕ → DecodedFrame
error_of c len rest =
    let n = min (min len 8) (length rest) in error (c % 2 ^ 29) (padded 8 n rest) n

decode_id-from_wire : (c : ℕ) → decode_id c ≡ from_wire c
unfolding decode_id from_wire
decode_id-from_wire c = refl

module _ (e : Endian) (c len flags r₀ r₁ : ℕ) (rest : List ℕ) where
  abbrev buf : List ℕ
  buf = layout e c len flags r₀ r₁ rest

  length-layout : length buf ≡ 8 + length rest
  length-layout = omega (
    arith,
    length-append (u32_to_ne_bytes e c) (len ∷ flags ∷ r₀ ∷ r₁ ∷ rest),
    length-to_ne_bytes e c,
  )

  length-rest : length buf - 8 ≡ length rest
  length-rest = omega (arith, length-layout)

  is_fd-rest : (length buf == canfd_frame_size) ≡ (length rest == 64)
  is_fd-rest = ground (arith, length-layout)

  drop-layout : drop 8 buf ≡ rest
  unfolding u32_to_ne_bytes
  drop-layout = elim e as (λ e'. drop 8 (layout e' c len flags r₀ r₁ rest) ≡ rest) [
    | little ↦ refl
    | big ↦ refl
  ]

  word-layout : c < 2 ^ 32 → u32_from_ne_bytes e (take 4 buf) ≡ c
  word-layout h =
      rw (take-append_length 4 (u32_to_ne_bytes e c) _ (length-to_ne_bytes e c))
        (from_ne_bytes-to_ne_bytes e c h)

  fields_layout : (get_or buf 4 0 ≡ len) × (get_or buf 5 0 ≡ flags)
  unfolding u32_to_ne_bytes
  fields_layout =
      elim e
        as (λ e'.
          (get_or (layout e' c len flags r₀ r₁ rest) 4 0 ≡ len)
          × (get_or (layout e' c len flags r₀ r₁ rest) 5 0 ≡ flags)) [
            | little ↦ (refl, refl)
            | big ↦ (refl, refl)
          ]

  decode_error_lem : decode_error buf c len ≡ error_of c len rest
  unfolding decode_error
  decode_error_lem = rw (length-rest, drop-layout, eff_mask_lem c, cut) refl
    where
      cut : min (min len 8) (length rest) % 2 ^ 8 ≡ min (min len 8) (length rest)
      cut = omega arith

  decode_data_lem :
      (ts : Option ℕ) → decode_data buf (decode_id c) len flags ts ≡ data_of c len flags rest ts
  unfolding decode_data
  decode_data_lem ts = rw (length-rest, is_fd-rest, drop-layout, decode_id-from_wire c, cut) refl
    where
      cut : carried len rest % 2 ^ 8 ≡ carried len rest
      cut = ground arith

pub decode_wire-layout :
    (e : Endian) (c len flags r₀ r₁ : ℕ) (rest : List ℕ) (timestamp_ns : Option ℕ)
    → c < 2 ^ 32
    → 8 ≤ length rest
    → decode_wire e (layout e c len flags r₀ r₁ rest) timestamp_ns
      ≡ some (
          if c / 2 ^ 29 % 2 != 0
          then error_of c len rest
          else if c / 2 ^ 30 % 2 != 0
          then rtr (from_wire c) len
          else data_frame (data_of c len flags rest timestamp_ns))
unfolding decode_wire
decode_wire-layout e c len flags r₀ r₁ rest ts h k =
    rw
      (
        word-layout e c len flags r₀ r₁ rest h,
        (fields_layout e c len flags r₀ r₁ rest).0,
        (fields_layout e c len flags r₀ r₁ rest).1,
        decode_error_lem e c len flags r₀ r₁ rest,
        decode_data_lem e c len flags r₀ r₁ rest ts,
        decode_id-from_wire c,
        le→ltb (length (layout e c len flags r₀ r₁ rest)) can_frame_size long_enough,
        err_flag_test c,
        rtr_flag_test c,
      )
      (ap
          (λ (t : Option DecodedFrame).
            if c / 2 ^ 29 % 2 != 0 then some (error_of c len rest) else t)
          (map-if some (c / 2 ^ 30 % 2 != 0) (rtr (from_wire c) len)
            (data_frame (data_of c len flags rest ts)))
        ∙ map-if some (c / 2 ^ 29 % 2 != 0) (error_of c len rest) _)
  where
    long_enough : can_frame_size ≤ length (layout e c len flags r₀ r₁ rest)
    long_enough = omega (arith, length-layout e c len flags r₀ r₁ rest)

-- A shorter buffer is refused.
pub decode_wire-eq-none :
    (e : Endian) (buf : List ℕ) (timestamp_ns : Option ℕ)
    → length buf < can_frame_size
    → decode_wire e buf timestamp_ns ≡ none
unfolding decode_wire
decode_wire-eq-none e buf ts h = rw (lt→ltb (length buf) can_frame_size h) refl
