-- ===== src/IsoTp/Encode/Laws.antt =====
-- mcanbus/src/isotp.rs: the bytes of each kind of frame, and the nibbles of its first byte.
use mcanbus.Base.{
  ℕ, ◌+◌, ◌-◌, ◌*◌, ◌/◌, ◌%◌, ◌^◌, ◌<◌, ◌≤◌, min, ◌≡◌, refl, ap, ◌∙◌, ◌⊎◌, List, ◌∷◌, ◌++◌, arith,
  length, replicate, overwrite, overwrite-one, overwrite-two, drop-replicate, bit_and, bit_or,
  bit_and_mask, bit_and_shifted, bit_or_high_low, zero-bit_or,
}
use mathlib.Core.List.{append-nil}
use mcanbus.IsoTp.Encode.{
  encode_sf_frame, encode_ff_frame, encode_cf_frame, encode_fc_frame, decode_st_min, sf_max_len,
  max_ff_length, ff_first_payload, pci_type_mask, pci_sf, pci_ff, pci_cf,
}

-- The low nibble, and the type nibble in its place.
pub low_nibble : (b : ℕ) → bit_and b 0x0f ≡ b % 16
low_nibble b = bit_and_mask 4 b

pub type_nibble : (b : ℕ) → bit_and b pci_type_mask ≡ b / 16 % 16 * 16
type_nibble b = omega (arith, bit_and_shifted 4 b 15, bit_and_mask 4 (b / 16))

pub or_nibble : (t n : ℕ) → n < 16 → bit_or (t * 16) n ≡ t * 16 + n
or_nibble t n h = bit_or_high_low 4 t n h

-- A type nibble and a masked number.
pci : (t n : ℕ) → bit_or (t * 16) (bit_and n 0x0f) ≡ t * 16 + n % 16
pci t n = rw (low_nibble n) (or_nibble t (n % 16) (omega arith))

-- A first byte, a chunk and the padding.
framed :
    (b padding : ℕ) (chunk : List ℕ)
    → overwrite 1 chunk (b ∷ replicate 7 padding)
      ≡ b ∷ (chunk ++ replicate (7 - length chunk) padding)
framed b padding chunk =
    overwrite-one b chunk (replicate 7 padding)
    ∙ ap (λ (t : List ℕ). b ∷ (chunk ++ t)) (drop-replicate (length chunk) 7 padding)

pub encode_sf_frame_lem :
    (bytes : List ℕ) (padding : ℕ)
    → length bytes ≤ sf_max_len
    → encode_sf_frame bytes padding ≡ length bytes ∷ (bytes ++ replicate (7 - length bytes) padding)
unfolding encode_sf_frame
encode_sf_frame_lem bytes padding h =
    framed (bit_or pci_sf (length bytes % 2 ^ 8)) padding bytes
    ∙ ap (λ (b : ℕ). b ∷ (bytes ++ replicate (7 - length bytes) padding)) first
  where
    first : bit_or pci_sf (length bytes % 2 ^ 8) ≡ length bytes
    first = omega (arith, zero-bit_or (length bytes % 2 ^ 8))

pub encode_ff_frame_lem :
    (total : ℕ) (chunk : List ℕ) (padding : ℕ)
    → total ≤ max_ff_length
    → length chunk ≡ ff_first_payload
    → encode_ff_frame total chunk padding ≡ (16 + total / 256) ∷ total % 256 ∷ chunk
unfolding encode_ff_frame
encode_ff_frame_lem total chunk padding h k =
    overwrite-two (bit_or pci_ff (bit_and (total / 2 ^ 8 % 2 ^ 8) 0x0f)) (total % 2 ^ 8) chunk
      (replicate 6 padding)
    ∙ rw (k, append-nil, low_nibble (total / 2 ^ 8 % 2 ^ 8), first) refl
  where
    first : bit_or pci_ff (total / 2 ^ 8 % 2 ^ 8 % 16) ≡ 16 + total / 256
    first = omega (arith, or_nibble 1 (total / 2 ^ 8 % 2 ^ 8 % 16))

pub encode_cf_frame_lem :
    (seq : ℕ) (chunk : List ℕ) (padding : ℕ)
    → encode_cf_frame seq chunk padding
      ≡ (32 + seq % 16) ∷ (chunk ++ replicate (7 - length chunk) padding)
unfolding encode_cf_frame
encode_cf_frame_lem seq chunk padding =
    framed (bit_or pci_cf (bit_and seq 0x0f)) padding chunk
    ∙ ap (λ (b : ℕ). b ∷ (chunk ++ replicate (7 - length chunk) padding)) (pci 2 seq)

pub encode_fc_frame_lem :
    (status block_size st_min_ms padding : ℕ)
    → encode_fc_frame status block_size st_min_ms padding
      ≡ (48 + status % 16) ∷ block_size ∷ min st_min_ms 127 ∷ replicate 5 padding
unfolding encode_fc_frame
encode_fc_frame_lem status block_size st_min_ms padding = rw (pci 3 status) refl

-- A requested separation time up to 127 ms is read back as it is; the encoder caps it at that.
pub decode-encode_st_min : (st_min_ms : ℕ) → decode_st_min (min st_min_ms 0x7f) ≡ min st_min_ms 0x7f
unfolding decode_st_min
decode-encode_st_min st = ground arith

-- Every received byte becomes a wait of at most 127 ms: 0 to 127 are milliseconds, the microsecond
-- range 0xF1 to 0xF9 is rounded up to one, and the reserved bytes become the longest wait.
pub decode_st_min_lem :
    (byte : ℕ)
    → (decode_st_min byte ≤ 127)
      × (byte ≤ 127 → decode_st_min byte ≡ byte)
      × (241 ≤ byte → byte ≤ 249 → decode_st_min byte ≡ 1)
      × (127 < byte → (byte < 241) ⊎ (249 < byte) → decode_st_min byte ≡ 127)
unfolding decode_st_min
decode_st_min_lem byte = (ground arith, ground arith, ground arith, ground arith)
