-- ===== src/IsoTp/Receive/Steps.antt =====
-- mcanbus/src/isotp.rs: what the receiver makes of one frame that the encoders made.
use mcanbus.Base.{
  ℕ, suc, ◌+◌, ◌-◌, ◌*◌, ◌/◌, ◌%◌, ◌<◌, ◌≤◌, min, bit_and, bit_or, ◌≡◌, refl, List, ◌++◌, arith,
  lt→leb, !=_self, pos→==, bit_or_high_low, le→ltb, length, take, replicate, length-take,
  length-append, length-replicate, take-append_length, take-all,
}
use mcanbus.Base.Results.{ok}
use mcanbus.IsoTp.Encode.{
  encode_sf_frame, encode_ff_frame, encode_cf_frame, pci_type_mask, cf_payload, sf_max_len,
  ff_first_payload, max_ff_length,
}
use mcanbus.IsoTp.Encode.Laws.{
  low_nibble, type_nibble, encode_sf_frame_lem, encode_ff_frame_lem, encode_cf_frame_lem,
}
use mcanbus.IsoTp.Segments.{next_seq_lem}
use mcanbus.IsoTp.Receive.{whole, segmented, on_first, on_cf}

-- The two nibbles of a first byte.
nibbles :
    (t n : ℕ)
    → t < 16
    → n < 16
    → (bit_and (t * 16 + n) pci_type_mask ≡ t * 16) × (bit_and (t * 16 + n) 0x0f ≡ n)
nibbles t n h k = (omega (arith, type_nibble (t * 16 + n)), omega (arith, low_nibble (t * 16 + n)))

pub on_first-encode_sf_frame :
    (bytes : List ℕ) (padding : ℕ)
    → 1 ≤ length bytes
    → length bytes ≤ sf_max_len
    → on_first (encode_sf_frame bytes padding) ≡ whole (ok bytes)
unfolding on_first
on_first-encode_sf_frame bytes padding h k =
    rw
      (
        encode_sf_frame_lem bytes padding k,
        on_first,
        type,
        len,
        pos→== (length bytes) h,
        le→ltb sf_max_len (length bytes) k,
        le→ltb _ _ whole_frame,
        take-append_length (length bytes) bytes (replicate (7 - length bytes) padding) refl,
      )
      refl
  where
    type : bit_and (length bytes) pci_type_mask ≡ 0
    type = omega (arith, type_nibble (length bytes))

    len : bit_and (length bytes) 0x0f ≡ length bytes
    len = omega (arith, low_nibble (length bytes))

    whole_frame : 1 + length bytes ≤ suc (length (bytes ++ replicate (7 - length bytes) padding))
    whole_frame = omega (arith, length-append bytes (replicate (7 - length bytes) padding))

pub on_first-encode_ff_frame :
    (total : ℕ) (chunk : List ℕ) (padding : ℕ)
    → sf_max_len < total
    → total ≤ max_ff_length
    → length chunk ≡ ff_first_payload
    → on_first (encode_ff_frame total chunk padding) ≡ segmented total chunk
unfolding on_first
on_first-encode_ff_frame total chunk padding h k l =
    rw
      (
        encode_ff_frame_lem total chunk padding k l,
        on_first,
        (nibbles 1 (total / 256) (omega arith) (omega arith)).0,
        (nibbles 1 (total / 256) (omega arith) (omega arith)).1,
      )
      (rw (total_lem, l, lt→leb total sf_max_len h, first_chunk) refl)
  where
    total_lem : bit_or (total / 256 * 256) (total % 256) ≡ total
    total_lem = omega (arith, bit_or_high_low 8 (total / 256) (total % 256) (omega arith))

    first_chunk : take (min 6 total) chunk ≡ chunk
    first_chunk = take-all (min 6 total) chunk (omega arith)

pub on_cf-encode_cf_frame :
    (total seq : ℕ) (out rest : List ℕ) (padding : ℕ)
    → total ≡ length out + length rest
    → seq < 16
    → on_cf total out seq (encode_cf_frame seq (take 7 rest) padding)
      ≡ ok (out ++ take 7 rest, (seq + 1) % 16)
unfolding on_cf
on_cf-encode_cf_frame total seq out rest padding h k =
    rw
      (
        encode_cf_frame_lem seq (take 7 rest) padding,
        on_cf,
        (nibbles 2 (seq % 16) (omega arith) (omega arith)).0,
        (nibbles 2 (seq % 16) (omega arith) (omega arith)).1,
        next_seq_lem seq k,
      )
      (rw (same, !=_self seq, width, take-append_length (length (take 7 rest)) (take 7 rest) _ refl)
        refl)
  where
    same : seq % 16 ≡ seq
    same = omega arith

    width :
        min
          (min
            (total - length out)
            (length (take 7 rest ++ replicate (7 - length (take 7 rest)) padding)))
          cf_payload
        ≡ length (take 7 rest)
    width = omega (
      arith,
      length-append (take 7 rest) (replicate (7 - length (take 7 rest)) padding),
      length-replicate (7 - length (take 7 rest)) padding,
      length-take 7 rest,
    )
