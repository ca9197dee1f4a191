-- ===== src/Frame/Wire/Decoded.antt =====
-- mcanbus/src/frame.rs: decoding of any buffer of at least 16 bytes.
use mcanbus.Base.{
  ℕ, ◌-◌, ◌/◌, ◌%◌, ◌^◌, ◌<◌, ◌≤◌, ◌≡◌, refl, ap, ◌∙◌, sym, Bool, true, false, Option, some, List,
  ◌∷◌, ◌++◌, arith, ltb, ltb→lt, ltb→le, ◌==◌, ◌!=◌, if◌then◌else◌, length, take, drop, replicate,
  length-append, drop-replicate, zero-add, length-take, length-replicate, IsBytes, All-append,
  All-take, All-drop, All-replicate, get_or, Bool-cases, inl, inr, length-drop, drop-append_length,
}
use mcanbus.Consts.{can_frame_size}
use mcanbus.Frame.Id.{CanId, from_wire}
use mcanbus.Frame.Id.Laws.{from_wire-IsCanId}
use mcanbus.Frame.Data.{Frame, IsFrame, IsClean, max_fd_data_len, max_len}
use mcanbus.Frame.Wire.{data_frame, rtr, error, decode_wire}
use mcanbus.Frame.Wire.Bytes.{Endian, little, big, u32_to_ne_bytes, u32_from_ne_bytes}
use mcanbus.Frame.Wire.Decode.{
  layout, padded, carried, kind_of, data_of, error_of, decode_wire-layout, decode_wire-eq-none,
}

-- The word, the header bytes and the rest of a buffer.
abbrev pub word : Endian → List ℕ → ℕ
word e buf = u32_from_ne_bytes e (take 4 buf)

abbrev pub byte_at : List ℕ → ℕ → ℕ
byte_at buf i = get_or buf i 0

word-lt : (e : Endian) (buf : List ℕ) → IsBytes buf → 8 ≤ length buf → word e buf < 2 ^ 32
unfolding u32_from_ne_bytes
word-lt little (a ∷ b ∷ c ∷ d ∷ rest) bytes h = omega arith
word-lt big (a ∷ b ∷ c ∷ d ∷ rest) bytes h = omega arith
word-lt e _ bytes h = absurd (omega arith)

as_layout :
    (e : Endian) (buf : List ℕ)
    → IsBytes buf
    → 8 ≤ length buf
    → buf
      ≡ layout e
          (word e buf)
          (byte_at buf 4)
          (byte_at buf 5)
          (byte_at buf 6)
          (byte_at buf 7)
          (drop 8 buf)
unfolding u32_from_ne_bytes u32_to_ne_bytes
as_layout little (a ∷ b ∷ c ∷ d ∷ r ∷ s ∷ t ∷ u ∷ rest) bytes h = ground arith
as_layout big (a ∷ b ∷ c ∷ d ∷ r ∷ s ∷ t ∷ u ∷ rest) bytes h = ground arith
as_layout e _ bytes h = absurd (omega arith)

-- A buffer of at least 16 bytes is decoded by its word: the ERR bit makes an error frame, whatever
-- the RTR bit says; the RTR bit a remote request; neither a data frame.
pub decode_wire_lem :
    (e : Endian) (buf : List ℕ) (timestamp_ns : Option ℕ)
    → IsBytes buf
    → can_frame_size ≤ length buf
    → let c = word e buf in
      let len = byte_at buf 4 in
      let rest = drop 8 buf in
      decode_wire e buf timestamp_ns
      ≡ some (
          if c / 2 ^ 29 % 2 != 0
          then error_of c len rest
          else if c / 2 ^ 30 % 2 != 0
          then rtr (from_wire c) len
          else data_frame (data_of c len (byte_at buf 5) rest timestamp_ns))
decode_wire_lem e buf ts bytes h =
    ap (λ (b : List ℕ). decode_wire e b ts) (as_layout e buf bytes (omega arith))
    ∙ decode_wire-layout e (word e buf) (byte_at buf 4) (byte_at buf 5) (byte_at buf 6)
        (byte_at buf 7) (drop 8 buf) ts (word-lt e buf bytes (omega arith))
        (omega (arith, length-drop 8 buf))

module _ (size n : ℕ) (rest : List ℕ) (n_rest : n ≤ length rest) (n_size : n ≤ size) where
  length-prefix : length (take n rest) ≡ n
  length-prefix = omega (arith, length-take n rest)

  padded_lem : padded size n rest ≡ take n rest ++ replicate (size - n) 0
  padded_lem = rw (zero-add, length-prefix, drop-replicate {A = ℕ} n size 0) refl

  length-padded : length (padded size n rest) ≡ size
  length-padded = rw padded_lem (
      omega (
        arith,
        length-append (take n rest) (replicate (size - n) 0),
        length-prefix,
        length-replicate {A = ℕ} (size - n) 0,
      ))

  padded-IsBytes : IsBytes rest → IsBytes (padded size n rest)
  padded-IsBytes bytes = rw padded_lem (
      All-append (λ b. b < 256) (take n rest) (replicate (size - n) 0)
        (All-take (λ b. b < 256) n rest bytes)
        (All-replicate (λ b. b < 256) (size - n) 0 (omega arith)))

  drop-padded : drop n (padded size n rest) ≡ replicate (size - n) 0
  drop-padded = rw padded_lem (drop-append_length n (take n rest) _ length-prefix)

carried-le :
    (len flags : ℕ) (rest : List ℕ)
    → (carried len rest ≤ length rest)
      × (carried len rest ≤ max_len (kind_of flags rest))
      × (carried len rest ≤ max_fd_data_len)
carried-le len flags rest = elim (Bool-cases (length rest == 64)) [
  | inl fd_size ↦ rw fd_size (omega arith)
  | inr classic_size ↦ rw classic_size (omega arith)
]

data_of-IsFrame :
    (c len flags : ℕ) (rest : List ℕ) (ts : Option ℕ)
    → IsBytes rest
    → IsFrame (data_of c len flags rest ts) × IsClean (data_of c len flags rest ts)
data_of-IsFrame c len flags rest ts bytes =
    let (in_rest, in_kind, in_buf) = carried-le len flags rest in
    let n = carried len rest in
    (
      record {
        id_fits = from_wire-IsCanId c;
        len_fits = in_kind;
        buf_len = length-padded max_fd_data_len n rest in_rest in_buf;
        buf_bytes = padded-IsBytes max_fd_data_len n rest in_rest in_buf bytes;
      },
      drop-padded max_fd_data_len n rest in_rest in_buf,
    )

only_data :
    (is_err is_rtr : Bool) (class len n : ℕ) (detail : List ℕ) (id : CanId) (d f : Frame)
    → some (if is_err then error class detail n else if is_rtr then rtr id len else data_frame d)
      ≡ some (data_frame f)
    → d ≡ f
only_data true is_rtr class len n detail id d f h = cc
only_data false true class len n detail id d f h = cc
only_data false false class len n detail id d f h = cc

-- Whatever bytes the kernel delivers, a data frame made of them is well formed, with zeros behind
-- its payload, and carries the given time stamp.
pub decode_wire-IsFrame :
    (e : Endian) (buf : List ℕ) (timestamp_ns : Option ℕ) (f : Frame)
    → IsBytes buf
    → decode_wire e buf timestamp_ns ≡ some (data_frame f)
    → IsFrame f × IsClean f × (f.timestamp_ns ≡ timestamp_ns)
decode_wire-IsFrame e buf ts f bytes eq = elim (Bool-cases (ltb (length buf) can_frame_size)) [
  | inl short ↦
      let refused = decode_wire-eq-none e buf ts (ltb→lt (length buf) can_frame_size short) in
      cc refused
  | inr long ↦
      let whole = decode_wire_lem e buf ts bytes (ltb→le (length buf) can_frame_size long) in
      let made = only_data _ _ _ _ _ _ _ _ f (sym whole ∙ eq) in
      let (well_formed, clean) =
        data_of-IsFrame (word e buf) (byte_at buf 4) (byte_at buf 5) (drop 8 buf) ts
          (All-drop (λ b. b < 256) 8 buf bytes) in
      rw (← made) (well_formed, clean, refl)
]
