-- ===== src/Mcp/Json/RoundTrip.antt =====
-- socketcan-mcp/src/main.rs: the printed frame as an argument again.
use mcanbus.Base.{
  ℕ, ◌+◌, ◌*◌, ◌/◌, ◌-◌, ◌%◌, ◌^◌, ◌≤◌, ◌≡◌, refl, ap, arith, false, if◌then◌else◌, none, some,
  List, [], ◌∷◌, ◌++◌, take, drop, replicate, All, IsBytes, length, length-take, take-append-drop,
  drop-replicate, le→ltb, zero-add, All-take,
}
use mcanbus.Base.Text.{hex_text, from_str_radix, format_hex, upper_digit}
use mcanbus.Base.Text.Laws.{
  hex_text-IsPrinted, IsPrinted, format_hex-IsPrinted, format_hex-byte, from_str_radix-format_hex,
  trim_pairs-IsPrinted,
}
use mcanbus.Base.Results.{ok}
use mcanbus.Frame.Id.{CanId, IsCanId, standard, extended, is_extended, new_standard, new_extended}
use mcanbus.Frame.Id.Masks.{sff_mask_lem, eff_mask_lem}
use mcanbus.Frame.Data.{
  Frame, FrameKind, classic, fd, new_classic, new_fd, payload, IsFrame, IsClean, max_len,
  max_fd_data_len, max_data_len,
}
use mcanbus.Mcp.{
  SendFrameInline, build_frame, parse_hex_id, parse_hex_bytes, parse_pairs, trim_hex,
  or_invalid_frame,
}
use mcanbus.Mcp.Json.{FrameJson, from_frame, id_str, json_flags}

-- The fields that the tools take, and what a frame that they build says of a frame: no error state
-- and no time.
abbrev pub as_argument : FrameJson → SendFrameInline
as_argument json = record {
  id = json.id;
  extended = json.extended;
  data_hex = json.data_hex;
  fd = json.fd;
  brs = json.brs;
}

abbrev pub as_sent : FrameKind → FrameKind
as_sent classic = classic
as_sent (fd flags) = fd (record flags { esi = false })

trim_hex-IsPrinted : (s : List ℕ) → All IsPrinted s → trim_hex s ≡ s
unfolding trim_hex
trim_hex-IsPrinted s printed =
    rw (trim_pairs-IsPrinted b'0' b'x' s (omega arith) printed)
      (trim_pairs-IsPrinted b'0' b'X' s (omega arith) printed)

length-hex_text : (bytes : List ℕ) → IsBytes bytes → length (hex_text bytes) ≡ length bytes * 2
unfolding hex_text
length-hex_text [] all_ok = refl
length-hex_text (b ∷ bytes) all_ok =
    rw (format_hex-byte b all_ok.0) (omega (arith, length-hex_text bytes all_ok.1))

parse_pairs-hex_text : (bytes : List ℕ) → IsBytes bytes → parse_pairs (hex_text bytes) ≡ ok bytes
unfolding hex_text parse_pairs
parse_pairs-hex_text [] all_ok = refl
parse_pairs-hex_text (b ∷ bytes) all_ok =
    rw (format_hex-byte b all_ok.0, read, parse_pairs-hex_text bytes all_ok.1) refl
  where
    read : from_str_radix 16 8 (upper_digit (b / 16) ∷ upper_digit (b % 16) ∷ []) ≡ some b
    read =
        rw (← format_hex-byte b all_ok.0)
          (from_str_radix-format_hex 8 2 b (omega (arith, all_ok.0)) (omega (arith, all_ok.0)))

parse_hex_bytes-hex_text :
    (bytes : List ℕ) → IsBytes bytes → parse_hex_bytes (hex_text bytes) ≡ ok bytes
unfolding parse_hex_bytes
parse_hex_bytes-hex_text bytes all_ok =
    let even : length bytes * 2 % 2 ≡ 0 = omega arith in
    rw
      (
        trim_hex-IsPrinted (hex_text bytes) (hex_text-IsPrinted bytes),
        length-hex_text bytes all_ok,
        even,
      )
      (parse_pairs-hex_text bytes all_ok)

parse_hex_id-id_str : (id : CanId) → IsCanId id → parse_hex_id (id_str id) (is_extended id) ≡ ok id
unfolding parse_hex_id id_str new_standard new_extended is_extended
parse_hex_id-id_str (standard id) h =
    rw
      (
        trim_hex-IsPrinted (format_hex 3 id) (format_hex-IsPrinted 3 id),
        from_str_radix-format_hex 32 3 id (omega arith) (omega arith),
        sff_mask_lem (id % 2 ^ 16),
      )
      (ap (λ n. ok (standard n)) (omega arith))
parse_hex_id-id_str (extended id) h =
    rw
      (
        trim_hex-IsPrinted (format_hex 8 id) (format_hex-IsPrinted 8 id),
        from_str_radix-format_hex 32 8 id (omega arith) (omega arith),
        eff_mask_lem id,
      )
      (ap (λ n. ok (extended n)) (omega arith))

module _ (len : ℕ) (buf : List ℕ) (fits : len ≤ max_fd_data_len)
    (whole : length buf ≡ max_fd_data_len)
    (clean : drop len buf ≡ replicate (max_fd_data_len - len) 0) where
  length-taken : length (take len buf) ≡ len
  length-taken = omega (arith, length-take len buf)

  same_buffer : take len buf ++ drop (0 + len) (replicate max_fd_data_len 0) ≡ buf
  same_buffer =
      rw (zero-add, drop-replicate {A = ℕ} len max_fd_data_len 0, ← clean)
        (take-append-drop len buf)

  rebuilt :
      (id : CanId) (kind : FrameKind)
      → len ≤ max_len kind
      → or_invalid_frame (
          if (json_flags kind).0
          then new_fd id (take len buf) (record { brs = (json_flags kind).1; esi = false })
          else new_classic id (take len buf))
        ≡ ok (record {
          id = id;
          kind = as_sent kind;
          len = len;
          data_buf = buf;
          timestamp_ns = none;
        })
  unfolding new_fd new_classic json_flags
  rebuilt id classic short =
      rw (length-taken, le→ltb max_data_len len short, same_buffer)
        (ap
          (λ n.
            ok (record { id = id; kind = classic; len = n; data_buf = buf; timestamp_ns = none }))
          (omega arith))
  rebuilt id (fd flags) short =
      rw (length-taken, le→ltb max_fd_data_len len short, same_buffer)
        (ap
          (λ n. ok (record {
            id = id;
            kind = as_sent (fd flags);
            len = n;
            data_buf = buf;
            timestamp_ns = none;
          }))
          (omega arith))

fits_fd : (kind : FrameKind) (len : ℕ) → len ≤ max_len kind → len ≤ max_fd_data_len
fits_fd classic len h = omega arith
fits_fd (fd flags) len h = h

-- A well-formed frame with zeros behind its payload, printed as JSON, is built again from the fields
-- that the tools take: all of it but an error state indicator and a time stamp.
pub build_frame-from_frame :
    (f : Frame)
    → IsFrame f
    → IsClean f
    → build_frame (as_argument (from_frame f))
      ≡ ok (record f { kind = as_sent f.kind; timestamp_ns = none })
unfolding build_frame from_frame payload
build_frame-from_frame f valid clean =
    rw
      (
        parse_hex_id-id_str f.id valid.id_fits,
        parse_hex_bytes-hex_text (take f.len f.data_buf)
            (All-take _ f.len f.data_buf valid.buf_bytes),
      )
      (rebuilt f.len f.data_buf (fits_fd f.kind f.len valid.len_fits) valid.buf_len clean f.id
        f.kind valid.len_fits)
