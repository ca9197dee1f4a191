-- ===== src/Frame/Wire/RoundTrip.antt =====
-- mcanbus/src/frame.rs: the bytes that are sent for a frame, and their decoding.
use mcanbus.Base.{
  ℕ, ◌-◌, ◌/◌, ◌%◌, ◌^◌, ◌≤◌, ◌≡◌, refl, ap, ◌∙◌, Option, some, List, ◌++◌, arith, length, take,
  replicate, overwrite, length-append, drop-replicate, zero-add, take-take_le, take-append_length,
  take-append-drop, length-take, length-replicate,
}
use mcanbus.Frame.Id.{CanId, standard, extended, to_wire}
use mcanbus.Frame.Id.Laws.{from_wire-to_wire, to_wire-lt, to_wire-standard, to_wire-extended}
use mcanbus.Frame.Data.{
  Frame, FrameKind, fd, classic, flags_to_wire, is_fd, IsFrame, IsClean, max_data_len,
  max_fd_data_len, max_len,
}
use mcanbus.Frame.Data.Laws.{flags_from_wire-flags_to_wire}
use mcanbus.Frame.Wire.{data_frame, decode_wire, frame_bytes}
use mcanbus.Frame.Wire.Bytes.{Endian, little, big, u32_to_ne_bytes}
use mcanbus.Frame.Wire.Decode.{layout, padded, carried, kind_of, decode_wire-layout}

abbrev flags_byte : FrameKind → ℕ
flags_byte classic = 0
flags_byte (fd flags) = flags_to_wire flags

-- The payload field of the wire frame: the frame's payload, and zeros.
abbrev body : ℕ → List ℕ → List ℕ
body len buf = overwrite 0 (take len buf) (replicate max_fd_data_len 0)

frame_bytes-layout :
    (e : Endian) (id : CanId) (kind : FrameKind) (len : ℕ) (buf : List ℕ) (ts : Option ℕ)
    → frame_bytes e (record { id = id; kind = kind; len = len; data_buf = buf; timestamp_ns = ts })
      ≡ layout e (to_wire id) len (flags_byte kind) 0 0 (take (max_len kind) (body len buf))
unfolding frame_bytes is_fd u32_to_ne_bytes
frame_bytes-layout little id classic len buf ts = refl
frame_bytes-layout little id (fd flags) len buf ts = refl
frame_bytes-layout big id classic len buf ts = refl
frame_bytes-layout big id (fd flags) len buf ts = refl

-- An identifier sets neither the RTR nor the ERR bit.
to_wire_flags : (id : CanId) → (to_wire id / 2 ^ 29 % 2 ≡ 0) × (to_wire id / 2 ^ 30 % 2 ≡ 0)
to_wire_flags (standard id) = omega (arith, to_wire-standard id)
to_wire_flags (extended id) = omega (arith, to_wire-extended id)

module _ (len : ℕ) (buf : List ℕ) (full : length buf ≡ max_fd_data_len)
    (short : len ≤ max_fd_data_len) where
  length-taken : length (take len buf) ≡ len
  length-taken = omega (arith, length-take len buf)

  body_lem : body len buf ≡ take len buf ++ replicate (max_fd_data_len - len) 0
  body_lem = rw (zero-add, length-taken, drop-replicate {A = ℕ} len max_fd_data_len 0) refl

  length-body : length (body len buf) ≡ max_fd_data_len
  length-body = rw body_lem (
      omega (
        arith,
        length-append (take len buf) (replicate (max_fd_data_len - len) 0),
        length-taken,
        length-replicate {A = ℕ} (max_fd_data_len - len) 0,
      ))

  take-body : (m : ℕ) → len ≤ m → take len (take m (body len buf)) ≡ take len buf
  take-body m h =
      take-take_le len m (body len buf) h
      ∙ ap (take len) body_lem
      ∙ take-append_length len (take len buf) _ length-taken

  abbrev sent : FrameKind → List ℕ
  sent kind = take (max_len kind) (body len buf)

  length-sent : (kind : FrameKind) → length (sent kind) ≡ max_len kind
  length-sent classic = omega (arith, length-take max_data_len (body len buf), length-body)
  length-sent (fd flags) = omega (arith, length-take max_fd_data_len (body len buf), length-body)

  kind_of-sent : (kind : FrameKind) → kind_of (flags_byte kind) (sent kind) ≡ kind
  kind_of-sent classic = rw (length-sent classic)
  kind_of-sent (fd flags) =
      rw (length-sent (fd flags)) (ap fd (flags_from_wire-flags_to_wire flags))

  carried-sent : (kind : FrameKind) → len ≤ max_len kind → carried len (sent kind) ≡ len
  carried-sent classic h = rw (length-sent classic) (omega arith)
  carried-sent (fd flags) h = rw (length-sent (fd flags)) (omega arith)

  padded-sent :
      (kind : FrameKind)
      → len ≤ max_len kind
      → padded max_fd_data_len len (sent kind) ≡ take len buf ++ replicate (max_fd_data_len - len) 0
  padded-sent kind h = rw (take-body (max_len kind) h) body_lem

-- Sending and decoding a frame gives back its identifier, kind, length and payload, with the
-- receiver's time stamp, and zeros behind the payload.
pub decode_wire-frame_bytes :
    (e : Endian) (f : Frame) (timestamp_ns : Option ℕ)
    → IsFrame f
    → decode_wire e (frame_bytes e f) timestamp_ns
      ≡ some (
          data_frame (record f {
            data_buf = take f.len f.data_buf ++ replicate (max_fd_data_len - f.len) 0;
            timestamp_ns = timestamp_ns;
          }))
decode_wire-frame_bytes e f ts v =
    rw
      (
        frame_bytes-layout e f.id f.kind f.len f.data_buf f.timestamp_ns,
        decode_wire-layout e (to_wire f.id) f.len (flags_byte f.kind) 0 0 on_wire ts
            (to_wire-lt f.id) long_enough,
        (to_wire_flags f.id).0,
        (to_wire_flags f.id).1,
        from_wire-to_wire f.id v.id_fits,
        kind_of-sent f.len f.data_buf v.buf_len len_ok f.kind,
        carried-sent f.len f.data_buf v.buf_len len_ok f.kind v.len_fits,
        padded-sent f.len f.data_buf v.buf_len len_ok f.kind v.len_fits,
      )
      refl
  where
    max_len-le : (kind : FrameKind) → (8 ≤ max_len kind) × (max_len kind ≤ max_fd_data_len)
    max_len-le classic = omega arith
    max_len-le (fd flags) = omega arith

    len_ok : f.len ≤ max_fd_data_len
    len_ok = omega (arith, v.len_fits, (max_len-le f.kind).1)

    on_wire : List ℕ
    on_wire = take (max_len f.kind) (body f.len f.data_buf)

    long_enough : 8 ≤ length on_wire
    long_enough =
        omega (arith, length-sent f.len f.data_buf v.buf_len len_ok f.kind, (max_len-le f.kind).0)

-- So a frame with zeros behind its payload comes back whole.
pub decode_wire-frame_bytes_clean :
    (e : Endian) (f : Frame) (timestamp_ns : Option ℕ)
    → IsFrame f
    → IsClean f
    → decode_wire e (frame_bytes e f) timestamp_ns
      ≡ some (data_frame (record f { timestamp_ns = timestamp_ns }))
decode_wire-frame_bytes_clean e f ts v clean =
    decode_wire-frame_bytes e f ts v
    ∙ ap (λ (b : List ℕ). some (data_frame (record f { data_buf = b; timestamp_ns = ts })))
        (rw (← clean) (take-append-drop f.len f.data_buf))
