-- ===== src/Frame/Wire.antt =====
-- mcanbus/src/frame.rs, `WireFrame`, `DecodedFrame` and `decode_wire`: the kernel's `can_frame` and
-- `canfd_frame`. The byte order of the machine, on which `from_ne_bytes` and the layout of a
-- `repr(C)` struct depend, is a parameter.
pub mod Bytes
pub mod Decode
pub mod RoundTrip
pub mod Decoded
use mcanbus.Base.{
  ℕ, ◌+◌, ◌-◌, ◌%◌, ◌^◌, min, bit_and, Bool, true, false, Option, none, some, List, [], ◌∷◌, ◌++◌,
  ltb, ◌==◌, ◌!=◌, if◌then◌else◌, length, take, drop, get_or, replicate, overwrite,
}
use mcanbus.Consts.{
  can_frame_size, canfd_frame_size, can_rtr_flag, can_err_flag, can_eff_flag, can_err_mask,
  can_eff_mask, can_sff_mask,
}
use mcanbus.Frame.Id.{CanId, standard, extended, to_wire}
use mcanbus.Frame.Data.{
  Frame, FrameKind, is_fd, classic, fd, flags_to_wire, flags_from_wire, max_data_len,
  max_fd_data_len,
}
use Bytes.{Endian, u32_from_ne_bytes, u32_to_ne_bytes}

pub record WireFrame : Type 0 where
  pub can_id : ℕ
  pub len : ℕ
  pub flags : ℕ
  pub res0 : ℕ
  pub res1 : ℕ
  pub payload : List ℕ

-- `WireFrame::zeroed`.
pub wire_zeroed : WireFrame
wire_zeroed = record {
  can_id = 0;
  len = 0;
  flags = 0;
  res0 = 0;
  res1 = 0;
  payload = replicate max_fd_data_len 0;
}

-- `if let FrameKind::Fd(flags) = frame.kind { w.flags = flags.to_wire(); }`
with_flags : FrameKind → WireFrame → WireFrame
with_flags classic w = w
with_flags (fd flags) w = record w { flags = flags_to_wire flags }

-- `WireFrame::from_frame`.
pub from_frame : Frame → WireFrame
unfolding wire_zeroed with_flags
from_frame frame =
    let w = record wire_zeroed { can_id = to_wire frame.id; len = frame.len } in
    let w = with_flags frame.kind w in
    record w { payload = overwrite 0 (take frame.len frame.data_buf) w.payload }

-- `WireFrame::wire_size`.
pub wire_size : Bool → ℕ
wire_size true = canfd_frame_size
wire_size false = can_frame_size

-- The bytes of a `WireFrame` in memory, by the layout that `repr(C)` gives its fields.
pub wire_bytes : Endian → WireFrame → List ℕ
wire_bytes e w = u32_to_ne_bytes e w.can_id ++ w.len ∷ w.flags ∷ w.res0 ∷ w.res1 ∷ w.payload

-- What `Socket::send` and `Socket::send_batch` hand to the kernel: `size` bytes of the wire frame.
pub frame_bytes : Endian → Frame → List ℕ
unfolding from_frame wire_size wire_bytes
frame_bytes e frame = take (wire_size (is_fd frame)) (wire_bytes e (from_frame frame))

-- `Rtr` has the fields `id` and `len`, `Error` the fields `class`, `data` and `len`.
pub data DecodedFrame : Type 0 where
  data_frame : Frame → DecodedFrame
  rtr : CanId → ℕ → DecodedFrame
  error : ℕ → List ℕ → ℕ → DecodedFrame

decode_error : List ℕ → ℕ → ℕ → DecodedFrame
decode_error buf can_id payload_len =
    let n = min (min payload_len 8) (length buf - 8) in
    error (bit_and can_id can_err_mask) (overwrite 0 (take n (drop 8 buf)) (replicate 8 0))
      (n % 2 ^ 8)

decode_data : List ℕ → CanId → ℕ → ℕ → Option ℕ → Frame
decode_data buf id payload_len flags timestamp_ns =
    let is_fd = length buf == canfd_frame_size in
    let max_payload : ℕ = if is_fd then max_fd_data_len else max_data_len in
    let len = min payload_len max_payload in
    let taken = min len (length buf - 8) in
    record {
      id = id;
      kind = if is_fd then fd (flags_from_wire flags) else classic;
      len = taken % 2 ^ 8;
      data_buf = overwrite 0 (take taken (drop 8 buf)) (replicate max_fd_data_len 0);
      timestamp_ns = timestamp_ns;
    }

decode_id : ℕ → CanId
decode_id can_id =
    if bit_and can_id can_eff_flag != 0
    then extended (bit_and can_id can_eff_mask)
    else standard (bit_and can_id can_sff_mask % 2 ^ 16)

-- Each index below 16 is in range where it is read.
pub decode_wire : Endian → List ℕ → Option ℕ → Option DecodedFrame
unfolding decode_error decode_data decode_id
decode_wire e buf timestamp_ns =
    let can_id = u32_from_ne_bytes e (take 4 buf) in
    let payload_len = get_or buf 4 0 in
    let flags = get_or buf 5 0 in
    let is_rtr = bit_and can_id can_rtr_flag != 0 in
    let is_err = bit_and can_id can_err_flag != 0 in
    if ltb (length buf) can_frame_size
    then none
    else if is_err
    then some (decode_error buf can_id payload_len)
    else if is_rtr
    then some (rtr (decode_id can_id) payload_len)
    else some (data_frame (decode_data buf (decode_id can_id) payload_len flags timestamp_ns))
