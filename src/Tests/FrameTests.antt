-- ===== src/Tests/FrameTests.antt =====
-- mcanbus/src/frame.rs at concrete frames.
use mcanbus.Base.Text.{hex_text, format_hex, hex_fixed, digit_count}
use mcanbus.Base.Text.{codes}
use mcanbus.Base.Text.Decimal.{format_dec, dec_fixed, dec_count}
use mcanbus.Frame.Data.{data_too_long}
use mcanbus.Frame.Debug.{debug, display_error}
use mcanbus.Frame.Display.{display, display_id, display_kind}
use mcanbus.Frame.Display.Laws.{display-injective}
use mcanbus.Base.{
  ℕ, ◌≡◌, refl, true, false, none, some, List, [], ◌∷◌, ◌++◌, arith, replicate, IsBytes,
}
use mcanbus.Frame.Id.{CanId, standard, extended, from_wire, new_standard, new_extended, raw}
use mcanbus.Frame.Data.{Frame, FdFlags, classic, fd, new_classic, new_fd, IsFrame, IsClean}
use mcanbus.Frame.Data.{payload}
use mcanbus.Frame.Data.Laws.{new_classic-new_fd, UpTo}
use mcanbus.Frame.Wire.{data_frame, decode_wire, frame_bytes}
use mcanbus.Frame.Wire.Bytes.{little, u32_from_ne_bytes}
use mcanbus.Frame.Wire.Decoded.{decode_wire_lem, decode_wire-IsFrame}
use mcanbus.Frame.Wire.RoundTrip.{decode_wire-frame_bytes}

abbrev tester : CanId
tester = extended 0x18da00f9

abbrev flags : FdFlags
flags = record { brs = true; esi = false }

abbrev fd_frame : Frame
fd_frame = record {
  id = tester;
  kind = fd flags;
  len = 3;
  data_buf = 1 ∷ 2 ∷ 3 ∷ replicate 61 0;
  timestamp_ns = none;
}

fd_frame-IsFrame : IsFrame fd_frame
fd_frame-IsFrame = record {
  id_fits = omega arith;
  len_fits = omega arith;
  buf_len = refl;
  buf_bytes = omega arith;
}

-- A classic frame with identifier 0x123 and two bytes, as the kernel delivers it.
abbrev delivered : List ℕ
delivered = 0x23 ∷ 0x01 ∷ 0 ∷ 0 ∷ 2 ∷ 0 ∷ 0 ∷ 0 ∷ 0xde ∷ 0xad ∷ 0 ∷ 0 ∷ 0 ∷ 0 ∷ 0 ∷ 0 ∷ []

abbrev decoded : Frame
decoded = record {
  id = standard 0x123;
  kind = classic;
  len = 2;
  data_buf = 0xde ∷ 0xad ∷ replicate 62 0;
  timestamp_ns = some 5;
}

delivered-IsBytes : IsBytes delivered
delivered-IsBytes = omega arith

masks_overflow :
    (raw (new_standard 0xffff) ≡ 0x7ff) × (raw (new_extended 0xffff_ffff) ≡ 0x1fff_ffff)
unfolding raw new_standard new_extended
masks_overflow = (refl, refl)

decode_wire-frame_bytes_example :
    decode_wire little (frame_bytes little fd_frame) (some 7)
    ≡ some (
        data_frame (record fd_frame {
          data_buf = (1 ∷ 2 ∷ 3 ∷ []) ++ replicate 61 0;
          timestamp_ns = some 7;
        }))
decode_wire-frame_bytes_example = decode_wire-frame_bytes little fd_frame (some 7) fd_frame-IsFrame

delivered-decoded : decode_wire little delivered (some 5) ≡ some (data_frame decoded)
unfolding from_wire u32_from_ne_bytes
delivered-decoded = decode_wire_lem little delivered (some 5) delivered-IsBytes (omega arith)

decode_wire_lem_example : decode_wire little delivered (some 5) ≡ some (data_frame decoded)
unfolding from_wire u32_from_ne_bytes
decode_wire_lem_example = decode_wire_lem little delivered (some 5) delivered-IsBytes (omega arith)

decode_wire-IsFrame_example : IsFrame decoded × IsClean decoded × (decoded.timestamp_ns ≡ some 5)
decode_wire-IsFrame_example =
    decode_wire-IsFrame little delivered (some 5) decoded delivered-IsBytes delivered-decoded

-- `123#DEAD`.
abbrev short_frame : Frame
short_frame = record {
  id = standard 0x123;
  kind = classic;
  len = 2;
  data_buf = 0xde ∷ 0xad ∷ replicate 62 0;
  timestamp_ns = none;
}

prints : display short_frame ≡ b'1' ∷ b'2' ∷ b'3' ∷ b'#' ∷ b'D' ∷ b'E' ∷ b'A' ∷ b'D' ∷ []
unfolding display display_id display_kind payload hex_text format_hex hex_fixed digit_count
prints = refl

abbrev stamped : Frame
stamped = record fd_frame { timestamp_ns = some 5 }

stamped-IsFrame : IsFrame stamped
stamped-IsFrame = record {
  id_fits = fd_frame-IsFrame.id_fits;
  len_fits = fd_frame-IsFrame.len_fits;
  buf_len = fd_frame-IsFrame.buf_len;
  buf_bytes = fd_frame-IsFrame.buf_bytes;
}

same_text_shown : display fd_frame ≡ display stamped
unfolding display payload
same_text_shown = refl

display-injective_example :
    (fd_frame.id ≡ stamped.id)
    × (fd_frame.kind ≡ stamped.kind)
    × (payload fd_frame ≡ payload stamped)
display-injective_example =
    display-injective fd_frame stamped fd_frame-IsFrame stamped-IsFrame same_text_shown

new_classic-new_fd_example :
    UpTo 8 tester classic (1 ∷ 2 ∷ []) (new_classic tester (1 ∷ 2 ∷ []))
    × UpTo 64 tester (fd flags) (1 ∷ 2 ∷ []) (new_fd tester (1 ∷ 2 ∷ []) flags)
new_classic-new_fd_example =
    new_classic-new_fd tester (1 ∷ 2 ∷ []) flags (omega arith) (omega arith)

debugged :
    debug (record fd_frame { timestamp_ns = some 1_000_000 })
    ≡ codes "Frame { id: Extended(416940281), kind: Fd(FdFlags { brs: true, esi: false }), "
      ++ codes "data: [1, 2, 3], timestamp_ns: Some(1000000) }"
unfolding debug payload format_dec dec_fixed dec_count
debugged = refl

refused_text : display_error (data_too_long 9 8) ≡ codes "payload 9 bytes exceeds maximum 8 bytes"
unfolding display_error format_dec dec_fixed dec_count
refused_text = refl
