-- ===== src/Frame/Display.antt =====
-- mcanbus/src/frame.rs: `Display` for `CanId` and `Frame`. A text is the list of its bytes.
pub mod Laws
use mcanbus.Base.{ℕ, List, [], ◌∷◌, ◌++◌}
use mcanbus.Base.Text.{format_hex, hex_text}
use mcanbus.Frame.Id.{CanId, standard, extended}
use mcanbus.Frame.Data.{Frame, FrameKind, classic, fd, flags_to_wire, payload}

unfoldable pub display_id : CanId → List ℕ
display_id (standard id) = format_hex 3 id
display_id (extended id) = format_hex 8 id

unfoldable pub display_kind : FrameKind → List ℕ
display_kind classic = b'#' ∷ []
display_kind (fd flags) = b'#' ∷ b'#' ∷ format_hex 0 (flags_to_wire flags)

unfoldable pub display : Frame → List ℕ
display f = display_id f.id ++ (display_kind f.kind ++ hex_text (payload f))
