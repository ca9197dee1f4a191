-- ===== src/Mcp/Json.antt =====
-- socketcan-mcp/src/main.rs: `FrameJson`, a frame as the tools print it.
pub mod RoundTrip
use mcanbus.Base.{ℕ, Bool, true, false, Option, List, [], ◌∷◌, ◌++◌}
use mcanbus.Base.Text.{format_hex, hex_text}
use mcanbus.Frame.Id.{CanId, standard, extended, is_extended}
use mcanbus.Frame.Data.{Frame, FrameKind, classic, fd, payload}

pub record FrameJson : Type 0 where
  pub id : List ℕ
  pub extended : Bool
  pub fd : Bool
  pub brs : Bool
  pub esi : Bool
  pub dlc : ℕ
  pub data_hex : List ℕ
  pub timestamp_ns : Option ℕ

-- `format!("{id:03X}")` and `format!("{id:08X}")`.
unfoldable pub id_str : CanId → List ℕ
id_str (standard id) = format_hex 3 id
id_str (extended id) = format_hex 8 id

-- `(fd, brs, esi)`.
unfoldable pub json_flags : FrameKind → Bool × Bool × Bool
json_flags classic = (false, false, false)
json_flags (fd flags) = (true, flags.brs, flags.esi)

unfoldable pub from_frame : Frame → FrameJson
from_frame f = record {
  id = id_str f.id;
  extended = is_extended f.id;
  fd = (json_flags f.kind).0;
  brs = (json_flags f.kind).1;
  esi = (json_flags f.kind).2;
  dlc = f.len;
  data_hex = hex_text (payload f);
  timestamp_ns = f.timestamp_ns;
}
