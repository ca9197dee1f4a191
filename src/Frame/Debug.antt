-- ===== src/Frame/Debug.antt =====
-- mcanbus/src/frame.rs: the text of a `FrameError`, and `Debug` for `Frame`, with the derived `Debug`
-- of its parts.
use mcanbus.Base.{ℕ, Bool, true, false, Option, none, some, List, [], ◌∷◌, ◌++◌}
use mcanbus.Base.Text.{codes}
use mcanbus.Base.Text.Decimal.{format_dec}
use mcanbus.Frame.Data.{Frame, FrameError, data_too_long, FrameKind, classic, fd, payload}
use mcanbus.Frame.Id.{CanId, standard, extended}

unfoldable pub display_error : FrameError → List ℕ
display_error (data_too_long len max) =
    codes "payload "
    ++ format_dec 0 len
    ++ codes " bytes exceeds maximum "
    ++ format_dec 0 max
    ++ codes " bytes"

abbrev pub debug_bool : Bool → List ℕ
debug_bool true = codes "true"
debug_bool false = codes "false"

abbrev pub debug_id : CanId → List ℕ
debug_id (standard id) = codes "Standard(" ++ format_dec 0 id ++ codes ")"
debug_id (extended id) = codes "Extended(" ++ format_dec 0 id ++ codes ")"

abbrev pub debug_kind : FrameKind → List ℕ
debug_kind classic = codes "Classic"
debug_kind (fd flags) =
    codes "Fd(FdFlags { brs: "
    ++ debug_bool flags.brs
    ++ codes ", esi: "
    ++ debug_bool flags.esi
    ++ codes " })"

-- The entries of a slice behind the first.
abbrev pub debug_more : List ℕ → List ℕ
debug_more [] = codes "]"
debug_more (n ∷ ns) = codes ", " ++ format_dec 0 n ++ debug_more ns

abbrev pub debug_slice : List ℕ → List ℕ
debug_slice [] = codes "[]"
debug_slice (n ∷ ns) = codes "[" ++ format_dec 0 n ++ debug_more ns

abbrev pub debug_option : Option ℕ → List ℕ
debug_option none = codes "None"
debug_option (some n) = codes "Some(" ++ format_dec 0 n ++ codes ")"

unfoldable pub debug : Frame → List ℕ
debug f =
    codes "Frame { id: "
    ++ debug_id f.id
    ++ codes ", kind: "
    ++ debug_kind f.kind
    ++ codes ", data: "
    ++ debug_slice (payload f)
    ++ codes ", timestamp_ns: "
    ++ debug_option f.timestamp_ns
    ++ codes " }"
