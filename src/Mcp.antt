-- ===== src/Mcp.antt =====
-- socketcan-mcp/src/main.rs: the policy of the server, its arguments as frames and filters, and a
-- capture. A text is the list of its bytes; of an `McpError` the code is kept. Slices of a text
-- are taken at any byte, as of ASCII text.
pub mod Laws
pub mod Json
pub mod Runtime
pub mod Environment
pub mod Capture
pub mod Tools
pub mod Report
use mcanbus.Base.{
  ℕ, zero, suc, ◌+◌, ◌*◌, ◌%◌, ◌^◌, min, bit_or, Bool, true, false, ◌&&◌, Option, none, some, List,
  [], ◌∷◌, ◌++◌, ltb, ◌==◌, ◌!=◌, if◌then◌else◌, length,
}
use mcanbus.Base.Text.{from_str_radix, same_text, trim_pairs}
use mcanbus.Base.Results.{Result, ok, err, ◌>>=◌}
use mcanbus.Consts.{can_eff_flag}
use mcanbus.Frame.Id.{CanId, new_standard, new_extended}
use mcanbus.Frame.Data.{Frame, FrameError, new_classic, new_fd}
use mcanbus.Socket.Filter.{CanFilter}

-- `out_of_rounds` is the model's own: a loop was given too few rounds.
pub data McpError : Type 0 where
  invalid_params internal_error out_of_rounds : McpError

pub record Config : Type 0 where
  pub allowlist : List (List ℕ)
  pub readonly : Bool

pub record SendFrameInline : Type 0 where
  pub id : List ℕ
  pub extended : Bool
  pub data_hex : List ℕ
  pub fd : Bool
  pub brs : Bool

pub record FilterEntry : Type 0 where
  pub id : List ℕ
  pub mask : List ℕ
  pub extended : Bool

-- `allowlist.iter().any(|a| a == iface)`.
unfoldable pub is_listed : List (List ℕ) → List ℕ → Bool
is_listed [] iface = false
is_listed (a ∷ allowlist) iface =
    let later = is_listed allowlist iface in if same_text a iface then true else later

unfoldable pub check_iface : Config → List ℕ → Result (Unit {0}) McpError
check_iface config iface = if is_listed config.allowlist iface then ok tt else err invalid_params

unfoldable pub check_writable : Config → Result (Unit {0}) McpError
check_writable config = if config.readonly then err invalid_params else ok tt

unfoldable pub trim_hex : List ℕ → List ℕ
trim_hex s = trim_pairs b'0' b'X' (trim_pairs b'0' b'x' s)

abbrev pub or_invalid : {A : Type 0} → Option A → Result A McpError
or_invalid none = err invalid_params
or_invalid (some a) = ok a

abbrev pub or_invalid_frame : Result Frame FrameError → Result Frame McpError
or_invalid_frame (ok frame) = ok frame
or_invalid_frame (err e) = err invalid_params

unfoldable pub parse_hex_id : List ℕ → Bool → Result CanId McpError
parse_hex_id s extended = or_invalid (from_str_radix 16 32 (trim_hex s)) >>= λ raw.
    ok (if extended then new_extended raw else new_standard (raw % 2 ^ 16))

unfoldable pub parse_single_hex_byte : List ℕ → Result ℕ McpError
parse_single_hex_byte s = or_invalid (from_str_radix 16 8 (trim_hex s))

-- The bytes at the offsets 0, 2, …; the first that is none is the error of all.
unfoldable pub parse_pairs : List ℕ → Result (List ℕ) McpError
parse_pairs [] = ok []
parse_pairs (c ∷ []) = err invalid_params
parse_pairs (c ∷ d ∷ s) = or_invalid (from_str_radix 16 8 (c ∷ d ∷ [])) >>= λ byte.
    parse_pairs s >>= λ bytes. ok (byte ∷ bytes)

unfoldable pub parse_hex_bytes : List ℕ → Result (List ℕ) McpError
parse_hex_bytes s =
    if length (trim_hex s) % 2 != 0 then err invalid_params else parse_pairs (trim_hex s)

unfoldable pub build_frame : SendFrameInline → Result Frame McpError
build_frame args = parse_hex_id args.id args.extended >>= λ id.
    parse_hex_bytes args.data_hex >>= λ bytes. or_invalid_frame (
      if args.fd
      then new_fd id bytes (record { brs = args.brs; esi = false })
      else new_classic id bytes)

unfoldable pub build_filter : FilterEntry → Result CanFilter McpError
build_filter e = or_invalid (from_str_radix 16 32 (trim_pairs b'0' b'x' e.id)) >>= λ id.
    or_invalid (from_str_radix 16 32 (trim_pairs b'0' b'x' e.mask)) >>= λ mask. ok (
      if e.extended
      then record { id = bit_or id can_eff_flag; mask = bit_or mask can_eff_flag }
      else record { id = id; mask = mask })

unfoldable pub build_filters : List FilterEntry → Result (List CanFilter) McpError
build_filters [] = ok []
build_filters (e ∷ entries) =
    build_filter e >>= λ filter. build_filters entries >>= λ filters. ok (filter ∷ filters)
