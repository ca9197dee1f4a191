-- ===== src/Mcp/Environment.antt =====
-- socketcan-mcp/src/main.rs, `Config::from_env`. A variable that is not set, or is no UTF-8, is `none`;
-- white space is that of ASCII.
pub mod RoundTrip
use mcanbus.Base.{
  ℕ, ◌+◌, Bool, true, false, ◌&&◌, ◌||◌, Option, none, some, List, [], ◌∷◌, map, leb, ◌==◌,
  if◌then◌else◌, length,
}
use mcanbus.Base.Text.{trim, same_text, split_commas}
use mcanbus.Mcp.{Config}

-- `unwrap_or_default`.
abbrev pub or_empty : Option (List ℕ) → List ℕ
or_empty none = []
or_empty (some s) = s

-- `.map(|s| s.trim().to_string()).filter(|s| !s.is_empty()).collect()`.
unfoldable pub trimmed_names : List (List ℕ) → List (List ℕ)
trimmed_names [] = []
trimmed_names (part ∷ parts) =
    let names = trimmed_names parts in if length (trim part) == 0 then names else trim part ∷ names

-- `to_ascii_lowercase`.
abbrev pub to_ascii_lowercase : ℕ → ℕ
to_ascii_lowercase c = if leb b'A' c && leb c b'Z' then c + 32 else c

-- `matches!(…, "1" | "true" | "yes" | "on")`.
unfoldable pub is_affirmative : List ℕ → Bool
is_affirmative s =
    same_text s (b'1' ∷ [])
    || same_text s (b't' ∷ b'r' ∷ b'u' ∷ b'e' ∷ [])
    || same_text s (b'y' ∷ b'e' ∷ b's' ∷ [])
    || same_text s (b'o' ∷ b'n' ∷ [])

-- The variables are `SOCKETCAN_MCP_INTERFACES` and `SOCKETCAN_MCP_READONLY`.
unfoldable pub from_env : Option (List ℕ) → Option (List ℕ) → Config
from_env interfaces readonly = record {
  allowlist = trimmed_names (split_commas (or_empty interfaces));
  readonly = is_affirmative (map to_ascii_lowercase (or_empty readonly));
}
