-- ===== src/Mcp/Environment/RoundTrip.antt =====
-- socketcan-mcp/src/main.rs: the allowlist that the environment gives.
use mcanbus.Base.{
  ℕ, ◌≡◌, ◌<◌, refl, false, Option, none, some, List, [], ◌∷◌, All, All-imp, ◌==◌, length, pos→==,
}
use mcanbus.Base.Text.Split.{NotByte, join_commas, split_commas-append, split_commas-part}
use mcanbus.Base.Text.{split_commas, trim, trim_start, trim_end, is_white_space}
use mcanbus.Mcp.Environment.{from_env, trimmed_names}

-- A byte of a name: of ASCII, and neither a comma nor white space.
abbrev pub IsPlain : ℕ → Type 0
IsPlain c = ((c == b',') ≡ false) × (is_white_space c ≡ false) × (c < 128)

abbrev pub IsName : List ℕ → Type 0
IsName name = (0 < length name) × All IsPlain name

no_commas : (name : List ℕ) → All IsPlain name → All (NotByte b',') name
no_commas name plain = All-imp name (λ c p. p.0) plain

trim_end-IsPlain : (s : List ℕ) → All IsPlain s → trim_end s ≡ s
unfolding trim_end
trim_end-IsPlain [] plain = refl
trim_end-IsPlain (c ∷ []) (first, plain) = rw first.1 refl
trim_end-IsPlain (c ∷ d ∷ s) (first, plain) = rw (trim_end-IsPlain (d ∷ s) plain) refl

trim-IsPlain : (s : List ℕ) → All IsPlain s → trim s ≡ s
unfolding trim trim_start
trim-IsPlain [] plain = refl
trim-IsPlain (c ∷ s) (first, plain) = rw first.1 (trim_end-IsPlain (c ∷ s) (first, plain))

-- A list of names is trimmed to itself.
trimmed_names-cons :
    (name : List ℕ) (parts : List (List ℕ))
    → IsName name
    → trimmed_names (name ∷ parts) ≡ name ∷ trimmed_names parts
unfolding trimmed_names
trimmed_names-cons name parts (long, plain) =
    rw (trim-IsPlain name plain, pos→== (length name) long) refl

trimmed_names-join_commas :
    (names : List (List ℕ))
    → All IsName names
    → trimmed_names (split_commas (join_commas names)) ≡ names
unfolding trimmed_names split_commas trim trim_start trim_end
trimmed_names-join_commas [] ok = refl
trimmed_names-join_commas (name ∷ []) (first, ok) =
    rw (split_commas-part name (no_commas name first.1), trimmed_names-cons name [] first) refl
trimmed_names-join_commas (name ∷ other ∷ names) (first, ok) =
    rw
      (
        split_commas-append name (join_commas (other ∷ names)) (no_commas name first.1),
        trimmed_names-cons name (split_commas (join_commas (other ∷ names))) first,
        trimmed_names-join_commas (other ∷ names) ok,
      )
      refl

-- The names that a variable lists with commas between them, none of them empty, in ASCII and
-- without commas or white space in them, are the allowlist, in their order; without the variable
-- it is empty.
pub from_env-join_commas :
    (names : List (List ℕ)) (readonly : Option (List ℕ))
    → All IsName names
    → ((from_env (some (join_commas names)) readonly).allowlist ≡ names)
      × ((from_env none readonly).allowlist ≡ [])
unfolding from_env
from_env-join_commas names readonly ok =
    (trimmed_names-join_commas names ok, trimmed_names-join_commas [] tt)
