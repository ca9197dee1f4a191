-- ===== src/Iface/Bitrate.antt =====
-- mcanbus/src/iface.rs, `Interface::bitrate`: a number in what the `ip` command prints.
use mcanbus.Base.{
  ℕ, Bool, true, false, ◌&&◌, Option, none, some, List, [], ◌∷◌, leb, ◌==◌, if◌then◌else◌,
}
use mcanbus.Base.Text.{from_str_radix}

-- The standard output of `ip -details -json link show <name>` when it has run with success.
pub record Ip (W : Type 0) : Type 0 where
  pub output : List ℕ → W → Option (List ℕ) × W

-- `str::from_utf8`, as a test; a byte that continues a character is `10xxxxxx`.
abbrev pub continues : ℕ → Bool
continues c = leb 0x80 c && leb c 0xbf

-- The bounds of the byte behind the first one of a character with three or four bytes.
abbrev pub second_of_three : ℕ → ℕ → Bool
second_of_three a c =
    if a == 0xe0
    then leb 0xa0 c && leb c 0xbf
    else if a == 0xed
    then leb 0x80 c && leb c 0x9f
    else continues c

abbrev pub second_of_four : ℕ → ℕ → Bool
second_of_four a c =
    if a == 0xf0
    then leb 0x90 c && leb c 0xbf
    else if a == 0xf4
    then leb 0x80 c && leb c 0x8f
    else continues c

-- `pending` are the tests that the next bytes have to pass.
unfoldable pub is_utf8_after : List (ℕ → Bool) → List ℕ → Bool
is_utf8_after [] [] = true
is_utf8_after (test ∷ pending) [] = false
is_utf8_after (test ∷ pending) (c ∷ s) =
    let rest = is_utf8_after pending s in if test c then rest else false
is_utf8_after [] (a ∷ s) =
    if leb a 0x7f
    then is_utf8_after [] s
    else if leb 0xc2 a && leb a 0xdf
    then is_utf8_after (continues ∷ []) s
    else if leb 0xe0 a && leb a 0xef
    then is_utf8_after (second_of_three a ∷ continues ∷ []) s
    else if leb 0xf0 a && leb a 0xf4
    then is_utf8_after (second_of_four a ∷ continues ∷ continues ∷ []) s
    else false

-- `from_utf8(…).unwrap_or("")`.
unfoldable pub text_or_empty : List ℕ → List ℕ
text_or_empty s = if is_utf8_after [] s then s else []

abbrev pub bitrate_key : List ℕ
bitrate_key = b'"' ∷ b'b' ∷ b'i' ∷ b't' ∷ b'r' ∷ b'a' ∷ b't' ∷ b'e' ∷ b'"' ∷ b':' ∷ []

-- The text behind a prefix, and behind the first occurrence of a key.
unfoldable pub strip_prefix : List ℕ → List ℕ → Option (List ℕ)
strip_prefix [] s = some s
strip_prefix (a ∷ p) [] = none
strip_prefix (a ∷ p) (c ∷ s) = let rest = strip_prefix p s in if a == c then rest else none

unfoldable pub behind_first : List ℕ → List ℕ → Option (List ℕ)
behind_first key [] = strip_prefix key []
behind_first key (c ∷ s) = elim (strip_prefix key (c ∷ s)) [
  | some tail ↦ some tail
  | none ↦ behind_first key s
]

unfoldable pub leading_digits : List ℕ → List ℕ
leading_digits [] = []
leading_digits (c ∷ s) =
    let rest = leading_digits s in if leb b'0' c && leb c b'9' then c ∷ rest else []

-- `digits.parse::<u32>().ok()` of the digits behind the key.
unfoldable pub parsed_bitrate : List ℕ → Option ℕ
parsed_bitrate text = elim (behind_first bitrate_key text) [
  | none ↦ none
  | some tail ↦ from_str_radix 10 32 (leading_digits tail)
]

module _ {W : Type 0} (ip : Ip W) where
  open ip use {output}

  -- It never fails: without the command, or when that fails, there is no bit rate.
  unfoldable pub bitrate : List ℕ → W → Option ℕ × W
  bitrate name w = elim (output name w).0 [
    | none ↦ (none, (output name w).1)
    | some stdout ↦ (parsed_bitrate (text_or_empty stdout), (output name w).1)
  ]
