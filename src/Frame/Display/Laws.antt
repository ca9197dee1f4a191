-- ===== src/Frame/Display/Laws.antt =====
-- mcanbus/src/frame.rs: the text of a frame says which frame it is.
use mcanbus.Base.{
  ℕ, ◌/◌, ◌%◌, ◌^◌, ◌<◌, ◌≡◌, refl, sym, ap, ◌∙◌, arith, List, [], ◌∷◌, ◌++◌, All, All-take,
  IsBytes, length,
}
use mcanbus.Base.Text.{upper_digit, format_hex, hex_text, from_str_radix}
use mcanbus.Base.Text.Laws.{
  IsPrinted, format_hex-IsPrinted, hex_text-IsPrinted, format_hex-byte, format_hex-nibble,
  length-format_hex, upper_digit-injective, from_str_radix-format_hex,
}
use mcanbus.Frame.Id.{CanId, standard, extended, IsCanId}
use mcanbus.Frame.Data.{
  Frame, FrameKind, FdFlags, classic, fd, flags_to_wire, flags_from_wire, payload, IsFrame,
}
use mcanbus.Frame.Data.Laws.{flags_from_wire-flags_to_wire}
use mcanbus.Frame.Display.{display_id, display_kind, display}

-- At the first `#`.
split_at_mark :
    (s t u v : List ℕ)
    → All IsPrinted s
    → All IsPrinted t
    → s ++ b'#' ∷ u ≡ t ++ b'#' ∷ v
    → (s ≡ t) × (u ≡ v)
split_at_mark [] [] u v p q e = (refl, cc e)
split_at_mark [] (d ∷ t) u v p q e = let same : 35 ≡ d = cc e in absurd (omega (arith, same, q.0))
split_at_mark (c ∷ s) [] u v p q e = let same : c ≡ 35 = cc e in absurd (omega (arith, same, p.0))
split_at_mark (c ∷ s) (d ∷ t) u v p q e =
    let rest = split_at_mark s t u v p.1 q.1 (cc e) in
    let head : c ≡ d = cc e in let tail : s ≡ t = rest.0 in (cc (head, tail), rest.1)

no_digits : {c d : ℕ} {s : List ℕ} → ¬ ([] ≡ c ∷ d ∷ s)
no_digits e = cc e

-- No text of digits begins with `#`.
no_mark : (s t : List ℕ) → All IsPrinted s → ¬ (s ≡ b'#' ∷ t)
no_mark [] t p e = absurd (cc e)
no_mark (c ∷ s) t p e = let same : c ≡ 35 = cc e in absurd (omega (arith, same, p.0))

format_hex-injective :
    (width m n : ℕ) → m < 2 ^ 32 → n < 2 ^ 32 → format_hex width m ≡ format_hex width n → m ≡ n
format_hex-injective width m n h k e =
    let read_m = from_str_radix-format_hex 32 width m h h in
    let read_n = from_str_radix-format_hex 32 width n k k in
    cc (ap (from_str_radix 16 32) e, read_m, read_n)

display_id-injective : (a b : CanId) → IsCanId a → IsCanId b → display_id a ≡ display_id b → a ≡ b
unfolding display_id
display_id-injective (standard m) (standard n) h k e =
    ap standard (format_hex-injective 3 m n (omega arith) (omega arith) e)
display_id-injective (extended m) (extended n) h k e =
    ap extended (format_hex-injective 8 m n (omega arith) (omega arith) e)
display_id-injective (standard m) (extended n) h k e = absurd (
    omega (
      arith,
      ap length e,
      length-format_hex 3 m (omega arith) (omega arith) (omega arith),
      length-format_hex 8 n (omega arith) (omega arith) (omega arith),
    ))
display_id-injective (extended m) (standard n) h k e = absurd (
    omega (
      arith,
      ap length e,
      length-format_hex 8 m (omega arith) (omega arith) (omega arith),
      length-format_hex 3 n (omega arith) (omega arith) (omega arith),
    ))

hex_text-cons :
    (b : ℕ) (p : List ℕ)
    → b < 256
    → hex_text (b ∷ p) ≡ upper_digit (b / 16) ∷ upper_digit (b % 16) ∷ hex_text p
unfolding hex_text
hex_text-cons b p h = rw (format_hex-byte b h) refl

hex_text-injective : (p q : List ℕ) → IsBytes p → IsBytes q → hex_text p ≡ hex_text q → p ≡ q
unfolding hex_text
hex_text-injective [] [] h k e = refl
hex_text-injective [] (c ∷ q) h k e = absurd (no_digits (e ∙ hex_text-cons c q k.0))
hex_text-injective (b ∷ p) [] h k e = absurd (no_digits (sym e ∙ hex_text-cons b p h.0))
hex_text-injective (b ∷ p) (c ∷ q) h k e =
    let shown = sym (hex_text-cons b p h.0) ∙ e ∙ hex_text-cons c q k.0 in
    let high : b / 16 ≡ c / 16 =
      upper_digit-injective (b / 16) (c / 16) (omega (arith, h.0)) (omega (arith, k.0))
        (cc shown) in
    let low : b % 16 ≡ c % 16 =
      upper_digit-injective (b % 16) (c % 16) (omega arith) (omega arith) (cc shown) in
    let first : b ≡ c = omega (arith, high, low) in
    let rest : p ≡ q = hex_text-injective p q h.1 k.1 (cc shown) in cc (first, rest)

-- What stands behind the first `#`.
abbrev behind : FrameKind → List ℕ → List ℕ
behind classic t = t
behind (fd flags) t = b'#' ∷ (format_hex 0 (flags_to_wire flags) ++ t)

flags_to_wire-lt : (flags : FdFlags) → flags_to_wire flags < 16
unfolding flags_to_wire
flags_to_wire-lt flags = ground arith

shown_flags :
    (f g : FdFlags) (s t : List ℕ)
    → format_hex 0 (flags_to_wire f) ++ s ≡ format_hex 0 (flags_to_wire g) ++ t
    → (f ≡ g) × (s ≡ t)
shown_flags f g s t e =
    let shown =
      sym (ap (λ (d : List ℕ). d ++ s) (format_hex-nibble (flags_to_wire f) (flags_to_wire-lt f)))
      ∙ e
      ∙ ap (λ (d : List ℕ). d ++ t) (format_hex-nibble (flags_to_wire g) (flags_to_wire-lt g)) in
    let wires : flags_to_wire f ≡ flags_to_wire g =
      upper_digit-injective (flags_to_wire f) (flags_to_wire g) (flags_to_wire-lt f)
        (flags_to_wire-lt g) (cc shown) in
    (
      sym (flags_from_wire-flags_to_wire f)
          ∙ ap flags_from_wire wires
          ∙ flags_from_wire-flags_to_wire g,
      cc shown,
    )

behind-injective :
    (a b : FrameKind) (s t : List ℕ)
    → All IsPrinted s
    → All IsPrinted t
    → behind a s ≡ behind b t
    → (a ≡ b) × (s ≡ t)
behind-injective classic classic s t p q e = (refl, e)
behind-injective classic (fd g) s t p q e = absurd (no_mark s _ p e)
behind-injective (fd f) classic s t p q e = absurd (no_mark t _ q (sym e))
behind-injective (fd f) (fd g) s t p q e =
    let same = shown_flags f g s t (cc e) in (ap fd same.0, same.1)

display_id-IsPrinted : (id : CanId) → All IsPrinted (display_id id)
unfolding display_id
display_id-IsPrinted (standard id) = format_hex-IsPrinted 3 id
display_id-IsPrinted (extended id) = format_hex-IsPrinted 8 id

layout :
    (kind : FrameKind) (s t : List ℕ) → s ++ (display_kind kind ++ t) ≡ s ++ b'#' ∷ behind kind t
unfolding display_kind
layout classic s t = refl
layout (fd flags) s t = refl

-- Well-formed frames that print alike have the same identifier, the same kind with its flags, and the
-- same payload.
pub display-injective :
    (f g : Frame)
    → IsFrame f
    → IsFrame g
    → display f ≡ display g
    → (f.id ≡ g.id) × (f.kind ≡ g.kind) × (payload f ≡ payload g)
unfolding display payload
display-injective f g f_ok g_ok e =
    let parts =
      split_at_mark (display_id f.id) (display_id g.id) (behind f.kind (hex_text (payload f)))
        (behind g.kind (hex_text (payload g))) (display_id-IsPrinted f.id)
        (display_id-IsPrinted g.id)
        (sym (layout f.kind (display_id f.id) (hex_text (payload f)))
          ∙ e
          ∙ layout g.kind (display_id g.id) (hex_text (payload g))) in
    let rest =
      behind-injective f.kind g.kind (hex_text (payload f)) (hex_text (payload g))
        (hex_text-IsPrinted (payload f)) (hex_text-IsPrinted (payload g)) parts.1 in
    (
      display_id-injective f.id g.id f_ok.id_fits g_ok.id_fits parts.0,
      rest.0,
      hex_text-injective (payload f) (payload g) (All-take _ f.len f.data_buf f_ok.buf_bytes)
          (All-take _ g.len g.data_buf g_ok.buf_bytes) rest.1,
    )
