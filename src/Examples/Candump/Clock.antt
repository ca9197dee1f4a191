-- ===== src/Examples/Candump/Clock.antt =====
-- examples/candump.rs: the time of day in a line.
use mcanbus.Base.{
  ℕ, ◌/◌, ◌%◌, ◌^◌, ◌<◌, ◌≡◌, ◌↔◌, sym, ap, ◌∙◌, arith, List, ◌∷◌, ◌++◌, append-injective,
}
use mcanbus.Base.Text.Decimal.{dec_fixed, format_dec-fixed, length-dec_fixed, dec_fixed-injective}
use mcanbus.Examples.Candump.{format_timestamp}

-- The microsecond of the day, in UTC.
abbrev pub of_day : ℕ → ℕ
of_day ns = ns / 1_000 % 86_400_000_000

-- The four numbers that are printed.
abbrev Fields : Type 0
Fields = ℕ × ℕ × ℕ × ℕ

abbrev fields : ℕ → Fields
fields t = (t / 3_600_000_000, t / 60_000_000 % 60, t / 1_000_000 % 60, t % 1_000_000)

abbrev digits : Fields → List ℕ
digits (h, m, s, micros) =
    dec_fixed 2 h ++ (b':' ∷ dec_fixed 2 m ++ (b':' ∷ dec_fixed 2 s ++ (b'.' ∷ dec_fixed 6 micros)))

hours : (ns : ℕ) → ns / 1_000_000_000 / 3600 % 24 ≡ of_day ns / 3_600_000_000
hours ns = omega arith

minutes : (ns : ℕ) → ns / 1_000_000_000 / 60 % 60 ≡ of_day ns / 60_000_000 % 60
minutes ns = omega arith

seconds : (ns : ℕ) → ns / 1_000_000_000 % 60 ≡ of_day ns / 1_000_000 % 60
seconds ns = omega arith

micros : (ns : ℕ) → ns % 1_000_000_000 / 1_000 ≡ of_day ns % 1_000_000
micros ns = omega arith

format_timestamp-digits : (ns : ℕ) → format_timestamp ns ≡ digits (fields (of_day ns))
unfolding format_timestamp
format_timestamp-digits ns =
    rw
      (
        format_dec-fixed 2 (ns / 1_000_000_000 / 3600 % 24) (omega arith) (omega arith),
        format_dec-fixed 2 (ns / 1_000_000_000 / 60 % 60) (omega arith) (omega arith),
        format_dec-fixed 2 (ns / 1_000_000_000 % 60) (omega arith) (omega arith),
        format_dec-fixed 6 (ns % 1_000_000_000 / 1_000) (omega arith) (omega arith),
      )
      (ap digits (λ i. (hours ns i, minutes ns i, seconds ns i, micros ns i)))

-- As many digits, then a sign, then the rest.
next_field :
    (k a b : ℕ) (sign : ℕ) (s t : List ℕ)
    → a < 10 ^ k
    → b < 10 ^ k
    → a < 2 ^ 64
    → b < 2 ^ 64
    → dec_fixed k a ++ sign ∷ s ≡ dec_fixed k b ++ sign ∷ t
    → (a ≡ b) × (s ≡ t)
next_field k a b sign s t h h' fits fits' e =
    let parts =
      append-injective (dec_fixed k a) (dec_fixed k b) (sign ∷ s) (sign ∷ t)
        (length-dec_fixed k a ∙ sym (length-dec_fixed k b)) e in
    (dec_fixed-injective k a b h h' fits fits' parts.0, cc (parts.1))

digits-injective :
    (t t' : ℕ)
    → t < 86_400_000_000
    → t' < 86_400_000_000
    → digits (fields t) ≡ digits (fields t')
    → t ≡ t'
digits-injective t t' h h' e =
    let (h₀, e₁) =
      next_field 2 _ _ b':' _ _ (omega arith) (omega arith) (omega arith) (omega arith) e in
    let (h₁, e₂) =
      next_field 2 _ _ b':' _ _ (omega arith) (omega arith) (omega arith) (omega arith) e₁ in
    let (h₂, e₃) =
      next_field 2 _ _ b'.' _ _ (omega arith) (omega arith) (omega arith) (omega arith) e₂ in
    let h₃ =
      dec_fixed-injective 6 (t % 1_000_000) (t' % 1_000_000) (omega arith) (omega arith)
        (omega arith) (omega arith) e₃ in
    omega arith

-- Two time stamps are printed alike exactly when they lie in the same microsecond of a day.
pub format_timestamp-of_day :
    (a b : ℕ) → (format_timestamp a ≡ format_timestamp b) ↔ (of_day a ≡ of_day b)
format_timestamp-of_day a b = (
  λ e.
      digits-injective (of_day a) (of_day b) (omega arith) (omega arith)
        (sym (format_timestamp-digits a) ∙ (e ∙ format_timestamp-digits b)),
  λ e.
      format_timestamp-digits a ∙ (ap (λ t. digits (fields t)) e ∙ sym (format_timestamp-digits b)),
)
