-- ===== src/Socket/Filter/Laws.antt =====
-- Which identifiers a filter lets through.
use mcanbus.Base.{
  ℕ, ◌+◌, ◌*◌, ◌/◌, ◌%◌, ◌^◌, ◌<◌, bit_and, bit_or, ◌≡◌, ◌↔◌, ap, ap₂, ◌∙◌, arith, bit_and_fields,
  bit_and_mask,
}
use mcanbus.Consts.{can_sff_mask, can_eff_mask, can_eff_flag}
use mcanbus.Frame.Id.{CanId, standard, extended, to_wire, raw, IsCanId}
use mcanbus.Frame.Id.Laws.{to_wire-standard, to_wire-extended}
use mcanbus.Frame.Id.Masks.{sff_mask_lem, eff_mask_lem, or_eff_flag_lem}
use mcanbus.Socket.Filter.{standard_exact, extended_exact, Matches}

-- A mask of low bits with the EFF flag reads those bits and the flag.
flag_and_mask :
    (w m : ℕ)
    → m < 2 ^ 31
    → bit_and w (2 ^ 31 + m) ≡ w / 2 ^ 31 % 2 * 2 ^ 31 + bit_and (w % 2 ^ 31) m
flag_and_mask w m h =
    ground (arith, bit_and_fields 31 (w / 2 ^ 31) (w % 2 ^ 31) 1 m, bit_and_mask 1 (w / 2 ^ 31))

sff_and_flag :
    (w : ℕ) → bit_and w (bit_or can_sff_mask can_eff_flag) ≡ w / 2 ^ 31 % 2 * 2 ^ 31 + w % 2 ^ 11
sff_and_flag w =
    omega (arith, flag_and_mask w can_sff_mask (omega arith), sff_mask_lem (w % 2 ^ 31))

eff_and_flag :
    (w : ℕ) → bit_and w (bit_or can_eff_mask can_eff_flag) ≡ w / 2 ^ 31 % 2 * 2 ^ 31 + w % 2 ^ 29
eff_and_flag w =
    omega (arith, flag_and_mask w can_eff_mask (omega arith), eff_mask_lem (w % 2 ^ 31))

-- The two sides of a match with `standard_exact`.
standard_masked_word :
    (id : ℕ) (w : ℕ)
    → Matches (standard_exact id) w ≡ (w / 2 ^ 31 % 2 * 2 ^ 31 + w % 2 ^ 11 ≡ id % 2 ^ 11)
unfolding standard_exact
standard_masked_word id w =
    ap₂ (λ (a b : ℕ). a ≡ b) (sff_and_flag w)
      (sff_and_flag (bit_and id can_sff_mask) ∙ omega (arith, sff_mask_lem id))

extended_masked_word :
    (id : ℕ) (w : ℕ)
    → Matches (extended_exact id) w ≡ (w / 2 ^ 31 % 2 * 2 ^ 31 + w % 2 ^ 29 ≡ 2 ^ 31 + id % 2 ^ 29)
unfolding extended_exact
extended_masked_word id w =
    ap₂ (λ (a b : ℕ). a ≡ b) (eff_and_flag w)
      (eff_and_flag (bit_or (bit_and id can_eff_mask) can_eff_flag)
        ∙ omega (arith, eff_mask_lem id, or_eff_flag_lem (bit_and id can_eff_mask)))

same_standard : (a b : ℕ) → standard a ≡ standard b → a ≡ b
unfolding raw
same_standard a b e = ap raw e

same_extended : (a b : ℕ) → extended a ≡ extended b → a ≡ b
unfolding raw
same_extended a b e = ap raw e

-- Of the identifiers that fit their field, `standard_exact` lets data frames through for exactly one:
-- the standard one with the low eleven bits of `id`.
Matches-standard_exact :
    (id : ℕ) (c : CanId)
    → IsCanId c
    → Matches (standard_exact id) (to_wire c) ↔ (c ≡ standard (id % 2 ^ 11))
Matches-standard_exact id (standard j) h =
    rw (standard_masked_word id (to_wire (standard j)), to_wire-standard j)
      (λ e. ap standard (omega arith), λ e. omega (arith, same_standard j (id % 2 ^ 11) e))
Matches-standard_exact id (extended j) h =
    rw (standard_masked_word id (to_wire (extended j)), to_wire-extended j)
      (λ e. absurd (omega arith), λ e. cc e)

-- Of the identifiers that fit their field, `extended_exact` lets data frames through for exactly one:
-- the extended one with the low 29 bits of `id`.
Matches-extended_exact :
    (id : ℕ) (c : CanId)
    → IsCanId c
    → Matches (extended_exact id) (to_wire c) ↔ (c ≡ extended (id % 2 ^ 29))
Matches-extended_exact id (standard j) h =
    rw (extended_masked_word id (to_wire (standard j)), to_wire-standard j)
      (λ e. absurd (omega arith), λ e. cc e)
Matches-extended_exact id (extended j) h =
    rw (extended_masked_word id (to_wire (extended j)), to_wire-extended j)
      (λ e. ap extended (omega arith), λ e. omega (arith, same_extended j (id % 2 ^ 29) e))

-- Of the identifiers that fit their field, the exact filters let data frames through for exactly one:
-- `standard_exact` for the standard one with the low eleven bits of the argument, `extended_exact`
-- for the extended one with the low 29 bits.
pub Matches-exact :
    (id : ℕ) (c : CanId)
    → IsCanId c
    → (Matches (standard_exact id) (to_wire c) ↔ (c ≡ standard (id % 2 ^ 11)))
      × (Matches (extended_exact id) (to_wire c) ↔ (c ≡ extended (id % 2 ^ 29)))
Matches-exact id c h = (Matches-standard_exact id c h, Matches-extended_exact id c h)
