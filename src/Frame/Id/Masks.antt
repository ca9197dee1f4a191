-- ===== src/Frame/Id/Masks.antt =====
-- mcanbus/src/frame.rs: the masks and flags of a `can_id` word as remainders and single bits.
use mcanbus.Base.{
  ℕ, ◌+◌, ◌*◌, ◌/◌, ◌%◌, ◌^◌, ◌<◌, bit_and, bit_or, ◌≡◌, ◌!=◌, arith, bit_and_mask, bit_and_bit,
  bit_or_low_high,
}
use mcanbus.Consts.{can_sff_mask, can_eff_mask, can_eff_flag, can_rtr_flag, can_err_flag}

pub sff_mask_lem : (w : ℕ) → bit_and w can_sff_mask ≡ w % 2 ^ 11
sff_mask_lem w = bit_and_mask 11 w

pub eff_mask_lem : (w : ℕ) → bit_and w can_eff_mask ≡ w % 2 ^ 29
eff_mask_lem w = bit_and_mask 29 w

pub eff_flag_lem : (w : ℕ) → bit_and w can_eff_flag ≡ w / 2 ^ 31 % 2 * 2 ^ 31
eff_flag_lem w = bit_and_bit 31 w

pub rtr_flag_lem : (w : ℕ) → bit_and w can_rtr_flag ≡ w / 2 ^ 30 % 2 * 2 ^ 30
rtr_flag_lem w = bit_and_bit 30 w

pub err_flag_lem : (w : ℕ) → bit_and w can_err_flag ≡ w / 2 ^ 29 % 2 * 2 ^ 29
err_flag_lem w = bit_and_bit 29 w

pub or_eff_flag_lem : (x : ℕ) → x < 2 ^ 31 → bit_or x can_eff_flag ≡ 2 ^ 31 + x
or_eff_flag_lem x h = bit_or_low_high 31 1 x h

-- The tests of the flags.
pub err_flag_test : (w : ℕ) → (bit_and w can_err_flag != 0) ≡ (w / 2 ^ 29 % 2 != 0)
err_flag_test w = ground (arith, err_flag_lem w)

pub rtr_flag_test : (w : ℕ) → (bit_and w can_rtr_flag != 0) ≡ (w / 2 ^ 30 % 2 != 0)
rtr_flag_test w = ground (arith, rtr_flag_lem w)
