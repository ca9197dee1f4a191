-- ===== src/Socket/Filter.antt =====
-- mcanbus/src/socket.rs, `CanFilter`.
pub mod Laws
use mcanbus.Base.{ℕ, ◌≡◌, bit_and, bit_or}
use mcanbus.Consts.{can_sff_mask, can_eff_mask, can_eff_flag}

pub record CanFilter : Type 0 where
  pub id : ℕ
  pub mask : ℕ

unfoldable pub standard_exact : ℕ → CanFilter
standard_exact id = record { id = bit_and id can_sff_mask; mask = bit_or can_sff_mask can_eff_flag }

unfoldable pub extended_exact : ℕ → CanFilter
extended_exact id = record {
  id = bit_or (bit_and id can_eff_mask) can_eff_flag;
  mask = bit_or can_eff_mask can_eff_flag;
}

unfoldable pub standard_masked : ℕ → ℕ → CanFilter
standard_masked pattern' mask = record {
  id = bit_and pattern' can_sff_mask;
  mask = bit_or (bit_and mask can_sff_mask) can_eff_flag;
}

-- When the kernel delivers a frame, as linux/can.h documents it.
abbrev pub Matches : CanFilter → ℕ → Type 0
Matches filter can_id = bit_and can_id filter.mask ≡ bit_and filter.id filter.mask
