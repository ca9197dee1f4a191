-- ===== src/Frame/Id.antt =====
pub mod Masks
pub mod Laws
-- mcanbus/src/frame.rs, `CanId`: 11-bit and 29-bit identifiers and the kernel's `can_id` word.
use mcanbus.Base.{ℕ, ◌%◌, ◌^◌, ◌<◌, bit_and, bit_or, Bool, true, false, ◌!=◌, if◌then◌else◌}
use mcanbus.Consts.{can_sff_mask, can_eff_mask, can_eff_flag}

pub data CanId : Type 0 where
  standard : ℕ → CanId
  extended : ℕ → CanId

-- `CanId::standard` and `CanId::extended`, which mask; the constructors do not.
unfoldable pub new_standard : ℕ → CanId
new_standard id = standard (bit_and id can_sff_mask)

unfoldable pub new_extended : ℕ → CanId
new_extended id = extended (bit_and id can_eff_mask)

unfoldable pub raw : CanId → ℕ
raw (standard id) = id
raw (extended id) = id

unfoldable pub is_extended : CanId → Bool
is_extended (standard id) = false
is_extended (extended id) = true

unfoldable pub to_wire : CanId → ℕ
to_wire (standard id) = bit_and id can_sff_mask
to_wire (extended id) = bit_or (bit_and id can_eff_mask) can_eff_flag

-- The cast to `u16` cuts nothing off, and is written as in the source.
unfoldable pub from_wire : ℕ → CanId
from_wire wire =
    if bit_and wire can_eff_flag != 0
    then extended (bit_and wire can_eff_mask)
    else standard (bit_and wire can_sff_mask % 2 ^ 16)

-- The numbers that an 11-bit or a 29-bit field holds.
abbrev pub IsCanId : CanId → Type 0
IsCanId (standard id) = id < 2 ^ 11
IsCanId (extended id) = id < 2 ^ 29
