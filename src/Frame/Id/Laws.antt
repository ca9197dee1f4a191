-- ===== src/Frame/Id/Laws.antt =====
-- mcanbus/src/frame.rs: identifiers and their wire words.
use mcanbus.Base.{ℕ, ◌+◌, ◌/◌, ◌%◌, ◌^◌, ◌<◌, bit_and, ◌≡◌, arith, ◌!=◌, if◌then◌else◌}
use mcanbus.Consts.{can_eff_mask}
use mcanbus.Frame.Id.{CanId, standard, extended, to_wire, from_wire, IsCanId}
use mcanbus.Frame.Id.Masks.{sff_mask_lem, eff_mask_lem, eff_flag_lem, or_eff_flag_lem}

pub to_wire-standard : (id : ℕ) → to_wire (standard id) ≡ id % 2 ^ 11
unfolding to_wire
to_wire-standard id = sff_mask_lem id

pub to_wire-extended : (id : ℕ) → to_wire (extended id) ≡ 2 ^ 31 + id % 2 ^ 29
unfolding to_wire
to_wire-extended id = omega (arith, eff_mask_lem id, or_eff_flag_lem (bit_and id can_eff_mask))

-- A word is read by its EFF bit.
pub from_wire_lem :
    (w : ℕ)
    → from_wire w ≡ (if w / 2 ^ 31 % 2 != 0 then extended (w % 2 ^ 29) else standard (w % 2 ^ 11))
unfolding from_wire
from_wire_lem w = ground (arith, eff_flag_lem w, eff_mask_lem w, sff_mask_lem w)

pub to_wire-lt : (id : CanId) → to_wire id < 2 ^ 32
to_wire-lt (standard id) = omega (arith, to_wire-standard id)
to_wire-lt (extended id) = omega (arith, to_wire-extended id)

-- Reading the wire word of an identifier whose number fits its field gives it back.
pub from_wire-to_wire : (id : CanId) → IsCanId id → from_wire (to_wire id) ≡ id
from_wire-to_wire (standard id) h =
    ground (arith, to_wire-standard id, from_wire_lem (to_wire (standard id)))
from_wire-to_wire (extended id) h =
    ground (arith, to_wire-extended id, from_wire_lem (to_wire (extended id)))

pub from_wire-IsCanId : (w : ℕ) → IsCanId (from_wire w)
from_wire-IsCanId w = rw (from_wire_lem w) (ground arith)
