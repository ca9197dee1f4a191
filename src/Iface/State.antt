-- ===== src/Iface/State.antt =====
-- mcanbus/src/iface.rs, `CanState`.
use mcanbus.Base.{ℕ, Option, none, some, ◌==◌, if◌then◌else◌}
use mcanbus.Consts.{
  can_state_error_active, can_state_error_warning, can_state_error_passive, can_state_bus_off,
  can_state_stopped, can_state_sleeping,
}

pub data CanState : Type 0 where
  error_active error_warning error_passive bus_off stopped sleeping : CanState

unfoldable pub from_raw : ℕ → Option CanState
from_raw v =
    if v == can_state_error_active
    then some error_active
    else if v == can_state_error_warning
    then some error_warning
    else if v == can_state_error_passive
    then some error_passive
    else if v == can_state_bus_off
    then some bus_off
    else if v == can_state_stopped
    then some stopped
    else if v == can_state_sleeping
    then some sleeping
    else none

-- The number that the kernel has for a state (linux/can/netlink.h).
abbrev pub to_raw : CanState → ℕ
to_raw error_active = can_state_error_active
to_raw error_warning = can_state_error_warning
to_raw error_passive = can_state_error_passive
to_raw bus_off = can_state_bus_off
to_raw stopped = can_state_stopped
to_raw sleeping = can_state_sleeping
