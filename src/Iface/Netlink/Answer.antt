-- ===== src/Iface/Netlink/Answer.antt =====
-- mcanbus/src/iface.rs, `Interface::state`: from the kernel's answer to the state of the controller.
use mcanbus.Base.{ℕ, ◌≡◌, refl, some, List, ◌++◌}
use mcanbus.Base.Results.{ok}
use mcanbus.Io.{proceed}
use mcanbus.Socket.Kernel.{Kernel}
use mcanbus.Iface.State.{
  CanState, error_active, error_warning, error_passive, bus_off, stopped, sleeping, from_raw,
  to_raw,
}
use mcanbus.Iface.Attr.RoundTrip.{Attr, encode}
use mcanbus.Iface.Reply.Laws.{Message, SaysState, state_reply-encode}
use mcanbus.Iface.Netlink.{
  Netlink, nl_exchange, state_request, get_can_state_raw, index, state, and_then_from_raw,
}

from_raw-to_raw : (s : CanState) → from_raw (to_raw s) ≡ some s
unfolding from_raw
from_raw-to_raw error_active = refl
from_raw-to_raw error_warning = refl
from_raw-to_raw error_passive = refl
from_raw-to_raw bus_off = refl
from_raw-to_raw stopped = refl
from_raw-to_raw sleeping = refl

-- When the kernel answers the request about an interface with a message that says the state of its
-- controller, at whatever place among other attributes, `state` returns that state.
pub state-SaysState :
    (k : Kernel) (nl : Netlink k) (name : List ℕ) (idx : ℕ) (s : CanState) (head : List ℕ)
    (attrs : List Attr) (w w₁ w₂ : k.World)
    → Message k.endian head attrs
    → SaysState k.endian attrs (to_raw s)
    → index k nl name w ≡ (ok idx, w₁)
    → nl_exchange k nl (state_request k nl idx) 8192 w₁ ≡ (ok (head ++ encode k.endian attrs), w₂)
    → state k nl name w ≡ (ok (some s), w₂)
unfolding state get_can_state_raw and_then_from_raw
state-SaysState k nl name idx s head attrs w w₁ w₂ m says found answer =
    rw
      (
        found,
        proceed,
        answer,
        proceed,
        state_reply-encode k.endian head attrs m (to_raw s) says,
        from_raw-to_raw s,
      )
      refl
