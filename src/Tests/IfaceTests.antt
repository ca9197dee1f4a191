-- ===== src/Tests/IfaceTests.antt =====
-- mcanbus/src/iface.rs on a message about a CAN device that is in the error-passive state.
use mcanbus.Base.{
  false, Option, none, true, ◌==◌, if◌then◌else◌, get_or, ℕ, ◌-◌, ◌^◌, ◌≡◌, refl, arith, some, List,
  [], ◌∷◌, ◌++◌, replicate, IsBytes,
}
use mcanbus.Base.Text.{same_text, text_le, trim}
use mcanbus.Iface.Sysfs.{
  Files, insert, sort, is_can_type, is_can_device, collect_devices, list_can_interfaces,
}
use mcanbus.Iface.Sysfs.Laws.{
  IsSorted, count, known, readable, is_can, IsSteady, list_can_interfaces-IsSorted,
}
use mcanbus.Base.Text.{from_str_radix, scan}
use mcanbus.Iface.Bitrate.{
  Ip, parsed_bitrate, behind_first, strip_prefix, leading_digits, text_or_empty, is_utf8_after,
}
use mcanbus.Mcp.{Config}
use mcanbus.Mcp.Report.Ledger.{ReportLedger}
use mcanbus.Base.Results.{ok, err}
use mcanbus.Io.{os}
use mcanbus.Frame.Wire.Bytes.{little, u16_to_ne_bytes, u32_to_ne_bytes, u16_from_ne_bytes}
use mcanbus.Iface.State.{error_passive, to_raw}
use mcanbus.Iface.Attr.{nl_find_attr}
use mcanbus.Iface.Attr.RoundTrip.{Attr, encode, nl_find_attr-encode}
use mcanbus.Iface.Reply.{set_reply}
use mcanbus.Iface.Reply.Laws.{Message, SaysState, set_reply-ack}
use mcanbus.Iface.Netlink.{
  set_up, set_down, cycle, state, index, nl_exchange, state_request, or_close, answered, has_nul,
}
use mcanbus.Iface.Netlink.Ledger.{Keeps, operations-Keeps}
use mcanbus.Iface.Netlink.Answer.{state-SaysState}
use mcanbus.Tests.Host.{Host, host, host-Ledger, netlink, netlink-NetlinkLedger}

abbrev details : List Attr
details = record { nla_type = 4; payload = 2 ∷ 0 ∷ 0 ∷ 0 ∷ [] } ∷ []

abbrev info : List Attr
info =
    record { nla_type = 1; payload = b'c' ∷ b'a' ∷ b'n' ∷ 0 ∷ [] }
    ∷ record { nla_type = 2; payload = encode little details }
    ∷ []

abbrev attrs : List Attr
attrs =
    record { nla_type = 3; payload = b'c' ∷ b'a' ∷ b'n' ∷ b'0' ∷ 0 ∷ [] }
    ∷ record { nla_type = 0x8012; payload = encode little info }
    ∷ []

-- `RTM_NEWLINK`, the device 5.
abbrev head : List ℕ
head = 32 ∷ 0 ∷ 0 ∷ 0 ∷ 16 ∷ replicate 15 0 ++ 5 ∷ replicate 11 0

head-Message : Message little head attrs
unfolding encode u16_to_ne_bytes u16_from_ne_bytes
head-Message = record { head_len = refl; no_error = λ same. omega (arith, same); fit = omega arith }

attrs-SaysState : SaysState little attrs (to_raw error_passive)
unfolding encode u16_to_ne_bytes u32_to_ne_bytes
attrs-SaysState = record {
  info = info;
  details = details;
  tail = [];
  state_fits = omega arith;
  info_fit = omega arith;
  details_fit = omega arith;
  at_linkinfo = refl;
  at_kind = refl;
  at_data = refl;
  at_state = refl;
}

abbrev can0 : List ℕ
can0 = b'c' ∷ b'a' ∷ b'n' ∷ b'0' ∷ []

abbrev answer : List ℕ
answer = head ++ encode little attrs

abbrev idle : Host
idle = record { open_fds = []; inbox = []; outbox = []; clock = 0; queues = λ tx. [] }

abbrev asked : Host
asked = record idle { outbox = state_request host (netlink answer) 5 ∷ [] }

index_test : index host (netlink answer) can0 idle ≡ (ok 5, idle)
unfolding index has_nul
index_test = refl

exchange_test :
    nl_exchange host (netlink answer) (state_request host (netlink answer) 5) 8192 idle
    ≡ (ok answer, asked)
unfolding nl_exchange or_close answered encode u16_to_ne_bytes
exchange_test = refl

state-SaysState_example : state host (netlink answer) can0 idle ≡ (ok (some error_passive), asked)
state-SaysState_example =
    state-SaysState host (netlink answer) can0 5 error_passive head attrs idle idle asked
      head-Message attrs-SaysState index_test exchange_test

nl_find_attr-encode_example :
    nl_find_attr little (encode little attrs) 18 ≡ some (encode little info)
nl_find_attr-encode_example = nl_find_attr-encode little attrs 18 head-Message.fit

answer-IsBytes : IsBytes answer
unfolding encode u16_to_ne_bytes
answer-IsBytes = omega arith

abbrev ack : List ℕ
ack = 36 ∷ 0 ∷ 0 ∷ 0 ∷ 2 ∷ replicate 11 0

set_reply-ack_example :
    set_reply little (ack ++ (u32_to_ne_bytes little (2 ^ 32 - 1) ++ [])) ≡ err (os 1)
unfolding u16_from_ne_bytes
set_reply-ack_example = set_reply-ack little ack [] 1 refl refl (omega arith)

operations-Keeps_example :
    Keeps host
      (netlink answer)
      host-Ledger
      (netlink-NetlinkLedger answer)
      idle
      (set_up host (netlink answer) can0 idle)
    × Keeps host
        (netlink answer)
        host-Ledger
        (netlink-NetlinkLedger answer)
        idle
        (set_down host (netlink answer) can0 idle)
    × Keeps host
        (netlink answer)
        host-Ledger
        (netlink-NetlinkLedger answer)
        idle
        (cycle host (netlink answer) can0 idle)
    × Keeps host
        (netlink answer)
        host-Ledger
        (netlink-NetlinkLedger answer)
        idle
        (state host (netlink answer) can0 idle)
operations-Keeps_example =
    operations-Keeps host (netlink answer) host-Ledger (netlink-NetlinkLedger answer) can0 idle

-- A directory with `vcan0`, `eth0`, a name that is no UTF-8, and `can0`; the type of a device is told
-- by the third letter of its path behind the directory's.
abbrev vcan0 : List ℕ
vcan0 = b'v' ∷ can0

abbrev eth0 : List ℕ
eth0 = b'e' ∷ b't' ∷ b'h' ∷ b'0' ∷ []

abbrev type_text : List ℕ → List ℕ
type_text path = if get_or path 17 0 == b'h' then b'1' ∷ 10 ∷ [] else b'2' ∷ b'8' ∷ b'0' ∷ 10 ∷ []

abbrev entries : List (Option (List ℕ))
entries = some vcan0 ∷ some eth0 ∷ none ∷ some can0 ∷ []

abbrev files : Files (Unit {0})
files = record {
  read_to_string = λ path w. (ok (type_text path), w);
  read_dir = λ path w. (ok (readable entries), w);
  exists = λ path w. (true, w);
}

files-IsSteady : IsSteady files
files-IsSteady = record { exists_keeps = λ path w. refl; read_keeps = λ path w. refl }

abbrev open_names : List (List ℕ)
open_names = can0 ∷ vcan0 ∷ []

listed_test : list_can_interfaces files tt ≡ (ok open_names, tt)
unfolding list_can_interfaces collect_devices is_can_device is_can_type sort insert same_text
    text_le trim
listed_test = refl

list_can_interfaces-IsSorted_example :
    (names : List (List ℕ)) × (list_can_interfaces files tt ≡ (ok names, tt))
    × IsSorted names
    × ((x : List ℕ)
        → count x names ≡ (if is_can files files-IsSteady x tt then count x (known entries) else 0))
list_can_interfaces-IsSorted_example =
    list_can_interfaces-IsSorted files files-IsSteady entries tt tt refl

-- `"bitrate":500000}` somewhere in what the command prints.
abbrev link_text : List ℕ
link_text =
    b'[' ∷ b'"' ∷ b'b' ∷ b'i' ∷ b't' ∷ b'r' ∷ b'a' ∷ b't' ∷ b'e' ∷ b'"' ∷ b':' ∷ b'5' ∷ b'0' ∷ b'0'
    ∷ b'0' ∷ b'0' ∷ b'0' ∷ b'}' ∷ []

bitrate_test : parsed_bitrate (text_or_empty link_text) ≡ some 500000
unfolding parsed_bitrate behind_first strip_prefix leading_digits text_or_empty is_utf8_after
    from_str_radix scan
bitrate_test = refl

abbrev host_files : Files Host
host_files = record {
  read_to_string = λ path w. (ok (type_text path), w);
  read_dir = λ path w. (ok (readable entries), w);
  exists = λ path w. (true, w);
}

abbrev host_ip : Ip Host
host_ip = record { output = λ name w. (some link_text, w) }

host-ReportLedger : ReportLedger host host-Ledger host_files host_ip
host-ReportLedger = record {
  read_keeps = λ path w. refl;
  dir_keeps = λ path w. refl;
  exists_keeps = λ path w. refl;
  output_keeps = λ name w. refl;
}

abbrev server : Config
server = record { allowlist = []; readonly = false }
