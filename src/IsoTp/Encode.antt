-- ===== src/IsoTp/Encode.antt =====
-- mcanbus/src/isotp.rs, the protocol constants, `Options`, and the four kinds of frame. A frame is
-- a list of eight bytes; the `debug_assert`s are the hypotheses of the laws.
pub mod Laws
use mcanbus.Base.{
  ℕ, ◌/◌, ◌%◌, ◌^◌, min, bit_and, bit_or, List, leb, ◌&&◌, if◌then◌else◌, length, set, replicate,
  overwrite,
}

abbrev pub pci_sf : ℕ
pci_sf = 0x00

abbrev pub pci_ff : ℕ
pci_ff = 0x10

abbrev pub pci_cf : ℕ
pci_cf = 0x20

abbrev pub pci_fc : ℕ
pci_fc = 0x30

abbrev pub pci_type_mask : ℕ
pci_type_mask = 0xf0

abbrev pub fc_cts : ℕ
fc_cts = 0

abbrev pub fc_wait : ℕ
fc_wait = 1

abbrev pub fc_overflow : ℕ
fc_overflow = 2

abbrev pub sf_max_len : ℕ
sf_max_len = 7

abbrev pub ff_first_payload : ℕ
ff_first_payload = 6

abbrev pub cf_payload : ℕ
cf_payload = 7

abbrev pub frame_dlc : ℕ
frame_dlc = 8

abbrev pub max_ff_length : ℕ
max_ff_length = 0xfff

-- `timeout` is in nanoseconds.
pub record Options : Type 0 where
  pub padding : ℕ
  pub block_size : ℕ
  pub st_min_ms : ℕ
  pub timeout : ℕ
  pub max_waits : ℕ

abbrev pub default_options : Options
default_options = record {
  padding = 0xcc;
  block_size = 0;
  st_min_ms = 0;
  timeout = 1_000_000_000;
  max_waits = 8;
}

unfoldable pub encode_sf_frame : List ℕ → ℕ → List ℕ
encode_sf_frame payload padding =
    let buf = replicate frame_dlc padding in
    let buf = set buf 0 (bit_or pci_sf (length payload % 2 ^ 8)) in overwrite 1 payload buf

unfoldable pub encode_ff_frame : ℕ → List ℕ → ℕ → List ℕ
encode_ff_frame total_len first_chunk padding =
    let buf = replicate frame_dlc padding in
    let buf = set buf 0 (bit_or pci_ff (bit_and (total_len / 2 ^ 8 % 2 ^ 8) 0x0f)) in
    let buf = set buf 1 (total_len % 2 ^ 8) in overwrite 2 first_chunk buf

unfoldable pub encode_cf_frame : ℕ → List ℕ → ℕ → List ℕ
encode_cf_frame seq chunk padding =
    let buf = replicate frame_dlc padding in
    let buf = set buf 0 (bit_or pci_cf (bit_and seq 0x0f)) in overwrite 1 chunk buf

unfoldable pub encode_fc_frame : ℕ → ℕ → ℕ → ℕ → List ℕ
encode_fc_frame flow_status block_size st_min_ms padding =
    let buf = replicate frame_dlc padding in
    let buf = set buf 0 (bit_or pci_fc (bit_and flow_status 0x0f)) in
    let buf = set buf 1 block_size in set buf 2 (min st_min_ms 0x7f)

unfoldable pub decode_st_min : ℕ → ℕ
decode_st_min byte =
    if leb byte 0x7f then byte else if leb 0xf1 byte && leb byte 0xf9 then 1 else 0x7f
