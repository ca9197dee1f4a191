-- ===== src/Iface/Attr.antt =====
-- mcanbus/src/iface.rs, `nl_find_attr`: a search through the attributes of a netlink message.
pub mod RoundTrip
pub mod Fuel
use mcanbus.Base.{
  ℕ, zero, suc, ◌+◌, ◌-◌, ◌^◌, bit_and, ◌||◌, Option, none, some, List, ltb, leb, ◌==◌,
  if◌then◌else◌, length, take, drop,
}
use mcanbus.Frame.Wire.Bytes.{Endian, u16_from_ne_bytes}

abbrev pub nla_type_mask : ℕ
nla_type_mask = 0x3fff

-- `usize` has 64 bits; `!3` is the mask of all but its two lowest.
unfoldable pub nla_align : ℕ → ℕ
nla_align len = bit_and (len + 3) (2 ^ 64 - 4)

module _ (e : Endian) (buf : List ℕ) (nla_type : ℕ) where
  -- The `while` loop at `off`. A round with `nla_len ≥ 4` goes four bytes on at least.
  unfoldable pub find_from : ℕ → ℕ → Option (List ℕ)
  find_from zero off = none
  find_from (suc fuel) off =
      let nla_len = u16_from_ne_bytes e (take 2 (drop off buf)) in
      let ty = bit_and (u16_from_ne_bytes e (take 2 (drop (off + 2) buf))) nla_type_mask in
      let rest = find_from fuel (off + nla_align nla_len) in
      if leb (off + 4) (length buf)
      then (if ltb nla_len 4 || ltb (length buf) (off + nla_len)
          then none
          else if ty == nla_type
          then some (take (nla_len - 4) (drop (off + 4) buf))
          else rest)
      else none

  unfoldable pub nl_find_attr : Option (List ℕ)
  nl_find_attr = find_from (suc (length buf)) 0
