-- ===== src/Iface/Reply.antt =====
-- mcanbus/src/iface.rs: what is made of the bytes that the kernel answers with. A header has 16
-- bytes, with its type at offset 4; `struct ifinfomsg` has 16 as well.
pub mod Laws
use mcanbus.Base.{
  ℕ, ◌+◌, ◌-◌, ◌%◌, ◌^◌, Bool, true, false, ◌&&◌, Option, none, some, List, [], ◌∷◌, ltb, leb, ◌==◌,
  ◌!=◌, if◌then◌else◌, length, take, drop,
}
use mcanbus.Base.Results.{Result, ok, err}
use mcanbus.Io.{IoError, os, kind, other}
use mcanbus.Frame.Wire.Bytes.{Endian, u16_from_ne_bytes, u32_from_ne_bytes}
use mcanbus.Iface.Attr.{nl_find_attr}

abbrev pub hdr_len : ℕ
hdr_len = 16

abbrev pub info_len : ℕ
info_len = 16

abbrev pub nlmsg_error : ℕ
nlmsg_error = 2

abbrev pub ifla_linkinfo : ℕ
ifla_linkinfo = 18

abbrev pub ifla_info_kind : ℕ
ifla_info_kind = 1

abbrev pub ifla_info_data : ℕ
ifla_info_data = 2

abbrev pub ifla_can_state : ℕ
ifla_can_state = 4

abbrev pub nlmsg_type : Endian → List ℕ → ℕ
nlmsg_type e bytes = u16_from_ne_bytes e (take 2 (drop 4 bytes))

-- The `i32` behind the header, as its 32 bits, and `from_raw_os_error(-code)`.
abbrev pub error_code : Endian → List ℕ → ℕ
error_code e bytes = u32_from_ne_bytes e (take 4 (drop hdr_len bytes))

abbrev pub raw_os_error : ℕ → IoError
raw_os_error code = os ((2 ^ 32 - code) % 2 ^ 32)

-- The end of `nl_set_iface_up`.
unfoldable pub set_reply : Endian → List ℕ → Result (Unit {0}) IoError
set_reply e bytes =
    if ltb (length bytes) hdr_len
    then err (kind other)
    else if nlmsg_type e bytes != nlmsg_error
    then err (kind other)
    else if ltb (length bytes) (hdr_len + 4)
    then err (kind other)
    else if error_code e bytes == 0
    then ok tt
    else err (raw_os_error (error_code e bytes))

-- The bytes before the first NUL.
unfoldable pub trim_nul : List ℕ → List ℕ
trim_nul [] = []
trim_nul (c ∷ b) = let rest = trim_nul b in if c == 0 then [] else c ∷ rest

abbrev pub is_can_text : List ℕ → Bool
is_can_text (x ∷ y ∷ z ∷ []) = x == b'c' && y == b'a' && z == b'n'
is_can_text _ = false

-- `kind == "can"`; bytes that are no UTF-8 are taken for the empty text, which is not "can" either.
unfoldable pub is_can : Option (List ℕ) → Bool
is_can none = false
is_can (some b) = is_can_text (trim_nul b)

abbrev pub find_in : Endian → Option (List ℕ) → ℕ → Option (List ℕ)
find_in e none ty = none
find_in e (some blob) ty = nl_find_attr e blob ty

-- The state attribute: `None` where it has fewer than four bytes.
abbrev pub read_state : Endian → Option (List ℕ) → Option ℕ
read_state e none = none
read_state e (some b) = if ltb (length b) 4 then none else some (u32_from_ne_bytes e (take 4 b))

-- From `IFLA_LINKINFO` on.
unfoldable pub state_of_linkinfo : Endian → Option (List ℕ) → Option ℕ
state_of_linkinfo e linkinfo =
    if is_can (find_in e linkinfo ifla_info_kind)
    then read_state e (find_in e (find_in e linkinfo ifla_info_data) ifla_can_state)
    else none

-- The end of `get_can_state_raw`.
unfoldable pub state_reply : Endian → List ℕ → Result (Option ℕ) IoError
unfolding state_of_linkinfo
state_reply e bytes =
    if ltb (length bytes) (hdr_len + info_len)
    then ok none
    else if nlmsg_type e bytes == nlmsg_error
    then (if error_code e bytes == 0 then ok none else err (raw_os_error (error_code e bytes)))
    else if leb (length bytes) (hdr_len + info_len)
    then ok none
    else ok (state_of_linkinfo e (nl_find_attr e (drop (hdr_len + info_len) bytes) ifla_linkinfo))
