-- ===== src/Iface/Reply/Laws.antt =====
-- mcanbus/src/iface.rs: the state that is read from the message of a CAN device.
use mcanbus.Base.{
  ◌-◌, ◌+◌, ◌%◌, ◌==◌, if◌then◌else◌, take-append_length, ℕ, ◌+◌, ◌^◌, ◌<◌, ◌≡◌, ◌≢◌, refl, arith,
  some, List, [], ◌∷◌, ◌++◌, All, le→ltb, lt→leb, length, drop, length-append, length-drop,
  drop-append_length, drop-append_le, take-append_le, take-all, ≢→==,
}
use mcanbus.Base.Results.{ok, err}
use mcanbus.Frame.Wire.Bytes.{
  Endian, little, big, u16_to_ne_bytes, u32_to_ne_bytes, from_ne_bytes-to_ne_bytes,
  length-to_ne_bytes,
}
use mcanbus.Iface.Attr.{nl_find_attr}
use mcanbus.Iface.Attr.RoundTrip.{Attr, IsAttr, encode, lookup, nl_find_attr-encode}
use mcanbus.Io.{os}
use mcanbus.Iface.Reply.{
  set_reply, hdr_len, info_len, nlmsg_error, nlmsg_type, ifla_linkinfo, ifla_info_kind,
  ifla_info_data, ifla_can_state, trim_nul, is_can, state_of_linkinfo, state_reply,
}

length-encode :
    (e : Endian) (attrs : List Attr) (ty : ℕ) (b : List ℕ)
    → lookup ty attrs ≡ some b
    → 0 < length (encode e attrs)
unfolding encode u16_to_ne_bytes
length-encode e [] ty b h = cc
length-encode little (a ∷ attrs) ty b h = omega arith
length-encode big (a ∷ attrs) ty b h = omega arith

-- A message of the kernel about one interface: 32 bytes that are no error header, and attributes.
pub record Message (e : Endian) (head : List ℕ) (attrs : List Attr) : Type 0 where
  pub head_len : length head ≡ hdr_len + info_len
  pub no_error : nlmsg_type e head ≢ nlmsg_error
  pub fit : All IsAttr attrs

-- The nested attributes that say: a CAN device, in the given state.
pub record SaysState (e : Endian) (attrs : List Attr) (state : ℕ) : Type 0 where
  pub info : List Attr
  pub details : List Attr
  pub tail : List ℕ
  pub state_fits : state < 2 ^ 32
  pub info_fit : All IsAttr info
  pub details_fit : All IsAttr details
  pub at_linkinfo : lookup ifla_linkinfo attrs ≡ some (encode e info)
  pub at_kind : lookup ifla_info_kind info ≡ some (b'c' ∷ b'a' ∷ b'n' ∷ 0 ∷ tail)
  pub at_data : lookup ifla_info_data info ≡ some (encode e details)
  pub at_state : lookup ifla_can_state details ≡ some (u32_to_ne_bytes e state)

module _ (e : Endian) (head : List ℕ) (attrs : List Attr) (m : Message e head attrs) where
  abbrev reply : List ℕ
  reply = head ++ encode e attrs

  reply_type : nlmsg_type e reply ≡ nlmsg_type e head
  reply_type =
      let size = m.head_len in
      rw
        (
          drop-append_le 4 head (encode e attrs) (omega arith),
          take-append_le 2 (drop 4 head) (encode e attrs) (omega (arith, length-drop 4 head)),
        )
        refl

  behind_head : drop (hdr_len + info_len) reply ≡ encode e attrs
  behind_head = drop-append_length (hdr_len + info_len) head (encode e attrs) m.head_len

  found_state :
      (state : ℕ)
      → SaysState e attrs state
      → state_of_linkinfo e (nl_find_attr e (encode e attrs) ifla_linkinfo) ≡ some state
  unfolding state_of_linkinfo is_can trim_nul
  found_state state s =
      rw
        (
          nl_find_attr-encode e attrs ifla_linkinfo m.fit,
          s.at_linkinfo,
          nl_find_attr-encode e s.info ifla_info_kind s.info_fit,
          s.at_kind,
          nl_find_attr-encode e s.info ifla_info_data s.info_fit,
          s.at_data,
          nl_find_attr-encode e s.details ifla_can_state s.details_fit,
          s.at_state,
          length-to_ne_bytes e state,
          take-all 4 (u32_to_ne_bytes e state) (omega (arith, length-to_ne_bytes e state)),
          from_ne_bytes-to_ne_bytes e state s.state_fits,
        )
        refl

  -- The state is found in whatever message says it, at whatever place among other attributes.
  pub state_reply-encode :
      (state : ℕ) → SaysState e attrs state → state_reply e reply ≡ ok (some state)
  unfolding state_reply
  state_reply-encode state s =
      let size = length-append head (encode e attrs) in
      let size_of_head = m.head_len in
      rw
        (
          le→ltb (length reply) (hdr_len + info_len) (omega (arith, size)),
          reply_type,
          ≢→== (nlmsg_type e head) nlmsg_error m.no_error,
          lt→leb (length reply) (hdr_len + info_len)
              (omega (arith, size, length-encode e attrs _ _ s.at_linkinfo)),
          behind_head,
          found_state state s,
        )
        refl

-- An answer of the type of an error that carries an errno below 2 ^ 31, negated as an i32, is
-- success if the errno is 0, and otherwise that errno as the error that is returned.
pub set_reply-ack :
    (e : Endian) (head tail : List ℕ) (errno : ℕ)
    → length head ≡ hdr_len
    → nlmsg_type e head ≡ nlmsg_error
    → errno < 2 ^ 31
    → set_reply e (head ++ (u32_to_ne_bytes e ((2 ^ 32 - errno) % 2 ^ 32) ++ tail))
      ≡ (if errno == 0 then ok tt else err (os errno))
unfolding set_reply
set_reply-ack e head tail errno size type small =
    let code = (2 ^ 32 - errno) % 2 ^ 32 in
    let word = u32_to_ne_bytes e code in
    let four = length-to_ne_bytes e code in
    let whole = length-append head (word ++ tail) in
    let behind = length-append word tail in
    rw
      (
        drop-append_le 4 head (word ++ tail) (omega (arith, size)),
        take-append_le 2 (drop 4 head) (word ++ tail) (omega (arith, size, length-drop 4 head)),
        type,
        drop-append_length hdr_len head (word ++ tail) size,
        take-append_length 4 word tail four,
        from_ne_bytes-to_ne_bytes e code (omega arith),
        le→ltb (length (head ++ (word ++ tail))) hdr_len (omega (arith, size, whole)),
        le→ltb (length (head ++ (word ++ tail))) (hdr_len + 4)
            (omega (arith, size, whole, behind, four)),
      )
      (ground arith)
