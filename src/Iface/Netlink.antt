-- ===== src/Iface/Netlink.antt =====
-- mcanbus/src/iface.rs: the requests over a netlink socket and the operations of `Interface` made of
-- them. The system calls and libc's constants that are not in `Socket.Kernel` are a parameter.
pub mod Ledger
pub mod Answer
use mcanbus.Base.{
  ℕ, ◌+◌, ◌%◌, ◌^◌, bit_or, Bool, true, false, ◌||◌, Option, none, some, List, [], ◌∷◌, ◌++◌, ◌==◌,
  if◌then◌else◌, replicate,
}
use mcanbus.Base.Results.{Result, ok, err}
use mcanbus.Io.{Io, IoError, os, kind, invalid_input, proceed, ◌>>=◌, ◌>>◌, pure, throw, lift}
use mcanbus.Frame.Wire.Bytes.{Endian, u16_to_ne_bytes, u32_to_ne_bytes}
use mcanbus.Iface.State.{CanState, from_raw}
use mcanbus.Iface.Reply.{hdr_len, info_len, set_reply, state_reply}
use mcanbus.Socket.Kernel.{Kernel, last_os_error}

pub record Netlink (k : Kernel) : Type 0 where
  pub af_netlink : ℕ
  pub netlink_route : ℕ
  pub af_unspec : ℕ
  pub rtm_newlink : ℕ
  pub rtm_getlink : ℕ
  pub nlm_f_request : ℕ
  pub nlm_f_ack : ℕ
  pub iff_up : ℕ
  pub nl_bind : ℕ → k.World → Result (Unit {0}) ℕ × k.World
  pub sendto : ℕ → List ℕ → k.World → Result ℕ ℕ × k.World
  pub nl_recv : ℕ → ℕ → k.World → Result (List ℕ) ℕ × k.World
  -- No index is the errno.
  pub if_nametoindex : List ℕ → k.World → Result ℕ ℕ × k.World

-- `struct nlmsghdr` and `struct ifinfomsg` (linux/netlink.h, linux/rtnetlink.h) in memory.
abbrev pub nlmsghdr : Endian → ℕ → ℕ → ℕ → List ℕ
nlmsghdr e type flags seq =
    u32_to_ne_bytes e (hdr_len + info_len)
    ++ (u16_to_ne_bytes e type
        ++ (u16_to_ne_bytes e flags ++ (u32_to_ne_bytes e seq ++ u32_to_ne_bytes e 0)))

abbrev pub ifinfomsg : Endian → ℕ → ℕ → ℕ → ℕ → List ℕ
ifinfomsg e family index flags change =
    family % 2 ^ 8 ∷ 0 ∷ u16_to_ne_bytes e 0
    ++ (u32_to_ne_bytes e index ++ (u32_to_ne_bytes e flags ++ u32_to_ne_bytes e change))

module _ (k : Kernel) (nl : Netlink k) where
  open k use {World, endian, libc, socket, close, sleep}
  open nl use {
    af_netlink, netlink_route, af_unspec, rtm_newlink, rtm_getlink, nlm_f_request, nlm_f_ack,
    iff_up, nl_bind, sendto, nl_recv, if_nametoindex,
  }

  -- `let e = io::Error::last_os_error(); libc::close(fd); return Err(e);`
  unfoldable pub or_close : {A : Type 0} → ℕ → Result A ℕ × World → Result A IoError × World
  or_close fd (ok a, w) = (ok a, w)
  or_close fd (err errno, w) = (err (os errno), close fd w)

  -- The answer is received, and the socket closed, before the error of `recv` is returned.
  unfoldable pub answered : ℕ → Result (List ℕ) ℕ × World → Result (List ℕ) IoError × World
  answered fd (r, w) = last_os_error (r, close fd w)

  -- From `socket` to `close`: `size` is that of the buffer for the answer.
  unfoldable pub nl_exchange : List ℕ → ℕ → Io World (List ℕ)
  unfolding or_close answered
  nl_exchange msg size =
      (λ w.
        last_os_error (socket af_netlink (bit_or libc.sock_raw libc.sock_cloexec) netlink_route w))
      >>= λ fd. (λ w. or_close fd (nl_bind fd w)) >>= λ bound.
          (λ w. or_close fd (sendto fd msg w)) >>= λ n. λ w. answered fd (nl_recv fd size w)

  unfoldable pub up_request : ℕ → Bool → List ℕ
  up_request ifindex up =
      nlmsghdr endian rtm_newlink (bit_or nlm_f_request nlm_f_ack) 1
      ++ ifinfomsg endian af_unspec ifindex (if up then iff_up else 0) iff_up

  unfoldable pub nl_set_iface_up : ℕ → Bool → Io World (Unit {0})
  unfolding up_request
  nl_set_iface_up ifindex up =
      nl_exchange (up_request ifindex up) 4096 >>= λ bytes. lift (set_reply endian bytes)

  unfoldable pub state_request : ℕ → List ℕ
  state_request ifindex =
      nlmsghdr endian rtm_getlink (bit_or nlm_f_request nlm_f_ack) 2
      ++ ifinfomsg endian af_unspec ifindex 0 0

  unfoldable pub get_can_state_raw : ℕ → Io World (Option ℕ)
  unfolding state_request
  get_can_state_raw ifindex =
      nl_exchange (state_request ifindex) 8192 >>= λ bytes. lift (state_reply endian bytes)

  -- `CString::new` refuses a NUL byte.
  unfoldable pub has_nul : List ℕ → Bool
  has_nul [] = false
  has_nul (c ∷ name) = c == 0 || has_nul name

  -- `Interface::index`, and the operations that begin with it.
  unfoldable pub index : List ℕ → Io World ℕ
  index name w =
      if has_nul name then (err (kind invalid_input), w) else last_os_error (if_nametoindex name w)

  unfoldable pub set_up : List ℕ → Io World (Unit {0})
  set_up name = index name >>= λ idx. nl_set_iface_up idx true

  unfoldable pub set_down : List ℕ → Io World (Unit {0})
  set_down name = index name >>= λ idx. nl_set_iface_up idx false

  unfoldable pub cycle : List ℕ → Io World (Unit {0})
  cycle name = index name >>= λ idx.
      nl_set_iface_up idx false >> ((λ w. pure tt (sleep 150 w)) >> nl_set_iface_up idx true)

  unfoldable pub and_then_from_raw : Option ℕ → Option CanState
  and_then_from_raw none = none
  and_then_from_raw (some v) = from_raw v

  unfoldable pub state : List ℕ → Io World (Option CanState)
  unfolding and_then_from_raw
  state name = index name >>= λ idx. get_can_state_raw idx >>= λ raw. pure (and_then_from_raw raw)
