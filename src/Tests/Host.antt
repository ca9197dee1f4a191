-- ===== src/Tests/Host.antt =====
-- A kernel with a list of open descriptors and a queue of messages; it refuses no call but an `ioctl`
-- on an interface other than `can0`.
use mcanbus.Base.{
  false, ◌<◌, arith, ℕ, ◌+◌, some, List, [], ◌∷◌, ◌++◌, ◌==◌, if◌then◌else◌, ◌≡◌, refl, sym, ap,
  ◌∙◌, length, take, drop, get_or,
}
use mcanbus.Base.Results.{Result, ok, err}
use mcanbus.Frame.Data.{Frame}
use mcanbus.Frame.Wire.Bytes.{little}
use mcanbus.Socket.Kernel.{Kernel, Libc, Message}
use mcanbus.Socket.Kept.{CallLedger}
use mcanbus.Iface.Netlink.{Netlink}
use mcanbus.Iface.Netlink.Ledger.{NetlinkLedger}
use mcanbus.Socket.Link.{KernelTime}
use mcanbus.Socket.Ledger.{Ledger}

pub record Host : Type 0 where
  pub open_fds : List ℕ
  pub inbox : List Message
  pub outbox : List (List ℕ)
  pub clock : ℕ
  pub queues : ℕ → List Frame

abbrev pub linux : Libc
linux = record {
  eagain = 11;
  eintr = 4;
  sol_socket = 1;
  so_rcvbuf = 8;
  so_sndbuf = 7;
  so_timestamping = 37;
  so_timestampns = 35;
  so_rcvtimeo = 20;
  o_nonblock = 2048;
  sock_raw = 3;
  sock_cloexec = 524288;
  ifnamsiz = 16;
}

abbrev pub next_fd : Host → ℕ
next_fd h = 3 + length h.open_fds

abbrev pub add_fd : Host → Result ℕ ℕ × Host
add_fd h = (ok (next_fd h), record h { open_fds = next_fd h ∷ h.open_fds })

-- The first message of the queue, or `EAGAIN`.
abbrev pub first_of : List Message → Host → Result Message ℕ × Host
first_of [] h = (err 11, record h { clock = h.clock + 1 })
first_of (msg ∷ later) h = (ok msg, record h { inbox = later; clock = h.clock + 1 })

abbrev pub index_of : ℕ → Result ℕ ℕ
index_of c = if c == b'0' then ok 5 else err 19

abbrev pub host : Kernel
host = record {
  World = Host;
  endian = little;
  libc = linux;
  socket = λ domain type protocol h. add_fd h;
  ioctl_ifindex = λ fd name h. (index_of (get_or name 3 0), h);
  setsockopt = λ fd level name value h. (ok tt, h);
  get_flags = λ fd h. (ok 2, h);
  set_flags = λ fd flags h. (ok tt, h);
  bind = λ fd family ifindex h. (ok tt, h);
  close = λ fd h. record h { open_fds = drop 1 h.open_fds };
  dup = λ fd h. add_fd h;
  recvmsg = λ fd size h. first_of h.inbox h;
  recv_blocks = λ fd h. false;
  recvmmsg = λ fd count size h. (ok (take count h.inbox), record h { inbox = drop count h.inbox });
  write = λ fd bytes h. (ok (length bytes), record h { outbox = h.outbox ++ bytes ∷ [] });
  sendmmsg = λ fd bodies h. (ok (length bodies), record h { outbox = h.outbox ++ bodies });
  system_time = λ h. (some h.clock, h);
  now = λ h. (h.clock, h);
  sleep = λ ms h. h;
}

abbrev value : Result ℕ ℕ → ℕ
value (ok n) = n
value (err n) = n

pub add_fd-opens : (fd : ℕ) (h h' : Host) → add_fd h ≡ (ok fd, h') → h'.open_fds ≡ fd ∷ h.open_fds
add_fd-opens fd h h' same =
    ap (λ (r : Result ℕ ℕ × Host). r.1.open_fds) (sym same)
    ∙ ap (λ (r : Result ℕ ℕ × Host). value r.0 ∷ h.open_fds) same

pub add_fd-answers :
    (errno : ℕ) (h h' : Host) → add_fd h ≡ (err errno, h') → h'.open_fds ≡ h.open_fds
add_fd-answers errno h h' same = cc (ap (λ (r : Result ℕ ℕ × Host). r.0) same)

abbrev pub host-Ledger : Ledger host
host-Ledger = record {
  open_fds = λ h. h.open_fds;
  socket_opens = λ domain type protocol fd h h' same. add_fd-opens fd h h' same;
  socket_fails = λ domain type protocol errno h h' same. add_fd-answers errno h h' same;
  close_closes = λ fd fds h same. ap (drop 1) same;
  ioctl_keeps = λ fd name h. refl;
  setsockopt_keeps = λ fd level name value h. refl;
  get_flags_keeps = λ fd h. refl;
  set_flags_keeps = λ fd flags h. refl;
  bind_keeps = λ fd family ifindex h. refl;
}

pub first_of-keeps : (msgs : List Message) (h : Host) → (first_of msgs h).1.open_fds ≡ h.open_fds
first_of-keeps [] h = refl
first_of-keeps (msg ∷ later) h = refl

pub first_of-time : (msgs : List Message) (h : Host) → h.clock < (first_of msgs h).1.clock
first_of-time [] h = omega arith
first_of-time (msg ∷ later) h = omega arith

abbrev pub host-KernelTime : KernelTime host
host-KernelTime = record {
  time = λ h. h.clock;
  now_reads = λ h. omega arith;
  now_passes = λ h. omega arith;
  sleep_passes = λ ms h. omega arith;
  write_passes = λ fd bytes h. omega arith;
  recvmsg_passes = λ fd size h. first_of-time h.inbox h;
  system_time_passes = λ h. omega arith;
}

abbrev pub host-CallLedger : CallLedger host host-Ledger
host-CallLedger = record {
  now_keeps = λ h. refl;
  sleep_keeps = λ ms h. refl;
  write_keeps = λ fd bytes h. refl;
  recvmsg_keeps = λ fd size h. first_of-keeps h.inbox h;
  system_time_keeps = λ h. refl;
  dup_opens = λ fd new_fd h h' same. add_fd-opens new_fd h h' same;
  dup_fails = λ fd errno h h' same. add_fd-answers errno h h' same;
}

-- A netlink family that answers every request with the same bytes, and knows `can0`.
abbrev pub netlink : List ℕ → Netlink host
netlink answer = record {
  af_netlink = 16;
  netlink_route = 0;
  af_unspec = 0;
  rtm_newlink = 16;
  rtm_getlink = 18;
  nlm_f_request = 1;
  nlm_f_ack = 4;
  iff_up = 1;
  nl_bind = λ fd h. (ok tt, h);
  sendto = λ fd msg h. (ok (length msg), record h { outbox = h.outbox ++ msg ∷ [] });
  nl_recv = λ fd size h. (ok (take size answer), h);
  if_nametoindex = λ name h. (index_of (get_or name 3 0), h);
}

abbrev pub netlink-NetlinkLedger :
    (answer : List ℕ) → NetlinkLedger host (netlink answer) host-Ledger
netlink-NetlinkLedger answer = record {
  nl_bind_keeps = λ fd h. refl;
  sendto_keeps = λ fd msg h. refl;
  nl_recv_keeps = λ fd size h. refl;
  if_nametoindex_keeps = λ name h. refl;
  sleep_keeps = λ ms h. refl;
}
