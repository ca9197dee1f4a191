-- ===== src/Socket/Kernel.antt =====
-- The system calls and libc constants that mcanbus/src/socket.rs uses, as a parameter. A call that
-- returns -1 gives its errno. Control messages are given as libc's `CMSG` macros walk them.
use mcanbus.Base.{Bool, ℕ, List, Option}
use mcanbus.Base.Results.{Result, ok, err}
use mcanbus.Io.{IoError, os}
use mcanbus.Frame.Wire.Bytes.{Endian}
use mcanbus.Socket.Filter.{CanFilter}

pub record Timespec : Type 0 where
  pub tv_sec : ℕ
  pub tv_nsec : ℕ

-- `stamps` is the data of the message, read as an array of `timespec`.
pub record Cmsg : Type 0 where
  pub cmsg_level : ℕ
  pub cmsg_type : ℕ
  pub stamps : List Timespec

pub record Message : Type 0 where
  pub bytes : List ℕ
  pub control : List Cmsg

-- The values that `setsockopt` is given: a `c_int` or `u32`, an array of filters, a `timeval`.
pub data OptValue : Type 0 where
  int : ℕ → OptValue
  filters : List CanFilter → OptValue
  timeval : ℕ → ℕ → OptValue

pub record Libc : Type 0 where
  pub eagain : ℕ
  pub eintr : ℕ
  pub sol_socket : ℕ
  pub so_rcvbuf : ℕ
  pub so_sndbuf : ℕ
  pub so_timestamping : ℕ
  pub so_timestampns : ℕ
  pub so_rcvtimeo : ℕ
  pub o_nonblock : ℕ
  pub sock_raw : ℕ
  pub sock_cloexec : ℕ
  pub ifnamsiz : ℕ

-- `recv_blocks` says of a descriptor whether a receive call on it never comes back: it blocks without
-- `SO_RCVTIMEO`, and no message ever comes. The receive calls are told for when they come back.
pub record Kernel : Type 1 where
  pub World : Type 0
  pub endian : Endian
  pub libc : Libc
  pub socket : ℕ → ℕ → ℕ → World → Result ℕ ℕ × World
  pub ioctl_ifindex : ℕ → List ℕ → World → Result ℕ ℕ × World
  pub setsockopt : ℕ → ℕ → ℕ → OptValue → World → Result (Unit {0}) ℕ × World
  pub get_flags : ℕ → World → Result ℕ ℕ × World
  pub set_flags : ℕ → ℕ → World → Result (Unit {0}) ℕ × World
  pub bind : ℕ → ℕ → ℕ → World → Result (Unit {0}) ℕ × World
  pub close : ℕ → World → World
  pub dup : ℕ → World → Result ℕ ℕ × World
  pub recvmsg : ℕ → ℕ → World → Result Message ℕ × World
  pub recvmmsg : ℕ → ℕ → ℕ → World → Result (List Message) ℕ × World
  pub recv_blocks : ℕ → World → Bool
  pub write : ℕ → List ℕ → World → Result ℕ ℕ × World
  pub sendmmsg : ℕ → List (List ℕ) → World → Result ℕ ℕ × World
  pub system_time : World → Option ℕ × World
  pub now : World → ℕ × World
  pub sleep : ℕ → World → World

-- `if r < 0 { return Err(io::Error::last_os_error()); }`
abbrev pub last_os_error : {A W : Type 0} → Result A ℕ × W → Result A IoError × W
last_os_error (ok a, w) = (ok a, w)
last_os_error (err errno, w) = (err (os errno), w)
