-- ===== src/Socket/Open.antt =====
-- mcanbus/src/socket.rs, `Socket::open` and `Drop`. Each option is a step of its own, in the order of
-- the source; a step that the source calls best-effort ends well whatever the kernel answers.
pub mod Steps
pub mod Laws
use mcanbus.Base.{
  ℕ, ◌*◌, ◌/◌, ◌%◌, ◌^◌, bit_or, Bool, true, false, ◌||◌, Option, none, some, List, [], leb, ◌==◌,
  if◌then◌else◌, length, replicate, overwrite,
}
use mcanbus.Base.Results.{Result, ok, err}
use mcanbus.Consts.{
  af_can, pf_can, can_raw, sol_can_raw, can_raw_filter, can_raw_err_filter, can_raw_fd_frames,
  sof_timestamping_rx_hardware, sof_timestamping_rx_software, sof_timestamping_software,
  sof_timestamping_raw_hardware,
}
use mcanbus.Io.{Io, IoError, kind, invalid_input, ◌>>=◌, ◌>>◌, pure, throw, proceed}
use mcanbus.Socket.Filter.{CanFilter}
use mcanbus.Socket.Kernel.{Kernel, OptValue, int, filters, timeval, last_os_error}
use mcanbus.Socket.Transfer.{Socket}

pub data Timestamping : Type 0 where
  best_available software no_timestamps : Timestamping

-- `std::time::Duration`.
pub record Duration : Type 0 where
  pub secs : ℕ
  pub nanos : ℕ

pub record OpenOpts : Type 0 where
  pub fd : Bool
  pub recv_buf_bytes : Option ℕ
  pub send_buf_bytes : Option ℕ
  pub timestamping : Timestamping
  pub recv_timeout : Option Duration
  pub filter : Option (List CanFilter)
  pub error_filter : Option ℕ
  pub clear_filter : Bool
  pub nonblocking : Bool

abbrev pub default_open_opts : OpenOpts
default_open_opts = record {
  fd = true;
  recv_buf_bytes = some (8 * 1024 * 1024);
  send_buf_bytes = some (1024 * 1024);
  timestamping = best_available;
  recv_timeout = some (record { secs = 0; nanos = 500_000_000 });
  filter = none;
  error_filter = none;
  clear_filter = false;
  nonblocking = false;
}

-- `filter` takes precedence over `clear_filter`.
unfoldable pub filter_to_apply : OpenOpts → Option (List CanFilter)
filter_to_apply opts = elim opts.filter [
  | some f ↦ some f
  | none ↦ if opts.clear_filter then some [] else none
]

unfoldable pub name_is_valid : ℕ → List ℕ → Bool
name_is_valid ifnamsiz name = if length name == 0 || leb ifnamsiz (length name) then false else true

module _ (k : Kernel) where
  open k use {World, libc, socket, ioctl_ifindex, setsockopt, get_flags, set_flags, bind, close}

  -- `Drop` for a `Socket` and for the guard.
  unfoldable pub drop_socket : Socket → World → World
  drop_socket s w = close s.fd w

  module _ (fd : ℕ) where
    -- A call whose error is returned, and one whose error is not looked at.
    unfoldable pub set_option : ℕ → ℕ → OptValue → Io World (Unit {0})
    set_option level name value w = last_os_error (setsockopt fd level name value w)

    unfoldable pub try_option : ℕ → ℕ → OptValue → Io World (Unit {0})
    try_option level name value w = (ok tt, (setsockopt fd level name value w).1)

    -- Whether the call went well.
    unfoldable pub option_granted : ℕ → ℕ → OptValue → Io World Bool
    option_granted level name value w = elim (setsockopt fd level name value w).0 [
      | ok unit ↦ (ok true, (setsockopt fd level name value w).1)
      | err errno ↦ (ok false, (setsockopt fd level name value w).1)
    ]

    unfoldable pub enable_fd : Bool → Io World Bool
    unfolding option_granted
    enable_fd wanted =
        if wanted then option_granted sol_can_raw can_raw_fd_frames (int 1) else pure false

    unfoldable pub apply_filter : Option (List CanFilter) → Io World (Unit {0})
    unfolding set_option
    apply_filter none = pure tt
    apply_filter (some entries) = set_option sol_can_raw can_raw_filter (filters entries)

    unfoldable pub apply_error_filter : Option ℕ → Io World (Unit {0})
    unfolding set_option
    apply_error_filter none = pure tt
    apply_error_filter (some mask) = set_option sol_can_raw can_raw_err_filter (int mask)

    -- `name` is `SO_RCVBUF` or `SO_SNDBUF`; the size is cast to a `c_int`, kept as its 32 bits.
    unfoldable pub size_buffer : ℕ → Option ℕ → Io World (Unit {0})
    unfolding try_option
    size_buffer name none = pure tt
    size_buffer name (some bytes) = try_option libc.sol_socket name (int (bytes % 2 ^ 32))

    abbrev pub ts_flags : ℕ
    ts_flags =
        bit_or
          (bit_or (bit_or sof_timestamping_rx_hardware sof_timestamping_rx_software)
            sof_timestamping_software)
          sof_timestamping_raw_hardware

    unfoldable pub request_timestamps : Timestamping → Io World (Unit {0})
    unfolding try_option option_granted
    request_timestamps best_available =
        option_granted libc.sol_socket libc.so_timestamping (int ts_flags) >>= λ granted.
        if granted then pure tt else try_option libc.sol_socket libc.so_timestampns (int 1)
    request_timestamps software = try_option libc.sol_socket libc.so_timestampns (int 1)
    request_timestamps no_timestamps = pure tt

    unfoldable pub set_timeout : Option Duration → Io World (Unit {0})
    unfolding try_option
    set_timeout none = pure tt
    set_timeout (some d) =
        try_option libc.sol_socket libc.so_rcvtimeo (timeval d.secs (d.nanos / 1000))

    unfoldable pub set_nonblocking : Bool → Io World (Unit {0})
    set_nonblocking false w = (ok tt, w)
    set_nonblocking true w = elim (get_flags fd w).0 [
      | ok flags ↦ (ok tt, (set_flags fd (bit_or flags libc.o_nonblock) (get_flags fd w).1).1)
      | err errno ↦ (ok tt, (get_flags fd w).1)
    ]

    -- A `SockaddrCan` of zeros but for the family and the index.
    abbrev pub bind_can : ℕ → Io World (Unit {0})
    bind_can ifindex w = last_os_error (bind fd af_can ifindex w)

    -- What stands between the call of `socket` and the end, while the guard owns the descriptor.
    unfoldable pub configure : List ℕ → OpenOpts → Io World Socket
    configure name opts = do
      ifindex ←
          (λ w. last_os_error (ioctl_ifindex fd (overwrite 0 name (replicate libc.ifnamsiz 0)) w))
      fd_rx_enabled ← enable_fd opts.fd
      apply_filter (filter_to_apply opts)
      apply_error_filter opts.error_filter
      size_buffer libc.so_rcvbuf opts.recv_buf_bytes
      size_buffer libc.so_sndbuf opts.send_buf_bytes
      request_timestamps opts.timestamping
      set_timeout opts.recv_timeout
      set_nonblocking opts.nonblocking
      bind_can ifindex
      pure (record { fd = fd; fd_rx_enabled = fd_rx_enabled })

    -- The guard closes the descriptor on each early return, and is defused at the end.
    unfoldable pub guarded : Result Socket IoError × World → Result Socket IoError × World
    guarded (ok s, w) = (ok s, w)
    guarded (err e, w) = (err e, close fd w)

  unfoldable pub open_socket : List ℕ → OpenOpts → Io World Socket
  unfolding guarded
  open_socket name opts w =
      if name_is_valid libc.ifnamsiz name
      then proceed
          (last_os_error (socket pf_can (bit_or libc.sock_raw libc.sock_cloexec) can_raw w))
          (λ fd w₁. guarded fd (configure fd name opts w₁))
      else (err (kind invalid_input), w)
