-- ===== src/Socket/Open/Steps.antt =====
-- mcanbus/src/socket.rs, the steps of `Socket::open`: each leaves the open file descriptors alone.
use mcanbus.Base.{
  ℕ, ◌≡◌, refl, ◌∙◌, bit_or, Bool, true, false, if◌then◌else◌, Option, none, some, List,
}
use mcanbus.Base.Results.{Result, ok, err}
use mcanbus.Io.{IoError, proceed, pure}
use mcanbus.Consts.{sol_can_raw, can_raw_fd_frames}
use mcanbus.Socket.Filter.{CanFilter}
use mcanbus.Socket.Kernel.{Kernel, OptValue, int, last_os_error}
use mcanbus.Socket.Open.{
  Duration, Timestamping, best_available, software, no_timestamps, set_option, try_option,
  option_granted, enable_fd, apply_filter, apply_error_filter, size_buffer, request_timestamps,
  set_timeout, set_nonblocking,
}
use mcanbus.Socket.Ledger.{Ledger}

module _ (k : Kernel) (ledger : Ledger k) where
  open k use {World, libc, socket, ioctl_ifindex, setsockopt, get_flags, set_flags, bind, close}
  open ledger use {
    open_fds, socket_opens, socket_fails, close_closes, ioctl_keeps, setsockopt_keeps,
    get_flags_keeps, set_flags_keeps, bind_keeps,
  }

  -- An action that leaves the descriptors alone.
  abbrev pub Keeps : {A : Type 0} → World → Result A IoError × World → Type 0
  Keeps w r = open_fds r.1 ≡ open_fds w

  pub last_os_error-Keeps :
      {A : Type 0} (w : World) (r : Result A ℕ × World)
      → open_fds r.1 ≡ open_fds w
      → Keeps w (last_os_error r)
  last_os_error-Keeps w (ok a, w₁) h = h
  last_os_error-Keeps w (err e, w₁) h = h

  module _ (fd : ℕ) where
    option_granted-Keeps :
        (level name : ℕ) (value : OptValue) (w : World)
        → Keeps w (option_granted k fd level name value w)
    unfolding option_granted
    option_granted-Keeps level name value w =
        asked (setsockopt fd level name value w) (setsockopt_keeps fd level name value w)
      where
        asked :
            (r : Result (Unit {0}) ℕ × World)
            → open_fds r.1 ≡ open_fds w
            → Keeps w (elim r.0 as (λ o. Result Bool IoError × World) [
              | ok unit ↦ (ok true, r.1)
              | err errno ↦ (ok false, r.1)
            ])
        asked (ok unit, w₁) h = h
        asked (err errno, w₁) h = h

    pub enable_fd-Keeps : (wanted : Bool) (w : World) → Keeps w (enable_fd k fd wanted w)
    unfolding enable_fd
    enable_fd-Keeps true w = option_granted-Keeps sol_can_raw can_raw_fd_frames (int 1) w
    enable_fd-Keeps false w = refl

    set_option-Keeps :
        (level name : ℕ) (value : OptValue) (w : World)
        → Keeps w (set_option k fd level name value w)
    unfolding set_option
    set_option-Keeps level name value w =
        last_os_error-Keeps w _ (setsockopt_keeps fd level name value w)

    try_option-Keeps :
        (level name : ℕ) (value : OptValue) (w : World)
        → Keeps w (try_option k fd level name value w)
    unfolding try_option
    try_option-Keeps level name value w = setsockopt_keeps fd level name value w

    pub apply_filter-Keeps :
        (f : Option (List CanFilter)) (w : World) → Keeps w (apply_filter k fd f w)
    unfolding apply_filter
    apply_filter-Keeps none w = refl
    apply_filter-Keeps (some entries) w = set_option-Keeps _ _ _ w

    pub apply_error_filter-Keeps :
        (mask : Option ℕ) (w : World) → Keeps w (apply_error_filter k fd mask w)
    unfolding apply_error_filter
    apply_error_filter-Keeps none w = refl
    apply_error_filter-Keeps (some mask) w = set_option-Keeps _ _ _ w

    pub size_buffer-Keeps :
        (name : ℕ) (bytes : Option ℕ) (w : World) → Keeps w (size_buffer k fd name bytes w)
    unfolding size_buffer
    size_buffer-Keeps name none w = refl
    size_buffer-Keeps name (some bytes) w = try_option-Keeps _ _ _ w

    pub set_timeout-Keeps :
        (timeout : Option Duration) (w : World) → Keeps w (set_timeout k fd timeout w)
    unfolding set_timeout
    set_timeout-Keeps none w = refl
    set_timeout-Keeps (some d) w = try_option-Keeps _ _ _ w

    pub request_timestamps-Keeps :
        (t : Timestamping) (w : World) → Keeps w (request_timestamps k fd t w)
    unfolding request_timestamps
    request_timestamps-Keeps best_available w =
        asked (option_granted k fd _ _ _ w) (option_granted-Keeps _ _ _ w)
      where
        asked :
            (r : Result Bool IoError × World)
            → open_fds r.1 ≡ open_fds w
            → Keeps w (
                proceed r (λ granted.
                  if granted
                  then pure tt
                  else try_option k fd libc.sol_socket libc.so_timestampns (int 1)))
        asked (ok true, w₁) h = h
        asked (ok false, w₁) h = try_option-Keeps _ _ _ w₁ ∙ h
        asked (err e, w₁) h = h
    request_timestamps-Keeps software w = try_option-Keeps _ _ _ w
    request_timestamps-Keeps no_timestamps w = refl

    pub set_nonblocking-Keeps :
        (wanted : Bool) (w : World) → Keeps w (set_nonblocking k fd wanted w)
    unfolding set_nonblocking
    set_nonblocking-Keeps false w = refl
    set_nonblocking-Keeps true w = asked (get_flags fd w) (get_flags_keeps fd w)
      where
        asked :
            (r : Result ℕ ℕ × World)
            → open_fds r.1 ≡ open_fds w
            → Keeps w (elim r.0 as (λ o. Result (Unit {0}) IoError × World) [
              | ok flags ↦ (ok tt, (set_flags fd (bit_or flags libc.o_nonblock) r.1).1)
              | err errno ↦ (ok tt, r.1)
            ])
        asked (ok flags, w₁) h = set_flags_keeps fd _ w₁ ∙ h
        asked (err errno, w₁) h = h
