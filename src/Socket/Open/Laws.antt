-- ===== src/Socket/Open/Laws.antt =====
-- mcanbus/src/socket.rs, `Socket::open`: the open file descriptors.
use mcanbus.Base.{
  ℕ, ◌≡◌, refl, sym, ap, ◌∙◌, bit_or, replicate, overwrite, Bool, Bool-cases, inl, inr, List, ◌∷◌,
}
use mcanbus.Base.Results.{Result, ok, err}
use mcanbus.Io.{Io, IoError, proceed}
use mcanbus.Consts.{af_can, pf_can, can_raw}
use mcanbus.Socket.Kernel.{Kernel, last_os_error}
use mcanbus.Socket.Transfer.{Socket}
use mcanbus.Socket.Open.{
  OpenOpts, name_is_valid, filter_to_apply, enable_fd, apply_filter, apply_error_filter,
  size_buffer, request_timestamps, set_timeout, set_nonblocking, configure, guarded, open_socket,
}
use mcanbus.Socket.Ledger.{Ledger}
use mcanbus.Socket.Open.Steps.{
  Keeps, last_os_error-Keeps, enable_fd-Keeps, apply_filter-Keeps, apply_error_filter-Keeps,
  size_buffer-Keeps, set_timeout-Keeps, request_timestamps-Keeps, set_nonblocking-Keeps,
}

module _ (k : Kernel) (ledger : Ledger k) where
  open k use {World, libc, socket, ioctl_ifindex, setsockopt, get_flags, set_flags, bind, close}
  open ledger use {
    open_fds, socket_opens, socket_fails, close_closes, ioctl_keeps, setsockopt_keeps,
    get_flags_keeps, set_flags_keeps, bind_keeps,
  }

  -- What `configure` promises for a descriptor.
  Configured : ℕ → List ℕ → Result Socket IoError × World → Type 0
  Configured fd fds (ok s, w) = (s.fd ≡ fd) × (open_fds w ≡ fds)
  Configured fd fds (err e, w) = open_fds w ≡ fds

  then-Configured :
      {A : Type 0} (fd : ℕ) (fds : List ℕ) (w : World) (r : Result A IoError × World)
      (f : A → Io World Socket)
      → open_fds w ≡ fds
      → Keeps k ledger w r
      → ((a : A) (w₁ : World) → open_fds w₁ ≡ fds → Configured fd fds (f a w₁))
      → Configured fd fds (proceed r f)
  unfolding Configured
  then-Configured fd fds w (ok a, w₁) f h keeps next = next a w₁ (keeps ∙ h)
  then-Configured fd fds w (err e, w₁) f h keeps next = keeps ∙ h

  returned-Configured :
      (fd : ℕ) (fds : List ℕ) (fd_rx_enabled : Bool) (w : World)
      → open_fds w ≡ fds
      → Configured fd fds (ok (record { fd = fd; fd_rx_enabled = fd_rx_enabled }), w)
  unfolding Configured
  returned-Configured fd fds fd_rx_enabled w h = (refl, h)

  module _ (fd : ℕ) where
    configure-Configured :
        (name : List ℕ) (opts : OpenOpts) (fds : List ℕ) (w : World)
        → open_fds w ≡ fds
        → Configured fd fds (configure k fd name opts w)
    unfolding configure
    configure-Configured name opts fds w h =
        then-Configured fd fds w
          (last_os_error (ioctl_ifindex fd (overwrite 0 name (replicate libc.ifnamsiz 0)) w)) _ h
          (last_os_error-Keeps k ledger w _ (ioctl_keeps fd _ w))
          λ ifindex w₁ h₁.
            then-Configured fd fds w₁ (enable_fd k fd opts.fd w₁) _ h₁
              (enable_fd-Keeps k ledger fd opts.fd w₁)
              λ fd_rx_enabled w₂ h₂.
                then-Configured fd fds w₂ (apply_filter k fd (filter_to_apply opts) w₂) _ h₂
                  (apply_filter-Keeps k ledger fd (filter_to_apply opts) w₂)
                  λ _ w₃ h₃.
                    then-Configured fd fds w₃ (apply_error_filter k fd opts.error_filter w₃) _ h₃
                      (apply_error_filter-Keeps k ledger fd opts.error_filter w₃)
                      λ _ w₄ h₄.
                        then-Configured fd fds w₄
                          (size_buffer k fd libc.so_rcvbuf opts.recv_buf_bytes w₄) _ h₄
                          (size_buffer-Keeps k ledger fd libc.so_rcvbuf opts.recv_buf_bytes w₄)
                          λ _ w₅ h₅.
                            then-Configured fd fds w₅
                              (size_buffer k fd libc.so_sndbuf opts.send_buf_bytes w₅) _ h₅
                              (size_buffer-Keeps k ledger fd libc.so_sndbuf opts.send_buf_bytes w₅)
                              λ _ w₆ h₆.
                                then-Configured fd fds w₆
                                  (request_timestamps k fd opts.timestamping w₆) _ h₆
                                  (request_timestamps-Keeps k ledger fd opts.timestamping w₆)
                                  λ _ w₇ h₇.
                                    then-Configured fd fds w₇
                                      (set_timeout k fd opts.recv_timeout w₇) _ h₇
                                      (set_timeout-Keeps k ledger fd opts.recv_timeout w₇)
                                      λ _ w₈ h₈.
                                        then-Configured fd fds w₈
                                          (set_nonblocking k fd opts.nonblocking w₈) _ h₈
                                          (set_nonblocking-Keeps k ledger fd opts.nonblocking w₈)
                                          λ _ w₉ h₉.
                                            then-Configured fd fds w₉
                                              (last_os_error (bind fd af_can ifindex w₉)) _ h₉
                                              (last_os_error-Keeps k ledger w₉ _
                                                (bind_keeps fd af_can ifindex w₉))
                                              λ _ w₁₀ h₁₀.
                                                returned-Configured fd fds fd_rx_enabled w₁₀ h₁₀

  -- What a caller of `open` has afterwards.
  abbrev pub Opened : World → Result Socket IoError × World → Type 0
  Opened w (ok s, w') = open_fds w' ≡ s.fd ∷ open_fds w
  Opened w (err e, w') = open_fds w' ≡ open_fds w

  -- Whatever the calls answer, `open` either returns a socket, whose descriptor is then the only one
  -- that is open and was not, or it returns an error and leaves the open descriptors as they were.
  pub open_socket-Opened :
      (name : List ℕ) (opts : OpenOpts) (w : World) → Opened w (open_socket k name opts w)
  unfolding open_socket guarded Configured
  open_socket-Opened name opts w = elim (Bool-cases (name_is_valid libc.ifnamsiz name)) [
    | inr invalid ↦ rw invalid refl
    | inl valid ↦
        rw valid (asked (socket pf_can (bit_or libc.sock_raw libc.sock_cloexec) can_raw w) refl)
  ]
    where
      closed :
          (fd : ℕ) (r : Result Socket IoError × World)
          → Configured fd (fd ∷ open_fds w) r
          → Opened w (guarded k fd r)
      closed fd (ok s, w₁) (same, h) = h ∙ ap (λ (d : ℕ). d ∷ open_fds w) (sym same)
      closed fd (err e, w₁) h = close_closes fd (open_fds w) w₁ h

      asked :
          (r : Result ℕ ℕ × World)
          → socket pf_can (bit_or libc.sock_raw libc.sock_cloexec) can_raw w ≡ r
          → Opened w
              (proceed (last_os_error r) (λ fd w₁. guarded k fd (configure k fd name opts w₁)))
      asked (ok fd, w₁) e =
          closed fd (configure k fd name opts w₁)
            (configure-Configured fd name opts (fd ∷ open_fds w) w₁ (socket_opens _ _ _ fd w w₁ e))
      asked (err errno, w₁) e = socket_fails _ _ _ errno w w₁ e
