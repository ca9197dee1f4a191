-- ===== src/Socket/Ledger.antt =====
-- The calls of mcanbus/src/socket.rs on the kernel: the open file descriptors.
use mcanbus.Base.{ℕ, ◌≡◌, List, ◌∷◌}
use mcanbus.Base.Results.{ok, err}
use mcanbus.Socket.Kernel.{Kernel, OptValue}

-- The descriptors that the process has open: `socket` adds one, `close` takes it away, and the
-- other calls of `open` leave them alone.
pub record Ledger (k : Kernel) : Type 0 where
  pub open_fds : k.World → List ℕ
  pub socket_opens :
      (domain type protocol fd : ℕ) (w w' : k.World)
      → k.socket domain type protocol w ≡ (ok fd, w')
      → open_fds w' ≡ fd ∷ open_fds w
  pub socket_fails :
      (domain type protocol errno : ℕ) (w w' : k.World)
      → k.socket domain type protocol w ≡ (err errno, w')
      → open_fds w' ≡ open_fds w
  pub close_closes :
      (fd : ℕ) (fds : List ℕ) (w : k.World) → open_fds w ≡ fd ∷ fds → open_fds (k.close fd w) ≡ fds
  pub ioctl_keeps :
      (fd : ℕ) (name : List ℕ) (w : k.World) → open_fds (k.ioctl_ifindex fd name w).1 ≡ open_fds w
  pub setsockopt_keeps :
      (fd level name : ℕ) (value : OptValue) (w : k.World)
      → open_fds (k.setsockopt fd level name value w).1 ≡ open_fds w
  pub get_flags_keeps : (fd : ℕ) (w : k.World) → open_fds (k.get_flags fd w).1 ≡ open_fds w
  pub set_flags_keeps :
      (fd flags : ℕ) (w : k.World) → open_fds (k.set_flags fd flags w).1 ≡ open_fds w
  pub bind_keeps :
      (fd family ifindex : ℕ) (w : k.World) → open_fds (k.bind fd family ifindex w).1 ≡ open_fds w
