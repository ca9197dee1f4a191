-- ===== src/Socket/RawFd.antt =====
-- mcanbus/src/socket.rs: a socket given away as a raw descriptor, and taken back from one.
use mcanbus.Base.{◌∷◌, ℕ, ◌≡◌, refl, true, List}
use mcanbus.Frame.Data.{Frame}
use mcanbus.Socket.Kernel.{Kernel}
use mcanbus.Socket.Ledger.{Ledger}
use mcanbus.Socket.Open.{drop_socket}
use mcanbus.Socket.Transfer.{Socket, recv, recv_decoded, recv_batch, send, send_batch}

unfoldable pub as_raw_fd : Socket → ℕ
as_raw_fd self = self.fd

-- `mem::forget(self)`: the socket is not dropped, so the world stays as it is.
unfoldable pub into_raw_fd : {W : Type 0} → Socket → W → ℕ × W
into_raw_fd self w = (self.fd, w)

unfoldable pub from_raw_fd : ℕ → Socket
from_raw_fd fd = record { fd = fd; fd_rx_enabled = true }

module _ (k : Kernel) (ledger : Ledger k) where
  open k use {World}
  open ledger use {open_fds, close_closes}

  -- A socket that is made of the descriptor of another one receives and sends what that would have
  -- received and sent; giving a socket away closes nothing, and dropping what is made of its
  -- descriptor closes this descriptor and no other.
  pub from_raw_fd-into_raw_fd :
      (socket : Socket) (fds : List ℕ) (w : World)
      → open_fds w ≡ socket.fd ∷ fds
      → let (fd, w') = into_raw_fd socket w in
        let taken = from_raw_fd fd in
        (recv k taken w' ≡ recv k socket w)
        × (recv_decoded k taken w' ≡ recv_decoded k socket w)
        × ((out : List Frame) → recv_batch k taken out w' ≡ recv_batch k socket out w)
        × ((frame : Frame) → send k taken frame w' ≡ send k socket frame w)
        × ((frames : List Frame) → send_batch k taken frames w' ≡ send_batch k socket frames w)
        × (open_fds w' ≡ open_fds w)
        × (open_fds (drop_socket k taken w') ≡ fds)
  unfolding into_raw_fd from_raw_fd recv recv_decoded recv_batch send send_batch drop_socket
  from_raw_fd-into_raw_fd socket fds w held = (
    refl,
    refl,
    λ out. refl,
    λ frame. refl,
    λ frames. refl,
    refl,
    close_closes socket.fd fds w held,
  )
