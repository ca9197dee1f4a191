-- ===== src/Iface/Netlink/Ledger.antt =====
-- mcanbus/src/iface.rs: the file descriptors of the requests over netlink.
use mcanbus.Base.{ℕ, ◌≡◌, refl, ◌∙◌, Bool, true, false, if◌then◌else◌, bit_or, List, ◌∷◌}
use mcanbus.Base.Results.{Result, ok, err}
use mcanbus.Io.{Io, IoError, kind, invalid_input, proceed, ◌>>=◌}
use mcanbus.Socket.Kernel.{Kernel, last_os_error}
use mcanbus.Socket.Ledger.{Ledger}
use mcanbus.Iface.Netlink.{
  Netlink, or_close, answered, nl_exchange, nl_set_iface_up, get_can_state_raw, index, has_nul,
  set_up, set_down, cycle, state, up_request, state_request,
}

-- The calls on a netlink socket, the look for an index and a sleep leave the open descriptors alone.
pub record NetlinkLedger (k : Kernel) (nl : Netlink k) (ledger : Ledger k) : Type 0 where
  pub nl_bind_keeps :
      (fd : ℕ) (w : k.World) → ledger.open_fds (nl.nl_bind fd w).1 ≡ ledger.open_fds w
  pub sendto_keeps :
      (fd : ℕ) (msg : List ℕ) (w : k.World)
      → ledger.open_fds (nl.sendto fd msg w).1 ≡ ledger.open_fds w
  pub nl_recv_keeps :
      (fd size : ℕ) (w : k.World) → ledger.open_fds (nl.nl_recv fd size w).1 ≡ ledger.open_fds w
  pub if_nametoindex_keeps :
      (name : List ℕ) (w : k.World)
      → ledger.open_fds (nl.if_nametoindex name w).1 ≡ ledger.open_fds w
  pub sleep_keeps : (ms : ℕ) (w : k.World) → ledger.open_fds (k.sleep ms w) ≡ ledger.open_fds w

module _ (k : Kernel) (nl : Netlink k) (ledger : Ledger k) (net : NetlinkLedger k nl ledger) where
  open k use {World, libc, socket, close, sleep}
  open nl use {af_netlink, netlink_route, nl_bind, sendto, nl_recv, if_nametoindex}
  open ledger use {open_fds, socket_opens, socket_fails, close_closes}
  open net use {nl_bind_keeps, sendto_keeps, nl_recv_keeps, if_nametoindex_keeps, sleep_keeps}

  -- An action that leaves the descriptors as they were, and the rule for the one after it.
  abbrev pub Keeps : {A : Type 0} → World → Result A IoError × World → Type 0
  Keeps w r = open_fds r.1 ≡ open_fds w

  pub then-Keeps :
      {A B : Type 0} (w : World) (r : Result A IoError × World) (f : A → Io World B)
      → Keeps w r
      → ((a : A) (w₁ : World) → open_fds w₁ ≡ open_fds w → Keeps w (f a w₁))
      → Keeps w (proceed r f)
  then-Keeps w (ok a, w₁) f keeps next = next a w₁ keeps
  then-Keeps w (err e, w₁) f keeps next = keeps

  -- While the socket `fd` is open: a step that may fail has closed it then.
  then_open-Keeps :
      {A B : Type 0} (w : World) (fd : ℕ) (r : Result A ℕ × World) (f : A → Io World B)
      → open_fds r.1 ≡ fd ∷ open_fds w
      → ((a : A) (w₁ : World) → open_fds w₁ ≡ fd ∷ open_fds w → Keeps w (f a w₁))
      → Keeps w (proceed (or_close k nl fd r) f)
  unfolding or_close
  then_open-Keeps w fd (ok a, w₁) f same next = next a w₁ same
  then_open-Keeps w fd (err e, w₁) f same next = close_closes fd (open_fds w) w₁ same

  answered-Keeps :
      (w : World) (fd : ℕ) (r : Result (List ℕ) ℕ × World)
      → open_fds r.1 ≡ fd ∷ open_fds w
      → Keeps w (answered k nl fd r)
  unfolding answered
  answered-Keeps w fd (ok bytes, w₁) same = close_closes fd (open_fds w) w₁ same
  answered-Keeps w fd (err e, w₁) same = close_closes fd (open_fds w) w₁ same

  nl_exchange-Keeps : (msg : List ℕ) (size : ℕ) (w : World) → Keeps w (nl_exchange k nl msg size w)
  unfolding nl_exchange
  nl_exchange-Keeps msg size w =
      opened (socket af_netlink (bit_or libc.sock_raw libc.sock_cloexec) netlink_route w) refl
    where
      opened :
          (r : Result ℕ ℕ × World)
          → socket af_netlink (bit_or libc.sock_raw libc.sock_cloexec) netlink_route w ≡ r
          → Keeps w (
              proceed (last_os_error r) (λ fd. (λ v. or_close k nl fd (nl_bind fd v)) >>= λ bound.
              (λ v. or_close k nl fd (sendto fd msg v)) >>= λ n.
              λ v. answered k nl fd (nl_recv fd size v)))
      opened (err e, w₁) same = socket_fails _ _ _ e w w₁ same
      opened (ok fd, w₁) same =
          let h₁ = socket_opens _ _ _ fd w w₁ same in
          then_open-Keeps w fd (nl_bind fd w₁) _ (nl_bind_keeps fd w₁ ∙ h₁) (λ bound w₂ h₂.
            then_open-Keeps w fd (sendto fd msg w₂) _ (sendto_keeps fd msg w₂ ∙ h₂)
              (λ n w₃ h₃. answered-Keeps w fd (nl_recv fd size w₃) (nl_recv_keeps fd size w₃ ∙ h₃)))

  nl_set_iface_up-Keeps :
      (idx : ℕ) (up : Bool) (w : World) → Keeps w (nl_set_iface_up k nl idx up w)
  unfolding nl_set_iface_up
  nl_set_iface_up-Keeps idx up w =
      then-Keeps w (nl_exchange k nl (up_request k nl idx up) 4096 w) _ (nl_exchange-Keeps _ 4096 w)
        (λ bytes w₁ h. h)

  get_can_state_raw-Keeps : (idx : ℕ) (w : World) → Keeps w (get_can_state_raw k nl idx w)
  unfolding get_can_state_raw
  get_can_state_raw-Keeps idx w =
      then-Keeps w (nl_exchange k nl (state_request k nl idx) 8192 w) _ (nl_exchange-Keeps _ 8192 w)
        (λ bytes w₁ h. h)

  index-Keeps : (name : List ℕ) (w : World) → Keeps w (index k nl name w)
  unfolding index
  index-Keeps name w =
      asked (has_nul k nl name) (if_nametoindex name w) (if_nametoindex_keeps name w)
    where
      asked :
          (nul : Bool) (r : Result ℕ ℕ × World)
          → open_fds r.1 ≡ open_fds w
          → Keeps w (if nul then (err (kind invalid_input), w) else last_os_error r)
      asked true r h = refl
      asked false (ok idx, w₁) h = h
      asked false (err e, w₁) h = h

  -- Over a kernel that opens and closes the descriptors that it says, every operation on an
  -- interface closes the socket that it opens, whatever else the kernel answers and wherever it
  -- ends: the open descriptors afterwards are those of before.
  pub operations-Keeps :
      (name : List ℕ) (w : World)
      → Keeps w (set_up k nl name w)
        × Keeps w (set_down k nl name w)
        × Keeps w (cycle k nl name w)
        × Keeps w (state k nl name w)
  unfolding set_up set_down cycle state
  operations-Keeps name w = (
    then-Keeps w (index k nl name w) _ (index-Keeps name w)
        (λ idx w₁ h. nl_set_iface_up-Keeps idx true w₁ ∙ h),
    then-Keeps w (index k nl name w) _ (index-Keeps name w)
        (λ idx w₁ h. nl_set_iface_up-Keeps idx false w₁ ∙ h),
    then-Keeps w (index k nl name w) _ (index-Keeps name w) (λ idx w₁ h.
        then-Keeps w (nl_set_iface_up k nl idx false w₁) _ (nl_set_iface_up-Keeps idx false w₁ ∙ h)
          (λ down w₂ h₂.
            nl_set_iface_up-Keeps idx true (sleep 150 w₂) ∙ (sleep_keeps 150 w₂ ∙ h₂))),
    then-Keeps w (index k nl name w) _ (index-Keeps name w) (λ idx w₁ h.
        then-Keeps w (get_can_state_raw k nl idx w₁) _ (get_can_state_raw-Keeps idx w₁ ∙ h)
          (λ raw w₂ h₂. h₂)),
  )
