-- ===== src/Socket/Timestamp.antt =====
-- mcanbus/src/socket.rs, `extract_timestamp_ns`: the best time stamp among the control messages.
use mcanbus.Base.{
  ℕ, ◌+◌, ◌*◌, ◌%◌, ◌^◌, ◌≡◌, Bool, true, false, ◌&&◌, ◌||◌, arith, Option, none, some, List, [],
  ◌∷◌, ◌++◌, ◌==◌, ◌!=◌, if◌then◌else◌, get_or, All,
}
use mcanbus.Socket.Kernel.{Timespec, Cmsg, Libc}

unfoldable pub timespec_to_ns : Timespec → ℕ
timespec_to_ns ts = (ts.tv_sec * 1_000_000_000 + ts.tv_nsec) % 2 ^ 64

abbrev pub no_time : Timespec
no_time = record { tv_sec = 0; tv_nsec = 0 }

abbrev pub is_set : Timespec → Bool
is_set ts = ts.tv_sec != 0 || ts.tv_nsec != 0

abbrev pub is_none : {A : Type 0} → Option A → Bool
is_none none = true
is_none (some a) = false

module _ (libc : Libc) where
  -- The walk over the control messages, with the best stamp so far. The kernel gives three stamps
  -- with `SO_TIMESTAMPING` and one with `SO_TIMESTAMPNS`.
  unfoldable pub best_of : Option ℕ → List Cmsg → Option ℕ
  best_of best [] = best
  best_of best (hdr ∷ later) =
      let hw = get_or hdr.stamps 2 no_time in
      let sw = get_or hdr.stamps 0 no_time in
      if hdr.cmsg_level == libc.sol_socket
      then (if hdr.cmsg_type == libc.so_timestamping
          then (if is_set hw
              then some (timespec_to_ns hw)
              else best_of (if is_set sw then some (timespec_to_ns sw) else best) later)
          else if hdr.cmsg_type == libc.so_timestampns && is_none best
          then best_of (some (timespec_to_ns sw)) later
          else best_of best later)
      else best_of best later

  unfoldable pub extract_timestamp_ns : List Cmsg → Option ℕ
  extract_timestamp_ns control = best_of none control

  -- Whether a message brings a time stamp of the hardware.
  abbrev pub is_hardware : Cmsg → Bool
  is_hardware hdr =
      hdr.cmsg_level == libc.sol_socket
      && hdr.cmsg_type == libc.so_timestamping
      && is_set (get_or hdr.stamps 2 no_time)

  best_of-hardware :
      (best : Option ℕ) (before after : List Cmsg) (hdr : Cmsg)
      → All (λ c. is_hardware c ≡ false) before
      → is_hardware hdr ≡ true
      → best_of best (before ++ hdr ∷ after) ≡ some (timespec_to_ns (get_or hdr.stamps 2 no_time))
  unfolding best_of
  best_of-hardware best [] after hdr none_before hw = ground (arith, hw)
  best_of-hardware best (c ∷ before) after hdr (not_hw, none_before) hw =
      let software = some (timespec_to_ns (get_or c.stamps 0 no_time)) in
      ground (
        arith,
        not_hw,
        best_of-hardware best before after hdr none_before hw,
        best_of-hardware software before after hdr none_before hw,
      )

  -- Of several control messages the first with a hardware stamp decides, whatever software stamps
  -- come before it or after it.
  pub extract_timestamp_ns-hardware :
      (before after : List Cmsg) (hdr : Cmsg)
      → All (λ c. is_hardware c ≡ false) before
      → is_hardware hdr ≡ true
      → extract_timestamp_ns (before ++ hdr ∷ after)
        ≡ some (timespec_to_ns (get_or hdr.stamps 2 no_time))
  unfolding extract_timestamp_ns
  extract_timestamp_ns-hardware before after hdr none_before hw =
      best_of-hardware none before after hdr none_before hw
