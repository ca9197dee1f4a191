-- ===== src/IsoTp/Receive.antt =====
-- mcanbus/src/isotp.rs, the receiving side. What is done with one frame is a function of its own;
-- the loops around it take fuel, a number of rounds that `IsoTp.Termination` shows to be enough.
pub mod Arrivals
pub mod Steps
use mcanbus.Base.{
  ℕ, zero, suc, ◌+◌, ◌-◌, ◌*◌, ◌%◌, ◌^◌, min, bit_and, bit_or, Bool, true, false, ◌||◌, Option,
  none, some, List, [], ◌∷◌, ◌++◌, ltb, leb, ◌==◌, ◌!=◌, if◌then◌else◌, length, take, drop, get_or,
}
use mcanbus.Base.Results.{Result, ok, err}
use mcanbus.Io.{
  Io, IoError, kind, invalid_data, timed_out, other, out_of_fuel, ◌>>=◌, ◌>>◌, pure, throw, lift,
}
use mcanbus.Channel.{Channel}
use mcanbus.Frame.Id.{CanId, standard, extended}
use mcanbus.Frame.Data.{Frame, payload}
use mcanbus.IsoTp.Encode.{
  Options, decode_st_min, pci_sf, pci_ff, pci_cf, pci_fc, pci_type_mask, fc_cts, fc_wait,
  fc_overflow, sf_max_len, cf_payload,
}
use mcanbus.IsoTp.Send.{send_fc, next_seq}

-- The derived `PartialEq` of `CanId`.
unfoldable pub id_eq : CanId → CanId → Bool
id_eq (standard a) (standard b) = a == b
id_eq (extended a) (extended b) = a == b
id_eq _ _ = false

-- The arms of the match in `recv_with_id`: a frame with the expected identifier, or none.
unfoldable pub accept : CanId → Option Frame → Option Frame
unfolding id_eq
accept expected_id none = none
accept expected_id (some frame) = if id_eq frame.id expected_id then some frame else none

-- Flow Control: go on waiting with a count, or return the block size and the separation time.
pub data FcStep : Type 0 where
  again : ℕ → FcStep
  done : Result (ℕ × ℕ) IoError → FcStep

-- The body of the loop in `wait_for_fc`. `waits` is a `u8` that wraps, as in a release build.
unfoldable pub on_fc : Options → ℕ → List ℕ → FcStep
on_fc opts waits [] = again waits
on_fc opts waits (pci ∷ more) =
    let flag = bit_and pci 0x0f in
    let waited = (waits + 1) % 2 ^ 8 in
    if bit_and pci pci_type_mask != pci_fc
    then done (err (kind invalid_data))
    else if flag == fc_cts
    then done (ok (get_or more 0 0, decode_st_min (get_or more 1 0)))
    else if flag == fc_wait
    then (if ltb opts.max_waits waited then done (err (kind timed_out)) else again waited)
    else if flag == fc_overflow
    then done (err (kind other))
    else done (err (kind invalid_data))

-- The first frame of a response: all of it, or the total length and the first bytes.
pub data FirstStep : Type 0 where
  whole : Result (List ℕ) IoError → FirstStep
  segmented : ℕ → List ℕ → FirstStep

unfoldable pub on_sf : ℕ → List ℕ → FirstStep
on_sf pci bytes =
    let len = bit_and pci 0x0f in
    if len == 0 || ltb sf_max_len len || ltb (length bytes) (1 + len)
    then whole (err (kind invalid_data))
    else whole (ok (take len (drop 1 bytes)))

unfoldable pub on_ff : ℕ → List ℕ → FirstStep
on_ff pci bytes =
    let total = bit_or (bit_and pci 0x0f * 2 ^ 8) (get_or bytes 1 0) in
    if ltb (length bytes) 2
    then whole (err (kind invalid_data))
    else if leb total sf_max_len
    then whole (err (kind invalid_data))
    else segmented total (take (min (length bytes - 2) total) (drop 2 bytes))

-- The arms for `PCI_CF`, `PCI_FC` and any other type differ in the text of their error only.
unfoldable pub on_first : List ℕ → FirstStep
unfolding on_sf on_ff
on_first [] = whole (err (kind invalid_data))
on_first (pci ∷ more) =
    let type = bit_and pci pci_type_mask in
    if type == pci_sf
    then on_sf pci (pci ∷ more)
    else if type == pci_ff
    then on_ff pci (pci ∷ more)
    else whole (err (kind invalid_data))

-- The body of the loop over Consecutive Frames: the bytes so far and the next number.
unfoldable pub on_cf : ℕ → List ℕ → ℕ → List ℕ → Result (List ℕ × ℕ) IoError
on_cf total out expected_seq [] = err (kind invalid_data)
on_cf total out expected_seq (pci ∷ more) =
    let taken = min (min (total - length out) (length more)) cf_payload in
    if bit_and pci pci_type_mask != pci_cf
    then err (kind invalid_data)
    else if bit_and pci 0x0f != expected_seq
    then err (kind invalid_data)
    else ok (out ++ take taken more, next_seq expected_seq)

module _ (ch : Channel) (rx_id : CanId) (deadline : ℕ) where
  open ch use {World, now, recv}

  unfoldable pub recv_with_id : ℕ → Io World (Option Frame)
  recv_with_id zero w = (err out_of_fuel, w)
  recv_with_id (suc fuel) w =
      let (instant, w₁) = now w in
      if ltb instant deadline
      then (recv >>= λ got. elim (accept rx_id got) [
        | none ↦ λ w₂. recv_with_id fuel w₂
        | some frame ↦ pure (some frame)
      ])
          w₁
      else (ok none, w₁)

  -- `let Some(frame) = recv_with_id(…)? else { return Err(timed out) };`
  unfoldable pub recv_or_time_out : ℕ → Io World Frame
  recv_or_time_out fuel = recv_with_id fuel >>= λ got. elim got [
    | none ↦ throw (kind timed_out)
    | some frame ↦ pure frame
  ]

  -- `fuel` is spent on the rounds of this loop, `inner` on those of each `recv_with_id`.
  unfoldable pub fc_loop : Options → ℕ → ℕ → ℕ → Io World (ℕ × ℕ)
  fc_loop opts inner zero waits = throw out_of_fuel
  fc_loop opts inner (suc fuel) waits = recv_or_time_out inner >>= λ frame.
      elim (on_fc opts waits (payload frame)) [
        | again waits' ↦ λ w. fc_loop opts inner fuel waits' w
        | done r ↦ lift r
      ]

  unfoldable pub wait_for_fc : Options → ℕ → Io World (ℕ × ℕ)
  wait_for_fc opts fuel = fc_loop opts fuel fuel 0

  unfoldable pub collect : ℕ → ℕ → ℕ → List ℕ → ℕ → Io World (List ℕ)
  collect total inner zero out expected_seq = throw out_of_fuel
  collect total inner (suc fuel) out expected_seq =
      if ltb (length out) total
      then (recv_or_time_out inner >>= λ frame.
          elim (on_cf total out expected_seq (payload frame)) [
            | err e ↦ throw e
            | ok (out', seq') ↦ λ w. collect total inner fuel out' seq' w
          ])
      else pure out

  unfoldable pub receive_response : CanId → Options → ℕ → Io World (List ℕ)
  receive_response tx_id opts fuel = recv_or_time_out fuel >>= λ first.
      elim (on_first (payload first)) [
        | whole r ↦ lift r
        | segmented total chunk ↦ send_fc ch tx_id opts >> collect total fuel fuel chunk 1
      ]
