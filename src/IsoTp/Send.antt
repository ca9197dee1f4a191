-- ===== src/IsoTp/Send.antt =====
-- mcanbus/src/isotp.rs, the sending side. A loop takes its number of rounds as fuel.
pub mod Laws
pub mod Blocks
pub mod Time
use mcanbus.Base.{
  ℕ, zero, suc, ◌+◌, ◌-◌, ◌%◌, ◌^◌, min, bit_and, Bool, true, false, ◌&&◌, List, ltb, ◌==◌, ◌!=◌,
  if◌then◌else◌, length, take, drop,
}
use mcanbus.Base.Results.{map_err}
use mcanbus.Io.{
  Io, kind, unsupported, out_of_fuel, from_frame_error, ◌>>=◌, ◌>>◌, pure, throw, lift,
}
use mcanbus.Channel.{Channel}
use mcanbus.Frame.Id.{CanId}
use mcanbus.Frame.Data.{new_classic}
use mcanbus.IsoTp.Encode.{
  Options, encode_sf_frame, encode_ff_frame, encode_cf_frame, encode_fc_frame, fc_cts,
  ff_first_payload, cf_payload,
}

-- `seq` and `block_count` after one more frame.
unfoldable pub next_seq : ℕ → ℕ
next_seq seq = bit_and ((seq + 1) % 2 ^ 8) 0x0f

abbrev pub saturating_add_one : ℕ → ℕ
saturating_add_one block_count = min (block_count + 1) 255

module _ (ch : Channel) (tx_id : CanId) where
  open ch use {World, sleep, send}

  -- `socket.send(&Frame::new_classic(tx_id, &buf)?)`
  unfoldable pub transmit : List ℕ → Io World (Unit {0})
  transmit buf = do frame ← lift (map_err from_frame_error (new_classic tx_id buf)); send frame

  unfoldable pub send_sf : List ℕ → Options → Io World (Unit {0})
  send_sf payload opts = transmit (encode_sf_frame payload opts.padding)

  unfoldable pub send_ff : List ℕ → Options → Io World (Unit {0})
  send_ff payload opts =
      transmit
        (encode_ff_frame (length payload % 2 ^ 16) (take ff_first_payload payload) opts.padding)

  unfoldable pub send_fc : Options → Io World (Unit {0})
  send_fc opts = transmit (encode_fc_frame fc_cts opts.block_size opts.st_min_ms opts.padding)

  -- The pause between two frames.
  unfoldable pub pause : ℕ → Bool → Io World (Unit {0})
  pause st_min_ms more =
      if ltb 0 st_min_ms && more then (λ w. pure tt (sleep st_min_ms w)) else pure tt

  module _ (rest : List ℕ) (bs st_min_ms : ℕ) (opts : Options) where
    -- The `while` loop at `seq`, `block_count` and `offset`.
    unfoldable pub cf_loop : ℕ → ℕ → ℕ → ℕ → Io World (Unit {0})
    cf_loop zero seq block_count offset = throw out_of_fuel
    cf_loop (suc fuel) seq block_count offset =
        let end = min (offset + cf_payload) (length rest) in
        let more = ltb end (length rest) in
        let count = saturating_add_one block_count in
        if ltb offset (length rest)
        then transmit (encode_cf_frame seq (take (end - offset) (drop offset rest)) opts.padding)
          >> (if bs != 0 && count == bs && more
              then throw (kind unsupported)
              else (pause st_min_ms more >> (λ w. cf_loop fuel (next_seq seq) count end w)))
        else pure tt

    -- Each round sends at least one byte, so the loop ends within `length rest + 1` rounds.
    unfoldable pub send_consecutive_frames : Io World (Unit {0})
    send_consecutive_frames = cf_loop (suc (length rest)) 1 0 0
