-- ===== src/IsoTp/Request.antt =====
-- mcanbus/src/isotp.rs, `request`.
use mcanbus.Base.{ℕ, ◌+◌, List, ltb, leb, ◌==◌, if◌then◌else◌, length, drop}
use mcanbus.Io.{Io, kind, invalid_input, ◌>>=◌, ◌>>◌, throw}
use mcanbus.Channel.{Channel}
use mcanbus.Frame.Id.{CanId}
use mcanbus.IsoTp.Encode.{Options, max_ff_length, sf_max_len, ff_first_payload}
use mcanbus.IsoTp.Send.{send_sf, send_ff, send_consecutive_frames}
use mcanbus.IsoTp.Receive.{wait_for_fc, receive_response}

module _ (ch : Channel) (tx_id rx_id : CanId) (payload : List ℕ) (opts : Options) (fuel : ℕ) where
  open ch use {World, now}

  -- Phase 1.
  unfoldable pub send_request : ℕ → Io World (Unit {0})
  send_request deadline =
      if leb (length payload) sf_max_len then send_sf ch tx_id payload opts else (do
        send_ff ch tx_id payload opts
        fc ← wait_for_fc ch rx_id deadline opts fuel
        send_consecutive_frames ch tx_id (drop ff_first_payload payload) fc.0 fc.1 opts)

  -- Both phases, under one deadline.
  unfoldable pub exchange : ℕ → Io World (List ℕ)
  exchange deadline = send_request deadline >> receive_response ch rx_id deadline tx_id opts fuel

  unfoldable pub request : Io World (List ℕ)
  unfolding exchange send_request
  request w =
      if length payload == 0
      then throw (kind invalid_input) w
      else if ltb max_ff_length (length payload)
      then throw (kind invalid_input) w
      else (let (started, w₁) = now w in exchange (started + opts.timeout) w₁)
