-- ===== src/IsoTp/Termination.antt =====
-- mcanbus/src/isotp.rs, `request`: how it ends. The fuel of a loop that waits is used up no faster
-- than time passes.
pub mod Outcomes
pub mod Steps
pub mod Sending
pub mod Waiting
pub mod Loops
use mcanbus.Base.{
  ◌*◌, ◌%◌, ◌^◌, ◌||◌, get_or, bit_and, bit_or, ℕ, zero, suc, ◌+◌, ◌≤◌, ◌<◌, ◌≡◌, refl, Bool, true,
  false, Option, none, some, List, [], ◌∷◌, ◌++◌, arith, ltb, ltb→lt, ltb→le, leb, ◌==◌, ◌!=◌, ◌&&◌,
  if◌then◌else◌, Bool-cases, either_branch, inl, inr, length, drop,
}
use mcanbus.Base.Results.{Result, ok, err, map_err}
use mcanbus.Io.{
  Io, IoError, ErrorKind, kind, unsupported, throw, pure, lift, proceed, out_of_fuel, ◌>>◌,
  from_frame_error, invalid_input, invalid_data, other, timed_out,
}
use mcanbus.Channel.{Channel}
use mcanbus.Channel.Laws.{IsTimed, Ended, ok-Ended, kind-Ended}
use mcanbus.Frame.Id.{CanId}
use mcanbus.Frame.Data.{Frame, FrameError, new_classic, payload, data_too_long}
use mcanbus.IsoTp.Encode.{
  Options, max_ff_length, pci_type_mask, pci_sf, pci_ff, pci_fc, pci_cf, fc_cts, fc_wait,
  fc_overflow, sf_max_len, ff_first_payload,
}
use mcanbus.IsoTp.Segments.{chunks, numbered, is_more}
use mcanbus.IsoTp.Send.{
  transmit, pause, send_sf, send_ff, send_fc, send_consecutive_frames, saturating_add_one,
}
use mcanbus.IsoTp.Send.Laws.{send_numbered, send_consecutive_frames-send_numbered}
use mcanbus.IsoTp.Receive.{
  FcStep, FirstStep, on_sf, on_ff, accept, recv_with_id, recv_or_time_out, on_fc, again, done,
  fc_loop, wait_for_fc, on_first, whole, segmented, on_cf, collect, receive_response,
}
use mcanbus.IsoTp.Request.{send_request, exchange, request}
use mcanbus.IsoTp.Termination.Outcomes.{
  Steady, Timely, Watched, earlier-Watched, pass_on, then-Steady, then-Timely,
}
use mcanbus.IsoTp.Termination.Sending.{transmit-Steady, send_numbered-Steady}
use mcanbus.IsoTp.Termination.Waiting.{recv_or_time_out-Timely}
use mcanbus.IsoTp.Termination.Loops.{fc_loop-Steady, receive_response-Steady}

module _ (ch : Channel) (timed : IsTimed ch) where
  open ch use {World, now, sleep, send, recv}
  open timed use {
    time, now_reads, now_passes, sleep_passes, send_passes, recv_passes, send_ends, recv_ends,
  }

  module _ (tx_id rx_id : CanId) (payload : List ℕ) (opts : Options) (fuel : ℕ) where
    pub send_request-Steady :
        (deadline : ℕ) (w : World)
        → deadline < time w + fuel
        → 0 < fuel
        → Steady ch timed w (send_request ch tx_id rx_id payload opts fuel deadline w)
    unfolding send_request send_sf send_ff wait_for_fc
    send_request-Steady deadline w h pos = elim (Bool-cases (leb (length payload) sf_max_len)) [
      | inl short ↦ rw short (transmit-Steady ch timed tx_id _ w)
      | inr long ↦ rw long (
          then-Steady ch timed w (send_ff ch tx_id payload opts w) _
            (transmit-Steady ch timed tx_id _ w)
            (λ _ w₁ le.
              then-Steady ch timed w₁ (wait_for_fc ch rx_id deadline opts fuel w₁) _
                (fc_loop-Steady ch timed rx_id deadline opts fuel fuel 0 w₁ (omega arith)
                  (omega arith) pos pos)
                (λ fc w₂ le₂.
                  rw
                    (send_consecutive_frames-send_numbered ch tx_id (drop ff_first_payload payload)
                      fc.0 fc.1 opts)
                    (send_numbered-Steady ch timed tx_id fc.0 fc.1 0
                      (numbered opts.padding 1 (chunks (drop ff_first_payload payload))) w₂))))
    ]

    -- With more rounds than the timeout, a request ends with its response or an error of the source,
    -- and never for want of fuel, whatever the channel does.
    pub request-Ended :
        (w : World) → opts.timeout < fuel → Ended (request ch tx_id rx_id payload opts fuel w).0
    unfolding request exchange
    request-Ended w enough = elim (Bool-cases (length payload == 0)) [
      | inl empty ↦ rw empty (kind-Ended invalid_input)
      | inr some_bytes ↦ elim (Bool-cases (ltb max_ff_length (length payload))) [
        | inl long ↦ rw (some_bytes, long) (kind-Ended invalid_input)
        | inr fits ↦ rw (some_bytes, fits) begun.0
      ]
    ]
      where
        begun :
            Steady ch timed
              (now w).1
              (exchange ch tx_id rx_id payload opts fuel ((now w).0 + opts.timeout) (now w).1)
        begun =
            then-Steady ch timed (now w).1
              (send_request ch tx_id rx_id payload opts fuel ((now w).0 + opts.timeout) (now w).1) _
              (send_request-Steady ((now w).0 + opts.timeout) (now w).1
                (omega (arith, now_passes w)) (omega arith))
              (λ _ w₁ le.
                receive_response-Steady ch timed rx_id ((now w).0 + opts.timeout) tx_id opts fuel w₁
                  (omega (arith, now_passes w)) (omega arith))
