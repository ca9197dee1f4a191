-- ===== src/IsoTp/Exchange.antt =====
-- mcanbus/src/isotp.rs, `request`: both phases together.
use mcanbus.Base.{ℕ, ◌+◌, ◌≤◌, ◌<◌, ◌≡◌, refl, ap, arith, List, length, pos→==, le→ltb}
use mcanbus.Base.Results.{Result, ok}
use mcanbus.Io.{IoError, proceed}
use mcanbus.Channel.{Channel}
use mcanbus.Channel.Laws.{IsTimed}
use mcanbus.Frame.Id.{CanId}
use mcanbus.IsoTp.Encode.{Options, max_ff_length}
use mcanbus.IsoTp.Request.{send_request, exchange, request}
use mcanbus.IsoTp.RoundTrip.{Answers, receive_response-Answers}
use mcanbus.IsoTp.Termination.{send_request-Steady}

module _ (ch : Channel) (timed : IsTimed ch) where
  open ch use {World, now}
  open timed use {time, now_passes}

  -- When the request, of 1 to 4095 bytes, has been sent and the other node answers it with 1 to
  -- 4095 bytes before the deadline, `request` returns these bytes, whatever other frames come
  -- between, given more rounds than the timeout has nanoseconds.
  pub request-Answers :
      (tx_id rx_id : CanId) (payload : List ℕ) (opts : Options) (fuel : ℕ) (bytes : List ℕ)
      (w w₁ w' : World)
      → 1 ≤ length payload
      → length payload ≤ max_ff_length
      → opts.timeout < fuel
      → send_request ch tx_id rx_id payload opts fuel ((now w).0 + opts.timeout) (now w).1
        ≡ (ok tt, w₁)
      → Answers ch rx_id ((now w).0 + opts.timeout) timed tx_id opts bytes w₁ w'
      → request ch tx_id rx_id payload opts fuel w ≡ (ok bytes, w')
  unfolding request exchange
  request-Answers tx_id rx_id payload opts fuel bytes w w₁ w' k l enough sent answer =
      rw
        (
          pos→== (length payload) k,
          le→ltb max_ff_length (length payload) l,
          sent,
          proceed,
          receive_response-Answers ch rx_id ((now w).0 + opts.timeout) timed tx_id opts fuel bytes
              w₁ w' in_time answer,
        )
        refl
    where
      passed :
          time (now w).1
          ≤ time
              (send_request ch tx_id rx_id payload opts fuel ((now w).0 + opts.timeout) (now w).1).1
      passed =
          (send_request-Steady ch timed tx_id rx_id payload opts fuel ((now w).0 + opts.timeout)
            (now w).1 (omega (arith, now_passes w)) (omega arith)).1

      in_time : (now w).0 + opts.timeout < time w₁ + fuel
      in_time = omega (
        arith,
        now_passes w,
        passed,
        ap (λ (r : Result (Unit {0}) IoError × World). time r.1) sent,
      )
