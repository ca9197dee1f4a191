-- ===== src/IsoTp/Termination/Loops.antt =====
-- mcanbus/src/isotp.rs: how the loops that receive end.
use mcanbus.Base.{ℕ, zero, suc, ◌+◌, ◌<◌, List, arith, ltb, Bool-cases, inl, inr, length}
use mcanbus.Base.Results.{Result, ok, err}
use mcanbus.Io.{Io, IoError, throw, lift, ◌>>◌}
use mcanbus.Channel.{Channel}
use mcanbus.Channel.Laws.{IsTimed, Ended, ok-Ended}
use mcanbus.Frame.Id.{CanId}
use mcanbus.Frame.Data.{payload}
use mcanbus.IsoTp.Encode.{Options}
use mcanbus.IsoTp.Send.{send_fc}
use mcanbus.IsoTp.Receive.{
  FcStep, FirstStep, recv_or_time_out, on_fc, again, done, fc_loop, on_first, whole, segmented,
  on_cf, collect, receive_response,
}
use mcanbus.IsoTp.Termination.Outcomes.{Steady, pass_on, then-Steady, then-Timely}
use mcanbus.IsoTp.Termination.Steps.{
  FcEnds, again_ends, done_ends, FirstEnds, whole_ends, segmented_ends, on_fc-FcEnds,
  on_first-FirstEnds, on_cf-Ended,
}
use mcanbus.IsoTp.Termination.Sending.{transmit-Steady}
use mcanbus.IsoTp.Termination.Waiting.{recv_or_time_out-Timely}

module _ (ch : Channel) (timed : IsTimed ch) where
  open ch use {World, now, sleep, send, recv}
  open timed use {
    time, now_reads, now_passes, sleep_passes, send_passes, recv_passes, send_ends, recv_ends,
  }

  module _ (rx_id : CanId) (deadline : ℕ) where
    pub fc_loop-Steady :
        (opts : Options) (inner fuel waits : ℕ) (w : World)
        → deadline < time w + inner
        → deadline < time w + fuel
        → 0 < inner
        → 0 < fuel
        → Steady ch timed w (fc_loop ch rx_id deadline opts inner fuel waits w)
    unfolding fc_loop
    fc_loop-Steady opts inner zero waits w h k i pos = absurd (omega arith)
    fc_loop-Steady opts inner (suc fuel) waits w h k i pos =
        then-Timely ch timed deadline w (recv_or_time_out ch rx_id deadline inner w) _
          (recv_or_time_out-Timely ch timed rx_id deadline inner w h i)
          (λ frame w₁ lt before.
            decided (on_fc opts waits (payload frame)) (on_fc-FcEnds opts waits (payload frame)) w₁
              (λ waits'.
                fc_loop-Steady opts inner fuel waits' w₁ (omega arith) (omega arith) i
                  (omega arith)))
      where
        decided :
            (step : FcStep)
            → FcEnds step
            → (w₁ : World)
            → ((waits' : ℕ)
                → Steady ch timed w₁ (fc_loop ch rx_id deadline opts inner fuel waits' w₁))
            → Steady ch timed w₁ (
                elim step as (λ s. Io World (ℕ × ℕ)) [
                  | again waits' ↦ λ w₂. fc_loop ch rx_id deadline opts inner fuel waits' w₂
                  | done r ↦ lift r
                ]
                  w₁)
        decided (again waits') again_ends w₁ rest = rest waits'
        decided (done r) (done_ends ends) w₁ rest = (ends, omega arith)

    pub collect-Steady :
        (total inner fuel : ℕ) (out : List ℕ) (seq : ℕ) (w : World)
        → deadline < time w + inner
        → deadline < time w + fuel
        → 0 < inner
        → 0 < fuel
        → Steady ch timed w (collect ch rx_id deadline total inner fuel out seq w)
    unfolding collect
    collect-Steady total inner zero out seq w h k i pos = absurd (omega arith)
    collect-Steady total inner (suc fuel) out seq w h k i pos =
        elim (Bool-cases (ltb (length out) total)) [
          | inl more ↦ rw more (
              then-Timely ch timed deadline w (recv_or_time_out ch rx_id deadline inner w) _
                (recv_or_time_out-Timely ch timed rx_id deadline inner w h i)
                (λ frame w₁ lt before.
                  decided (on_cf total out seq (payload frame))
                    (on_cf-Ended total out seq (payload frame)) w₁
                    (λ out' seq'.
                      collect-Steady total inner fuel out' seq' w₁ (omega arith) (omega arith) i
                        (omega arith))))
          | inr full ↦ rw full (ok-Ended out, omega arith)
        ]
      where
        decided :
            (r : Result (List ℕ × ℕ) IoError)
            → Ended r
            → (w₁ : World)
            → ((out' : List ℕ) (seq' : ℕ)
                → Steady ch timed w₁ (collect ch rx_id deadline total inner fuel out' seq' w₁))
            → Steady ch timed w₁ (
                elim r as (λ s. Io World (List ℕ)) [
                  | err e ↦ throw e
                  | ok (out', seq') ↦ λ w₂. collect ch rx_id deadline total inner fuel out' seq' w₂
                ]
                  w₁)
        decided (ok (out', seq')) ends w₁ rest = rest out' seq'
        decided (err e) ends w₁ rest = (pass_on ch timed e ends, omega arith)

    pub receive_response-Steady :
        (tx_id : CanId) (opts : Options) (fuel : ℕ) (w : World)
        → deadline < time w + fuel
        → 0 < fuel
        → Steady ch timed w (receive_response ch rx_id deadline tx_id opts fuel w)
    unfolding receive_response send_fc
    receive_response-Steady tx_id opts fuel w h pos =
        then-Timely ch timed deadline w (recv_or_time_out ch rx_id deadline fuel w) _
          (recv_or_time_out-Timely ch timed rx_id deadline fuel w h pos)
          (λ frame w₁ lt before.
            decided (on_first (payload frame)) (on_first-FirstEnds (payload frame)) w₁
              (omega arith))
      where
        decided :
            (step : FirstStep)
            → FirstEnds step
            → (w₁ : World) → deadline < time w₁ + fuel
            → Steady ch timed w₁ (
                elim step as (λ s. Io World (List ℕ)) [
                  | whole r ↦ lift r
                  | segmented total chunk ↦
                      send_fc ch tx_id opts >> collect ch rx_id deadline total fuel fuel chunk 1
                ]
                  w₁)
        decided (whole r) (whole_ends ends) w₁ h' = (ends, omega arith)
        decided (segmented total chunk) segmented_ends w₁ h' =
            then-Steady ch timed w₁ (send_fc ch tx_id opts w₁) _
              (transmit-Steady ch timed tx_id _ w₁)
              (λ _ w₂ le.
                collect-Steady total fuel fuel chunk 1 w₂ (omega arith) (omega arith) pos pos)
