-- ===== src/IsoTp/Termination/Sending.antt =====
-- mcanbus/src/isotp.rs: how the sending side ends.
use mcanbus.Base.{ℕ, Bool, true, false, List, [], ◌∷◌, arith, ltb, ◌==◌, ◌!=◌, ◌&&◌, if◌then◌else◌}
use mcanbus.Base.Results.{Result, ok, err, map_err}
use mcanbus.Io.{kind, unsupported, throw, pure, proceed, ◌>>◌, from_frame_error, invalid_input}
use mcanbus.Channel.{Channel}
use mcanbus.Channel.Laws.{IsTimed, ok-Ended, kind-Ended}
use mcanbus.Frame.Id.{CanId}
use mcanbus.Frame.Data.{Frame, FrameError, new_classic, data_too_long}
use mcanbus.IsoTp.Segments.{is_more}
use mcanbus.IsoTp.Send.{transmit, pause, saturating_add_one}
use mcanbus.IsoTp.Send.Laws.{send_numbered}
use mcanbus.IsoTp.Termination.Outcomes.{Steady, then-Steady}

module _ (ch : Channel) (timed : IsTimed ch) where
  open ch use {World, now, sleep, send, recv}
  open timed use {
    time, now_reads, now_passes, sleep_passes, send_passes, recv_passes, send_ends, recv_ends,
  }

  module _ (tx_id : CanId) where
    pub transmit-Steady : (buf : List ℕ) (w : World) → Steady ch timed w (transmit ch tx_id buf w)
    unfolding transmit from_frame_error
    transmit-Steady buf w = built (new_classic tx_id buf)
      where
        built :
            (r : Result Frame FrameError)
            → Steady ch timed w (proceed (map_err from_frame_error r, w) send)
        built (ok frame) = (send_ends frame w, send_passes frame w)
        built (err (data_too_long len max)) = (kind-Ended invalid_input, omega arith)

    pause-Steady :
        (st_min_ms : ℕ) (more : Bool) (w : World)
        → Steady ch timed w (pause ch tx_id st_min_ms more w)
    unfolding pause
    pause-Steady st_min_ms more w = delayed (ltb 0 st_min_ms && more)
      where
        delayed :
            (b : Bool)
            → Steady ch timed w ((if b then (λ w₁. pure tt (sleep st_min_ms w₁)) else pure tt) w)
        delayed true = (ok-Ended tt, sleep_passes st_min_ms w)
        delayed false = (ok-Ended tt, omega arith)

    pub send_numbered-Steady :
        (bs st_min_ms count : ℕ) (bodies : List (List ℕ)) (w : World)
        → Steady ch timed w (send_numbered ch tx_id bs st_min_ms count bodies w)
    unfolding send_numbered
    send_numbered-Steady bs st_min_ms count [] w = (ok-Ended tt, omega arith)
    send_numbered-Steady bs st_min_ms count (body ∷ more) w =
        then-Steady ch timed w (transmit ch tx_id body w) _ (transmit-Steady body w) (λ _ w₁ le.
          onward (bs != 0 && saturating_add_one count == bs && is_more more) w₁
            (λ w₂. send_numbered-Steady bs st_min_ms (saturating_add_one count) more w₂))
      where
        onward :
            (full : Bool) (w₁ : World)
            → ((w₂ : World)
                → Steady ch timed w₂
                    (send_numbered ch tx_id bs st_min_ms (saturating_add_one count) more w₂))
            → Steady ch timed w₁ (
                (if full
                    then throw (kind unsupported)
                    else (pause ch tx_id st_min_ms (is_more more)
                        >> send_numbered ch tx_id bs st_min_ms (saturating_add_one count) more))
                  w₁)
        onward true w₁ rest = (kind-Ended unsupported, omega arith)
        onward false w₁ rest =
            then-Steady ch timed w₁ (pause ch tx_id st_min_ms (is_more more) w₁) _
              (pause-Steady st_min_ms (is_more more) w₁) (λ _ w₂ le. rest w₂)
