-- ===== src/IsoTp/Termination/Waiting.antt =====
-- mcanbus/src/isotp.rs: how waiting for one frame ends.
use mcanbus.Base.{
  ℕ, zero, suc, ◌+◌, ◌<◌, Option, none, some, arith, ltb, ltb→lt, Bool-cases, inl, inr,
}
use mcanbus.Base.Results.{Result, ok, err}
use mcanbus.Io.{Io, IoError, kind, throw, pure, proceed, timed_out}
use mcanbus.Channel.{Channel}
use mcanbus.Channel.Laws.{IsTimed, Ended, kind-Ended}
use mcanbus.Frame.Id.{CanId}
use mcanbus.Frame.Data.{Frame}
use mcanbus.IsoTp.Receive.{accept, recv_with_id, recv_or_time_out}
use mcanbus.IsoTp.Termination.Outcomes.{Timely, Watched, earlier-Watched, pass_on}

module _ (ch : Channel) (timed : IsTimed ch) where
  open ch use {World, now, sleep, send, recv}
  open timed use {
    time, now_reads, now_passes, sleep_passes, send_passes, recv_passes, send_ends, recv_ends,
  }

  module _ (rx_id : CanId) (deadline : ℕ) where
    -- One look at the clock and one call of `recv`, and the rest of the loop.
    recv_with_id-Watched :
        (fuel : ℕ) (w : World)
        → deadline < time w + fuel
        → 0 < fuel
        → Watched ch timed deadline w (recv_with_id ch rx_id deadline fuel w)
    unfolding recv_with_id
    recv_with_id-Watched zero w h pos = absurd (omega arith)
    recv_with_id-Watched (suc fuel) w h pos = elim (Bool-cases (ltb (now w).0 deadline)) [
      | inl early ↦
          let before = ltb→lt (now w).0 deadline early in
          let spent : time w < time (recv (now w).1).1 =
            omega (arith, now_reads w, now_passes w, recv_passes (now w).1) in
          rw early (
            received (recv (now w).1) (recv_ends (now w).1) spent (omega (arith, now_reads w))
              (λ w₂ lt. recv_with_id-Watched fuel w₂ (omega arith) (omega (arith, now_reads w))))
      | inr late ↦ rw late (omega (arith, now_reads w, now_passes w))
    ]
      where
        judged :
            (accepted : Option Frame) (w₁ : World)
            → time w < time w₁
            → time w < deadline
            → ((w₂ : World)
                → time w < time w₂
                → Watched ch timed deadline w₂ (recv_with_id ch rx_id deadline fuel w₂))
            → Watched ch timed deadline w (
                elim accepted as (λ o. Io World (Option Frame)) [
                  | none ↦ λ w₂. recv_with_id ch rx_id deadline fuel w₂
                  | some frame ↦ pure (some frame)
                ]
                  w₁)
        judged none w₁ lt before rest = earlier-Watched ch timed deadline w w₁ _ lt (rest w₁ lt)
        judged (some frame) w₁ lt before rest = (lt, before)

        received :
            (r : Result (Option Frame) IoError × World)
            → Ended r.0
            → time w < time r.1
            → time w < deadline
            → ((w₂ : World)
                → time w < time w₂
                → Watched ch timed deadline w₂ (recv_with_id ch rx_id deadline fuel w₂))
            → Watched ch timed deadline w (
                proceed r (λ got. elim (accept rx_id got) as (λ o. Io World (Option Frame)) [
                  | none ↦ λ w₂. recv_with_id ch rx_id deadline fuel w₂
                  | some frame ↦ pure (some frame)
                ]))
        received (ok got, w₁) ends lt before rest = judged (accept rx_id got) w₁ lt before rest
        received (err e, w₁) ends lt before rest = (pass_on ch timed e ends, omega arith)

    pub recv_or_time_out-Timely :
        (fuel : ℕ) (w : World)
        → deadline < time w + fuel
        → 0 < fuel
        → Timely ch timed deadline w (recv_or_time_out ch rx_id deadline fuel w)
    unfolding recv_or_time_out
    recv_or_time_out-Timely fuel w h pos =
        found (recv_with_id ch rx_id deadline fuel w) (recv_with_id-Watched fuel w h pos)
      where
        found :
            (r : Result (Option Frame) IoError × World)
            → Watched ch timed deadline w r
            → Timely ch timed deadline w (
                proceed r (λ got. elim got as (λ o. Io World Frame) [
                  | none ↦ throw (kind timed_out)
                  | some frame ↦ pure frame
                ]))
        found (ok none, w₁) le = (kind-Ended timed_out, le)
        found (ok (some frame), w₁) h = h
        found (err e, w₁) h = h
