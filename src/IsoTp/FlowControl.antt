-- ===== src/IsoTp/FlowControl.antt =====
-- mcanbus/src/isotp.rs, `wait_for_fc`: the Flow Control frames of the other node.
use mcanbus.Base.{
  ℕ, zero, suc, ◌+◌, ◌%◌, ◌<◌, ◌≤◌, ◌≡◌, refl, min, arith, le→ltb, lt→ltb, List, [], ◌∷◌, ◌++◌,
  replicate,
}
use mcanbus.Base.Results.{ok, err}
use mcanbus.Io.{kind, timed_out, proceed}
use mcanbus.Channel.{Channel}
use mcanbus.Channel.Laws.{IsTimed}
use mcanbus.Frame.Id.{CanId}
use mcanbus.IsoTp.Encode.{Options, encode_fc_frame, fc_cts, fc_wait}
use mcanbus.IsoTp.Encode.Laws.{encode_fc_frame_lem, decode-encode_st_min}
use mcanbus.IsoTp.Receive.{again, done, on_fc, fc_loop, wait_for_fc}
use mcanbus.IsoTp.Receive.Arrivals.{Delivers, Arrives-time, recv_or_time_out-Arrives}

module _ (block_size st_min_ms padding : ℕ) where
  -- A frame that grants the sending, and one that asks to wait.
  abbrev pub grant : List ℕ
  grant = encode_fc_frame fc_cts block_size st_min_ms padding

  abbrev pub wait : List ℕ
  wait = encode_fc_frame fc_wait block_size st_min_ms padding

  on_fc-grant :
      (opts : Options) (waits : ℕ)
      → on_fc opts waits grant ≡ done (ok (block_size, min st_min_ms 127))
  unfolding on_fc
  on_fc-grant opts waits =
      rw
        (
          encode_fc_frame_lem fc_cts block_size st_min_ms padding,
          on_fc,
          decode-encode_st_min st_min_ms,
        )
        refl

  on_fc-again :
      (opts : Options) (waits : ℕ)
      → waits < opts.max_waits
      → opts.max_waits < 256
      → on_fc opts waits wait ≡ again (waits + 1)
  unfolding on_fc
  on_fc-again opts waits few small =
      let next : (waits + 1) % 256 ≡ waits + 1 = omega arith in
      rw
        (
          encode_fc_frame_lem fc_wait block_size st_min_ms padding,
          on_fc,
          next,
          le→ltb opts.max_waits (waits + 1) (omega arith),
        )
        refl

  on_fc-timed_out :
      (opts : Options)
      → opts.max_waits < 255
      → on_fc opts opts.max_waits wait ≡ done (err (kind timed_out))
  unfolding on_fc
  on_fc-timed_out opts small =
      let next : (opts.max_waits + 1) % 256 ≡ opts.max_waits + 1 = omega arith in
      rw
        (
          encode_fc_frame_lem fc_wait block_size st_min_ms padding,
          on_fc,
          next,
          lt→ltb opts.max_waits (opts.max_waits + 1) (omega arith),
        )
        refl

  module _ (ch : Channel) (rx_id : CanId) (deadline : ℕ) (timed : IsTimed ch) (opts : Options) where
    open ch use {World}
    open timed use {time}

    fc_loop-grant :
        (n inner fuel waits : ℕ) (w w' : World)
        → waits + n ≤ opts.max_waits
        → opts.max_waits < 256
        → deadline ≤ time w + inner
        → deadline < time w + fuel
        → Delivers ch rx_id deadline w (replicate n wait ++ grant ∷ []) w'
        → fc_loop ch rx_id deadline opts inner fuel waits w
          ≡ (ok (block_size, min st_min_ms 127), w')
    unfolding fc_loop
    fc_loop-grant zero inner zero waits w w' few small i f (frame, w₁, arrival, body, more) =
        absurd (omega (arith, Arrives-time ch rx_id deadline timed arrival))
    fc_loop-grant (suc n) inner zero waits w w' few small i f (frame, w₁, arrival, body, more) =
        absurd (omega (arith, Arrives-time ch rx_id deadline timed arrival))
    fc_loop-grant zero inner (suc fuel) waits w w' few small i f (frame, w₁, arrival, body, more) =
        rw
          (
            recv_or_time_out-Arrives ch rx_id deadline timed inner i arrival,
            proceed,
            body,
            on_fc-grant opts waits,
            more,
          )
          refl
    fc_loop-grant (suc n) inner (suc fuel) waits w w' few small i f
          (frame, w₁, arrival, body, more) =
        let passed = Arrives-time ch rx_id deadline timed arrival in
        rw
          (
            recv_or_time_out-Arrives ch rx_id deadline timed inner i arrival,
            proceed,
            body,
            on_fc-again opts waits (omega arith) small,
          )
          (fc_loop-grant n inner fuel (waits + 1) w₁ w' (omega arith) small (omega arith)
            (omega arith) more)

    fc_loop-timed_out :
        (n inner fuel waits : ℕ) (w w' : World)
        → waits + n ≡ opts.max_waits
        → opts.max_waits < 255
        → deadline ≤ time w + inner
        → deadline < time w + fuel
        → Delivers ch rx_id deadline w (replicate (suc n) wait) w'
        → fc_loop ch rx_id deadline opts inner fuel waits w ≡ (err (kind timed_out), w')
    unfolding fc_loop
    fc_loop-timed_out n inner zero waits w w' count small i f (frame, w₁, arrival, body, more) =
        absurd (omega (arith, Arrives-time ch rx_id deadline timed arrival))
    fc_loop-timed_out zero inner (suc fuel) waits w w' count small i f
          (frame, w₁, arrival, body, more) =
        let last : waits ≡ opts.max_waits = omega arith in
        rw
          (
            recv_or_time_out-Arrives ch rx_id deadline timed inner i arrival,
            proceed,
            body,
            last,
            on_fc-timed_out opts small,
            more,
          )
          refl
    fc_loop-timed_out (suc n) inner (suc fuel) waits w w' count small i f
          (frame, w₁, arrival, body, more) =
        let passed = Arrives-time ch rx_id deadline timed arrival in
        rw
          (
            recv_or_time_out-Arrives ch rx_id deadline timed inner i arrival,
            proceed,
            body,
            on_fc-again opts waits (omega arith) (omega arith),
          )
          (fc_loop-timed_out n inner fuel (waits + 1) w₁ w' (omega arith) small (omega arith)
            (omega arith) more)

    -- When the other node asks to wait at most `max_waits` times, a number of a `u8`, and then grants
    -- the sending, all before the deadline and among whatever other frames, `wait_for_fc` returns the
    -- block size and the separation time that it asked for, the latter at most 127 ms.
    pub wait_for_fc-grant :
        (n fuel : ℕ) (w w' : World)
        → n ≤ opts.max_waits
        → opts.max_waits < 256
        → deadline < time w + fuel
        → Delivers ch rx_id deadline w (replicate n wait ++ grant ∷ []) w'
        → wait_for_fc ch rx_id deadline opts fuel w ≡ (ok (block_size, min st_min_ms 127), w')
    unfolding wait_for_fc
    wait_for_fc-grant n fuel w w' few small enough d =
        fc_loop-grant n fuel fuel 0 w w' (omega arith) small (omega arith) enough d

    -- When the other node asks once more than max_waits times to wait, a number below 255, and all
    -- of that before the deadline, wait_for_fc gives up there with the error for a timeout.
    pub wait_for_fc-timed_out :
        (fuel : ℕ) (w w' : World)
        → opts.max_waits < 255
        → deadline < time w + fuel
        → Delivers ch rx_id deadline w (replicate (suc opts.max_waits) wait) w'
        → wait_for_fc ch rx_id deadline opts fuel w ≡ (err (kind timed_out), w')
    unfolding wait_for_fc
    wait_for_fc-timed_out fuel w w' small enough d =
        fc_loop-timed_out opts.max_waits fuel fuel 0 w w' (omega arith) small (omega arith) enough d
