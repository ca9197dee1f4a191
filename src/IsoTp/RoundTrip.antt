-- ===== src/IsoTp/RoundTrip.antt =====
-- mcanbus/src/isotp.rs: a response that is segmented as the sending side segments.
use mcanbus.Base.{
  ℕ, zero, suc, ◌+◌, ◌%◌, ◌<◌, ◌≤◌, ◌≡◌, refl, ap, ◌∙◌, List, [], ◌∷◌, ◌++◌, arith, lt→ltb, le→ltb,
  length, take, drop, length-append, length-take, length-drop, take-append-drop,
}
use mathlib.Core.List.{append-nil, append_assoc}
use mcanbus.Base.Results.{Result, ok}
use mcanbus.Io.{IoError, proceed}
use mcanbus.Channel.{Channel}
use mcanbus.Channel.Laws.{IsTimed}
use mcanbus.Frame.Id.{CanId}
use mcanbus.Frame.Data.{Frame, payload}
use mcanbus.IsoTp.Encode.{
  Options, encode_sf_frame, encode_ff_frame, sf_max_len, max_ff_length, ff_first_payload,
}
use mcanbus.IsoTp.Segments.{chunks, chunks_upto, numbered}
use mcanbus.IsoTp.Send.{send_fc}
use mcanbus.IsoTp.Send.Time.{send_fc-time}
use mcanbus.IsoTp.Receive.{collect, receive_response}
use mcanbus.IsoTp.Receive.Arrivals.{Arrives, Delivers, Arrives-time, recv_or_time_out-Arrives}
use mcanbus.IsoTp.Receive.Steps.{
  on_first-encode_sf_frame, on_first-encode_ff_frame, on_cf-encode_cf_frame,
}

module _ (ch : Channel) (rx_id : CanId) (deadline : ℕ) (timed : IsTimed ch) where
  open ch use {World}
  open timed use {time}

  collect-Delivers :
      (total padding inner fuel seq m : ℕ) (out rest : List ℕ) (w w' : World)
      → total ≡ length out + length rest
      → seq < 16
      → length rest ≤ m
      → deadline ≤ time w + inner
      → deadline < time w + fuel
      → 0 < fuel
      → Delivers ch rx_id deadline w (numbered padding seq (chunks_upto rest m)) w'
      → collect ch rx_id deadline total inner fuel out seq w ≡ (ok (out ++ rest), w')
  unfolding collect
  collect-Delivers total padding inner zero seq m out rest w w' h k l f g pos d =
      absurd (omega arith)
  collect-Delivers total padding inner (suc fuel) seq m out [] w w' h k l f g pos d =
      rw (le→ltb (length out) total (omega arith), d, append-nil) refl
  collect-Delivers total padding inner (suc fuel) seq zero out (x ∷ rest) w w' h k l f g pos d =
      absurd (omega arith)
  collect-Delivers total padding inner (suc fuel) seq (suc m) out (x ∷ rest) w w' h k l f g pos
        (frame, w₁, arrival, body, more) =
      let passed = Arrives-time ch rx_id deadline timed arrival in
      let after : total ≡ length (out ++ take 7 (x ∷ rest)) + length (drop 6 rest) =
        omega
          (arith, length-append out (take 7 (x ∷ rest)), length-take 6 rest, length-drop 6 rest) in
      let fewer : length (drop 6 rest) ≤ m = omega (arith, length-drop 6 rest) in
      rw
        (
          lt→ltb (length out) total (omega arith),
          recv_or_time_out-Arrives ch rx_id deadline timed inner f arrival,
          proceed,
          body,
          on_cf-encode_cf_frame total seq out (x ∷ rest) padding h k,
        )
        (collect-Delivers total padding inner fuel ((seq + 1) % 16) m (out ++ take 7 (x ∷ rest))
            (drop 6 rest) w₁ w' after (omega arith) fewer (omega arith) (omega arith) (omega arith)
            more
          ∙ ap (λ (r : List ℕ). (ok r, w'))
              (append_assoc out (take 7 (x ∷ rest)) (drop 6 rest)
                ∙ ap (λ (t : List ℕ). out ++ t) (take-append-drop 7 (x ∷ rest))))

  -- A response as ISO 15765-2 has it, from `w` to `w'`: a Single Frame, or a First Frame, our Flow
  -- Control, and the Consecutive Frames, numbered from 1 modulo 16. The padding is the sender's.
  pub data Answers (tx_id : CanId) (opts : Options) (bytes : List ℕ) (w w' : World) : Type 0 where
    single :
        (frame : Frame) (padding : ℕ)
        → 1 ≤ length bytes
        → length bytes ≤ sf_max_len
        → Arrives ch rx_id deadline w frame w'
        → payload frame ≡ encode_sf_frame bytes padding
        → Answers tx_id opts bytes w w'
    multiple :
        (frame : Frame) (padding : ℕ) (w₁ w₂ : World)
        → sf_max_len < length bytes
        → length bytes ≤ max_ff_length
        → Arrives ch rx_id deadline w frame w₁
        → payload frame ≡ encode_ff_frame (length bytes) (take ff_first_payload bytes) padding
        → send_fc ch tx_id opts w₁ ≡ (ok tt, w₂)
        → Delivers ch rx_id deadline w₂
            (numbered padding 1 (chunks (drop ff_first_payload bytes)))
            w'
        → Answers tx_id opts bytes w w'

  -- A response of 1 to 4095 bytes that arrives before the deadline is returned whole, whatever
  -- other frames come between.
  pub receive_response-Answers :
      (tx_id : CanId) (opts : Options) (fuel : ℕ) (bytes : List ℕ) (w w' : World)
      → deadline < time w + fuel
      → Answers tx_id opts bytes w w'
      → receive_response ch rx_id deadline tx_id opts fuel w ≡ (ok bytes, w')
  unfolding receive_response
  receive_response-Answers tx_id opts fuel bytes w w' h (single frame padding k l a e) =
      rw
        (
          recv_or_time_out-Arrives ch rx_id deadline timed fuel (omega arith) a,
          proceed,
          e,
          on_first-encode_sf_frame bytes padding k l,
        )
        refl
  receive_response-Answers tx_id opts fuel bytes w w' h (multiple frame padding w₁ w₂ k l a e s d) =
      let passed = Arrives-time ch rx_id deadline timed a in
      let sent : time w₁ ≤ time w₂ =
        rw (ap (λ (r : Result (Unit {0}) IoError × World). r.1) s) at
          (send_fc-time ch timed tx_id opts w₁) in
      let six : length (take ff_first_payload bytes) ≡ ff_first_payload =
        omega (arith, length-take ff_first_payload bytes) in
      rw
        (
          recv_or_time_out-Arrives ch rx_id deadline timed fuel (omega arith) a,
          proceed,
          e,
          on_first-encode_ff_frame (length bytes) (take ff_first_payload bytes) padding k l six,
          s,
          proceed,
        )
        (collect-Delivers (length bytes) padding fuel fuel 1 (length (drop ff_first_payload bytes))
            (take ff_first_payload bytes) (drop ff_first_payload bytes) w₂ w'
            (omega (arith, six, length-drop ff_first_payload bytes)) (omega arith) (omega arith)
            (omega (arith, sent)) (omega (arith, sent)) (omega arith) d
          ∙ ap (λ (r : List ℕ). (ok r, w')) (take-append-drop ff_first_payload bytes))
