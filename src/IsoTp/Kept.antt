-- ===== src/IsoTp/Kept.antt =====
-- mcanbus/src/isotp.rs: what the calls on a channel leave alone, a request leaves alone.
use mcanbus.Base.{
  ℕ, zero, suc, ◌+◌, ◌≡◌, ◌∙◌, Bool, ◌&&◌, ◌==◌, Option, none, some, List, ltb, leb, length, drop,
  either_branch,
}
use mcanbus.Base.Results.{Result, ok, err, map_err}
use mcanbus.Io.{
  Io, IoError, proceed, ◌>>=◌, ◌>>◌, pure, throw, lift, kind, timed_out, unsupported,
  from_frame_error,
}
use mcanbus.Channel.{Channel}
use mcanbus.Frame.Id.{CanId}
use mcanbus.Frame.Data.{Frame, payload, new_classic}
use mcanbus.IsoTp.Encode.{Options, ff_first_payload, sf_max_len, max_ff_length}
use mcanbus.IsoTp.Send.{
  transmit, send_sf, send_ff, send_fc, pause, cf_loop, send_consecutive_frames,
}
use mcanbus.IsoTp.Receive.{
  accept, recv_with_id, recv_or_time_out, FcStep, again, done, on_fc, fc_loop, wait_for_fc, on_cf,
  collect, FirstStep, whole, segmented, on_first, receive_response,
}
use mcanbus.IsoTp.Request.{send_request, exchange, request}

-- A view of the world that the four calls do not change.
pub record IsKept {S : Type 0} (ch : Channel) (view : ch.World → S) : Type 0 where
  pub now_keeps : (w : ch.World) → view (ch.now w).1 ≡ view w
  pub sleep_keeps : (ms : ℕ) (w : ch.World) → view (ch.sleep ms w) ≡ view w
  pub send_keeps : (f : Frame) (w : ch.World) → view (ch.send f w).1 ≡ view w
  pub recv_keeps : (w : ch.World) → view (ch.recv w).1 ≡ view w

module _ {S : Type 0} (ch : Channel) (view : ch.World → S) (kept : IsKept ch view) (s : S) where
  open ch use {World, now, sleep, send, recv}
  open kept use {now_keeps, sleep_keeps, send_keeps, recv_keeps}

  -- Actions that stay at the view `s`.
  abbrev Stays : {A : Type 0} → Io World A → Type 0
  Stays m = (w : World) → view w ≡ s → view (m w).1 ≡ s

  then-Stays :
      {A B : Type 0} (m : Io World A) (f : A → Io World B)
      → Stays m
      → ((a : A) → Stays (f a))
      → Stays (m >>= f)
  then-Stays m f first next w h = both (m w) (first w h)
    where
      both : (r : Result _ IoError × World) → view r.1 ≡ s → view (proceed r f).1 ≡ s
      both (ok a, w₁) h₁ = next a w₁ h₁
      both (err e, w₁) h₁ = h₁

  transmit-Stays : (tx_id : CanId) (buf : List ℕ) → Stays (transmit ch tx_id buf)
  unfolding transmit
  transmit-Stays tx_id buf =
      then-Stays (lift (map_err from_frame_error (new_classic tx_id buf))) send (λ w h. h)
        (λ frame w h. send_keeps frame w ∙ h)

  pause-Stays :
      (tx_id : CanId) (st_min_ms : ℕ) (more : Bool) → Stays (pause ch tx_id st_min_ms more)
  unfolding pause
  pause-Stays tx_id st_min_ms more =
      either_branch Stays (ltb 0 st_min_ms && more) (λ w h. sleep_keeps st_min_ms w ∙ h) (λ w h. h)

  cf_loop-Stays :
      (tx_id : CanId) (rest : List ℕ) (bs st_min_ms : ℕ) (opts : Options)
      (fuel seq block_count offset : ℕ)
      → Stays (cf_loop ch tx_id rest bs st_min_ms opts fuel seq block_count offset)
  unfolding cf_loop
  cf_loop-Stays tx_id rest bs st_min_ms opts zero seq block_count offset = λ w h. h
  cf_loop-Stays tx_id rest bs st_min_ms opts (suc fuel) seq block_count offset =
      either_branch Stays (ltb offset (length rest))
        (then-Stays (transmit ch tx_id _) _ (transmit-Stays tx_id _) (λ sent.
          either_branch Stays _ {x = throw (kind unsupported)} (λ w h. h)
            (then-Stays (pause ch tx_id st_min_ms _) _ (pause-Stays tx_id st_min_ms _)
              (λ paused. cf_loop-Stays tx_id rest bs st_min_ms opts fuel _ _ _))))
        (λ w h. h)

  recv_with_id-Stays :
      (rx_id : CanId) (deadline fuel : ℕ) → Stays (recv_with_id ch rx_id deadline fuel)
  unfolding recv_with_id
  recv_with_id-Stays rx_id deadline zero w h = h
  recv_with_id-Stays rx_id deadline (suc fuel) w h =
      either_branch (λ (r : Result (Option Frame) IoError × World). view r.1 ≡ s)
        (ltb (now w).0 deadline)
        (then-Stays recv _ (λ w₁ h₁. recv_keeps w₁ ∙ h₁)
          (λ got. chosen (accept rx_id got) (recv_with_id-Stays rx_id deadline fuel)) (now w).1
          (now_keeps w ∙ h))
        (now_keeps w ∙ h)
    where
      chosen :
          (got : Option Frame)
          → Stays (recv_with_id ch rx_id deadline fuel)
          → Stays (elim got as (λ g. Io World (Option Frame)) [
            | none ↦ λ w₂. recv_with_id ch rx_id deadline fuel w₂
            | some frame ↦ pure (some frame)
          ])
      chosen none rest = rest
      chosen (some frame) rest = λ w₂ h₂. h₂

  recv_or_time_out-Stays :
      (rx_id : CanId) (deadline fuel : ℕ) → Stays (recv_or_time_out ch rx_id deadline fuel)
  unfolding recv_or_time_out
  recv_or_time_out-Stays rx_id deadline fuel =
      then-Stays (recv_with_id ch rx_id deadline fuel) _ (recv_with_id-Stays rx_id deadline fuel)
        (λ got w h. chosen got w h)
    where
      chosen :
          (got : Option Frame)
          → Stays (elim got as (λ g. Io World Frame) [
            | none ↦ throw (kind timed_out)
            | some frame ↦ pure frame
          ])
      chosen none w h = h
      chosen (some frame) w h = h

  fc_loop-Stays :
      (rx_id : CanId) (deadline : ℕ) (opts : Options) (inner fuel waits : ℕ)
      → Stays (fc_loop ch rx_id deadline opts inner fuel waits)
  unfolding fc_loop
  fc_loop-Stays rx_id deadline opts inner zero waits = λ w h. h
  fc_loop-Stays rx_id deadline opts inner (suc fuel) waits =
      then-Stays (recv_or_time_out ch rx_id deadline inner) _
        (recv_or_time_out-Stays rx_id deadline inner)
        (λ frame.
          decided (on_fc opts waits (payload frame))
            (λ waits'. fc_loop-Stays rx_id deadline opts inner fuel waits'))
    where
      decided :
          (step : FcStep)
          → ((waits' : ℕ) → Stays (fc_loop ch rx_id deadline opts inner fuel waits'))
          → Stays (elim step as (λ t. Io World (ℕ × ℕ)) [
            | again waits' ↦ λ w. fc_loop ch rx_id deadline opts inner fuel waits' w
            | done r ↦ lift r
          ])
      decided (again waits') rest = rest waits'
      decided (done r) rest = λ w h. h

  collect-Stays :
      (rx_id : CanId) (deadline total inner fuel : ℕ) (out : List ℕ) (seq : ℕ)
      → Stays (collect ch rx_id deadline total inner fuel out seq)
  unfolding collect
  collect-Stays rx_id deadline total inner zero out seq = λ w h. h
  collect-Stays rx_id deadline total inner (suc fuel) out seq =
      either_branch Stays (ltb (length out) total)
        (then-Stays (recv_or_time_out ch rx_id deadline inner) _
          (recv_or_time_out-Stays rx_id deadline inner)
          (λ frame.
            decided (on_cf total out seq (payload frame))
              (λ out' seq'. collect-Stays rx_id deadline total inner fuel out' seq')))
        (λ w h. h)
    where
      decided :
          (step : Result (List ℕ × ℕ) IoError)
          → ((out' : List ℕ) (seq' : ℕ)
              → Stays (collect ch rx_id deadline total inner fuel out' seq'))
          → Stays (elim step as (λ t. Io World (List ℕ)) [
            | err e ↦ throw e
            | ok (out', seq') ↦ λ w. collect ch rx_id deadline total inner fuel out' seq' w
          ])
      decided (err e) rest = λ w h. h
      decided (ok (out', seq')) rest = rest out' seq'

  receive_response-Stays :
      (rx_id : CanId) (deadline : ℕ) (tx_id : CanId) (opts : Options) (fuel : ℕ)
      → Stays (receive_response ch rx_id deadline tx_id opts fuel)
  unfolding receive_response send_fc
  receive_response-Stays rx_id deadline tx_id opts fuel =
      then-Stays (recv_or_time_out ch rx_id deadline fuel) _
        (recv_or_time_out-Stays rx_id deadline fuel) (λ frame. decided (on_first (payload frame)))
    where
      decided :
          (step : FirstStep)
          → Stays (elim step as (λ t. Io World (List ℕ)) [
            | whole r ↦ lift r
            | segmented total chunk ↦
                send_fc ch tx_id opts >> collect ch rx_id deadline total fuel fuel chunk 1
          ])
      decided (whole r) = λ w h. h
      decided (segmented total chunk) =
          then-Stays (send_fc ch tx_id opts) _ (transmit-Stays tx_id _)
            (λ sent. collect-Stays rx_id deadline total fuel fuel chunk 1)

  send_request-Stays :
      (tx_id rx_id : CanId) (bytes : List ℕ) (opts : Options) (fuel deadline : ℕ)
      → Stays (send_request ch tx_id rx_id bytes opts fuel deadline)
  unfolding send_request send_sf send_ff send_consecutive_frames wait_for_fc
  send_request-Stays tx_id rx_id bytes opts fuel deadline =
      either_branch Stays (leb (length bytes) sf_max_len) (transmit-Stays tx_id _) (
        then-Stays (send_ff ch tx_id bytes opts) _ (transmit-Stays tx_id _) (λ first.
          then-Stays (wait_for_fc ch rx_id deadline opts fuel) _
            (fc_loop-Stays rx_id deadline opts fuel fuel 0)
            (λ fc. cf_loop-Stays tx_id (drop ff_first_payload bytes) fc.0 fc.1 opts _ 1 0 0)))

  -- A request leaves the view as it was.
  pub request-Stays :
      (tx_id rx_id : CanId) (bytes : List ℕ) (opts : Options) (fuel : ℕ)
      → Stays (request ch tx_id rx_id bytes opts fuel)
  unfolding request exchange
  request-Stays tx_id rx_id bytes opts fuel w h =
      either_branch (λ (r : Result (List ℕ) IoError × World). view r.1 ≡ s) (length bytes == 0) h
        (either_branch (λ (r : Result (List ℕ) IoError × World). view r.1 ≡ s)
          (ltb max_ff_length (length bytes)) h
          (then-Stays (send_request ch tx_id rx_id bytes opts fuel ((now w).0 + opts.timeout)) _
            (send_request-Stays tx_id rx_id bytes opts fuel ((now w).0 + opts.timeout))
            (λ sent. receive_response-Stays rx_id ((now w).0 + opts.timeout) tx_id opts fuel)
            (now w).1 (now_keeps w ∙ h)))
