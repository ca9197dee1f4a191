-- ===== src/IsoTp/Send/Time.antt =====
-- mcanbus/src/isotp.rs, the sending side: the clock while a frame is sent.
use mcanbus.Base.{ℕ, ◌≤◌, List, arith}
use mcanbus.Base.Results.{Result, ok, err, map_err}
use mcanbus.Io.{proceed, from_frame_error}
use mcanbus.Channel.{Channel}
use mcanbus.Channel.Laws.{IsTimed}
use mcanbus.Frame.Id.{CanId}
use mcanbus.Frame.Data.{Frame, FrameError, new_classic}
use mcanbus.IsoTp.Encode.{Options}
use mcanbus.IsoTp.Send.{transmit, send_fc}

module _ (ch : Channel) (timed : IsTimed ch) (tx_id : CanId) where
  open ch use {World, send}
  open timed use {time, send_passes, sleep_passes}

  transmit-time : (buf : List ℕ) (w : World) → time w ≤ time (transmit ch tx_id buf w).1
  unfolding transmit
  transmit-time buf w = built (new_classic tx_id buf)
    where
      built :
          (r : Result Frame FrameError)
          → time w ≤ time (proceed (map_err from_frame_error r, w) send).1
      built (ok frame) = send_passes frame w
      built (err e) = omega arith

  pub send_fc-time : (opts : Options) (w : World) → time w ≤ time (send_fc ch tx_id opts w).1
  unfolding send_fc
  send_fc-time opts w = transmit-time _ w
