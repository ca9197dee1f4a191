-- ===== src/IsoTp/Send/Blocks.antt =====
-- mcanbus/src/isotp.rs: which frames are sent, and how many before the next Flow Control frame.
use mcanbus.Base.{
  ℕ, zero, suc, ◌+◌, ◌-◌, ◌%◌, ◌<◌, ◌≤◌, ◌≡◌, ◌⊎◌, ◌&&◌, none, List, [], ◌∷◌, ◌++◌, ◌==◌, ◌!=◌,
  if◌then◌else◌, length, replicate,
}
use mcanbus.Base.Results.{ok}
use mcanbus.Io.{Io, kind, unsupported, ◌>>◌, pure, throw}
use mcanbus.Channel.{Channel}
use mcanbus.Frame.Data.{Frame, classic}
use mcanbus.Frame.Id.{CanId}
use mcanbus.IsoTp.Send.{pause}
use mcanbus.IsoTp.Send.Laws.{send_numbered}
use mcanbus.IsoTp.Segments.{is_more}

-- The Consecutive Frame with a number and a chunk, padded to eight bytes.
abbrev pub cf_frame : CanId → ℕ → ℕ → List ℕ → Frame
cf_frame tx_id padding seq chunk = record {
  id = tx_id;
  kind = classic;
  len = 8;
  data_buf = ((0x20 + seq) ∷ (chunk ++ replicate (7 - length chunk) padding)) ++ replicate 56 0;
  timestamp_ns = none;
}

-- The frames of some chunks, numbered from `seq` modulo 16.
abbrev pub cf_frames : CanId → ℕ → ℕ → List (List ℕ) → List Frame
cf_frames tx_id padding seq [] = []
cf_frames tx_id padding seq (c ∷ cs) =
    cf_frame tx_id padding seq c ∷ cf_frames tx_id padding ((seq + 1) % 16) cs

module _ (ch : Channel) (st_min_ms : ℕ) where
  open ch use {World, sleep, send}

  -- The wait before a further frame, which 0 is not.
  abbrev pub wait : Io World (Unit {0})
  wait = if st_min_ms == 0 then pure tt else (λ w. (ok tt, sleep st_min_ms w))

  -- Further frames, `left` of which may be sent.
  abbrev pub send_more : ℕ → List Frame → Io World (Unit {0})
  send_more left [] = pure tt
  send_more zero (frame ∷ more) = throw (kind unsupported)
  send_more (suc left) (frame ∷ more) = wait >> (send frame >> send_more left more)

  -- The first of the frames, and then the others: a wait between two of them, and an error instead
  -- of the first one that is too many.
  abbrev pub send_blocks : ℕ → List Frame → Io World (Unit {0})
  send_blocks limit [] = pure tt
  send_blocks limit (frame ∷ more) = send frame >> send_more (limit - 1) more

-- What may be sent behind `count` frames of a block, when `n` frames are there.
abbrev Room : ℕ → ℕ → ℕ → ℕ → Type 0
Room bs count left n = ((bs ≡ 0) × (n ≤ left)) ⊎ ((bs ≡ count + left) × (0 < bs) × (bs < 256))

module _ (ch : Channel) (tx_id : CanId) (bs st_min_ms padding : ℕ) where
  open ch use {World, send}

  -- What the loop does behind a frame.
  abbrev onward : ℕ → List (List ℕ) → Io World (Unit {0})
  onward count bodies =
      if bs != 0 && count == bs && is_more bodies
      then throw (kind unsupported)
      else (pause ch tx_id st_min_ms (is_more bodies)
          >> send_numbered ch tx_id bs st_min_ms count bodies)
