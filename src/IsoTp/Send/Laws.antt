-- ===== src/IsoTp/Send/Laws.antt =====
-- mcanbus/src/isotp.rs: the offset loop and the numbered chunks of a payload.
use mcanbus.Base.{
  ℕ, zero, suc, ◌+◌, ◌-◌, ◌%◌, ◌<◌, ◌≤◌, min, ◌≡◌, refl, sym, ap, ◌∙◌, ◌&&◌, List, [], ◌∷◌, arith,
  ltb, lt→ltb, le→ltb, ◌==◌, ◌!=◌, if◌then◌else◌, length, take, drop, length-drop, drop-drop,
  take-min, drop-min,
}
use mcanbus.Io.{Io, kind, unsupported, ◌>>◌, pure, throw}
use mcanbus.Channel.{Channel}
use mcanbus.Frame.Id.{CanId}
use mcanbus.IsoTp.Encode.{Options, cf_payload}
use mcanbus.IsoTp.Send.{transmit, pause, cf_loop, send_consecutive_frames, saturating_add_one}
use mcanbus.IsoTp.Segments.{chunks, chunks_upto, numbered, is_more, next_seq_lem}

module _ (ch : Channel) (tx_id : CanId) (bs st_min_ms : ℕ) where
  open ch use {World}

  -- Sending frames in order, with a pause between two of them and a stop after a full block that
  -- leaves some unsent.
  unfoldable pub send_numbered : ℕ → List (List ℕ) → Io World (Unit {0})
  send_numbered count [] = pure tt
  send_numbered count (body ∷ more) =
      transmit ch tx_id body
      >> (if bs != 0 && saturating_add_one count == bs && is_more more
          then throw (kind unsupported)
          else (pause ch tx_id st_min_ms (is_more more)
              >> send_numbered (saturating_add_one count) more))

module _ (ch : Channel) (tx_id : CanId) (rest : List ℕ) (bs st_min_ms : ℕ) (opts : Options) where
  is_more-numbered :
      (padding seq m : ℕ) (ys : List ℕ)
      → length ys ≤ m
      → is_more (numbered padding seq (chunks_upto ys m)) ≡ ltb 0 (length ys)
  is_more-numbered padding seq m [] k = refl
  is_more-numbered padding seq zero (y ∷ ys) k = absurd (omega arith)
  is_more-numbered padding seq (suc m) (y ∷ ys) k = sym (lt→ltb 0 (length (y ∷ ys)) (omega arith))

  -- One round: the offsets cut off the first chunk of what is left.
  module _ (off m x : ℕ) (xs : List ℕ) (e : drop off rest ≡ x ∷ xs)
      (k : length (x ∷ xs) ≤ suc m) where
    abbrev end : ℕ
    end = min (off + cf_payload) (length rest)

    left : length (x ∷ xs) ≡ length rest - off
    left = sym (ap length e) ∙ length-drop off rest

    advanced : end ≡ off + min 7 (length (x ∷ xs))
    advanced = omega (arith, left)

    chunk_lem : take (end - off) (drop off rest) ≡ take 7 (x ∷ xs)
    chunk_lem =
        let width : end - off ≡ min 7 (length (x ∷ xs)) = omega (arith, advanced) in
        rw (width, e) (take-min 7 (x ∷ xs))

    rest_lem : drop end rest ≡ drop 7 (x ∷ xs)
    rest_lem =
        rw (advanced, ← drop-drop (min 7 (length (x ∷ xs))) off rest, e) (drop-min 7 (x ∷ xs))

    more_lem :
        (padding seq : ℕ)
        → ltb end (length rest) ≡ is_more (numbered padding seq (chunks_upto (drop 6 xs) m))
    more_lem padding seq =
        rw (is_more-numbered padding seq m (drop 6 xs) (omega (arith, length-drop 6 xs)))
          (ground (arith, left, length-drop 6 xs))

  cf_loop_lem :
      (fuel m seq count off : ℕ) (r : List ℕ)
      → drop off rest ≡ r
      → length r < fuel
      → length r ≤ m
      → seq < 16
      → cf_loop ch tx_id rest bs st_min_ms opts fuel seq count off
        ≡ send_numbered ch tx_id bs st_min_ms count (numbered opts.padding seq (chunks_upto r m))
  unfolding cf_loop send_numbered
  cf_loop_lem zero m seq count off r e h k l = absurd (omega arith)
  cf_loop_lem (suc fuel) m seq count off [] e h k l =
      let at_end : length rest ≤ off = omega (arith, ap length e, length-drop off rest) in
      rw (le→ltb off (length rest) at_end) refl
  cf_loop_lem (suc fuel) zero seq count off (x ∷ xs) e h k l = absurd (omega arith)
  cf_loop_lem (suc fuel) (suc m) seq count off (x ∷ xs) e h k l =
      let inside : off < length rest = omega (arith, left off m x xs e k) in
      let shorter : length (drop 6 xs) ≤ length xs = omega (arith, length-drop 6 xs) in
      rw
        (
          lt→ltb off (length rest) inside,
          next_seq_lem seq l,
          chunk_lem off m x xs e k,
          more_lem off m x xs e k opts.padding ((seq + 1) % 16),
          cf_loop_lem fuel m ((seq + 1) % 16) (saturating_add_one count) (end off m x xs e k)
              (drop 6 xs) (rest_lem off m x xs e k) (omega arith) (omega arith) (omega arith),
        )
        refl

-- The offset loop of `send_consecutive_frames` sends the numbered chunks of its payload in order,
-- with a pause between two frames and the error for a full block that leaves some unsent.
pub send_consecutive_frames-send_numbered :
    (ch : Channel) (tx_id : CanId) (rest : List ℕ) (bs st_min_ms : ℕ) (opts : Options)
    → send_consecutive_frames ch tx_id rest bs st_min_ms opts
      ≡ send_numbered ch tx_id bs st_min_ms 0 (numbered opts.padding 1 (chunks rest))
unfolding send_consecutive_frames
send_consecutive_frames-send_numbered ch tx_id rest bs st_min_ms opts =
    cf_loop_lem ch tx_id rest bs st_min_ms opts (suc (length rest)) (length rest) 1 0 0 rest refl
      (omega arith) (omega arith) (omega arith)
