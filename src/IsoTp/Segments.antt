-- ===== src/IsoTp/Segments.antt =====
-- The segmentation of ISO 15765-2, stated on lists: which Consecutive Frames a payload is cut into.
use mcanbus.Base.{
  ℕ, zero, suc, ◌+◌, ◌%◌, ◌^◌, ◌<◌, ◌≤◌, ◌≡◌, refl, ap, ◌∙◌, Bool, true, false, List, [], ◌∷◌, ◌++◌,
  arith, length, take, drop, length-drop, take-append-drop,
}
use mcanbus.IsoTp.Encode.{encode_cf_frame}
use mcanbus.IsoTp.Encode.Laws.{low_nibble}
use mcanbus.IsoTp.Send.{next_seq}

-- Chunks of seven bytes, the last one shorter; at most `n` of them.
abbrev pub chunks_upto : List ℕ → ℕ → List (List ℕ)
chunks_upto [] n = []
chunks_upto (x ∷ xs) zero = []
chunks_upto (x ∷ xs) (suc n) = take 7 (x ∷ xs) ∷ chunks_upto (drop 7 (x ∷ xs)) n

abbrev pub chunks : List ℕ → List (List ℕ)
chunks xs = chunks_upto xs (length xs)

-- The bodies of the frames that carry the chunks, numbered from `seq` modulo 16.
abbrev pub numbered : ℕ → ℕ → List (List ℕ) → List (List ℕ)
numbered padding seq [] = []
numbered padding seq (c ∷ cs) = encode_cf_frame seq c padding ∷ numbered padding ((seq + 1) % 16) cs

abbrev pub is_more : List (List ℕ) → Bool
is_more [] = false
is_more (c ∷ cs) = true

pub next_seq_lem : (seq : ℕ) → seq < 16 → next_seq seq ≡ (seq + 1) % 16
unfolding next_seq
next_seq_lem seq h = omega (arith, low_nibble ((seq + 1) % 2 ^ 8))

abbrev join : List (List ℕ) → List ℕ
join [] = []
join (c ∷ cs) = c ++ join cs

join-chunks_upto : (xs : List ℕ) (n : ℕ) → length xs ≤ n → join (chunks_upto xs n) ≡ xs
join-chunks_upto [] n h = refl
join-chunks_upto (x ∷ xs) zero h = absurd (omega arith)
join-chunks_upto (x ∷ xs) (suc n) h =
    ap (λ (t : List ℕ). take 7 (x ∷ xs) ++ t)
      (join-chunks_upto (drop 6 xs) n (omega (arith, length-drop 6 xs)))
    ∙ take-append-drop 7 (x ∷ xs)

-- The chunks are the payload.
pub join-chunks : (xs : List ℕ) → join (chunks xs) ≡ xs
join-chunks xs = join-chunks_upto xs (length xs) (omega arith)
