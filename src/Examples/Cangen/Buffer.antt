-- ===== src/Examples/Cangen/Buffer.antt =====
-- examples/cangen.rs: the buffer of a round.
use native.Mathlib.Nat.{zero-add, suc-add}
use mathlib.Core.Path.{subst, sym}
use mcanbus.Base.{
  ◌%◌, ◌^◌, ◌++◌, ◌∙◌, ℕ, zero, suc, ◌+◌, ◌%◌, ◌^◌, ◌≡◌, refl, ap, arith, List, [], ◌∷◌, map,
  length,
}
use mathlib.Core.Path.{subst}
use mcanbus.Base.Results.{Result, ok, err, ◌>>=◌}
use mcanbus.Examples.{Halt}
use mcanbus.Examples.Cangen.{Args, fill, build_frame, next_seq}
use mcanbus.Frame.Data.{Frame}

pub length-map : {A B : Type 0} (f : A → B) (xs : List A) → length (map f xs) ≡ length xs
length-map f [] = refl
length-map f (x ∷ xs) = ap suc (length-map f xs)

-- The buffer has as many frames as are asked for.
abbrev pub Fills : ℕ → Result (List Frame × ℕ) Halt → Type 0
Fills n (ok filled) = length filled.0 ≡ n
Fills n (err e) = Unit {0}

pub fill-Fills : (args : Args) (n seq : ℕ) → Fills n (fill args n seq)
unfolding fill
fill-Fills args zero seq = refl
fill-Fills args (suc n) seq =
    built (build_frame args seq) (fill args n (next_seq seq)) (fill-Fills args n (next_seq seq))
  where
    built :
        (frame : Result Frame Halt) (rest : Result (List Frame × ℕ) Halt)
        → Fills n rest
        → Fills (suc n) (
            frame >>= λ f. rest >>= λ filled.
            let whole : Result (List Frame × ℕ) Halt = ok (f ∷ filled.0, filled.1) in whole)
    built (err e) rest h = tt
    built (ok frame) (err e) h = tt
    built (ok frame) (ok filled) h = ap suc h

-- Two buffers behind one another are one.
abbrev pub Filled : Type 0
Filled = Result (List Frame × ℕ) Halt

abbrev pub behind : List Frame → Filled → Filled
behind front (ok rest) = ok (front ++ rest.0, rest.1)
behind front (err e) = err e

abbrev pub after : Filled → (ℕ → Filled) → Filled
after (ok first) rest = behind first.0 (rest first.1)
after (err e) rest = err e

abbrev push_frame : Result Frame Halt → Filled → Filled
push_frame frame filled =
    frame >>= λ f. filled >>= λ r. let whole : Filled = ok (f ∷ r.0, r.1) in whole

behind-nil : (r : Filled) → r ≡ behind [] r
behind-nil (ok rest) = refl
behind-nil (err e) = refl

push_frame-after :
    (frame : Result Frame Halt) (first : Filled) (rest : ℕ → Filled)
    → push_frame frame (after first rest) ≡ after (push_frame frame first) rest
push_frame-after (err e) first rest = refl
push_frame-after (ok f) (err e) rest = refl
push_frame-after (ok f) (ok first) rest = next (rest first.1)
  where
    next : (r : Filled) → push_frame (ok f) (behind first.0 r) ≡ behind (f ∷ first.0) r
    next (ok r) = refl
    next (err e) = refl

pub fill-add :
    (args : Args) (m n seq : ℕ) → fill args (m + n) seq ≡ after (fill args m seq) (fill args n)
unfolding fill
fill-add args zero n seq = rw zero-add (behind-nil (fill args n seq))
fill-add args (suc m) n seq = rw suc-add (
    ap (push_frame (build_frame args seq)) (fill-add args m n (next_seq seq))
    ∙ push_frame-after (build_frame args seq) (fill args m (next_seq seq)) (fill args n))

pub fill_zero : (args : Args) (seq : ℕ) → fill args 0 seq ≡ ok ([], seq)
unfolding fill
fill_zero args seq = refl

-- The frames with the numbers from `seq` on, which are 64 bits wide.
abbrev pub AreNumbered : Args → ℕ → List Frame → Type 0
AreNumbered args seq [] = Unit {0}
AreNumbered args seq (frame ∷ frames) =
    (build_frame args (seq % 2 ^ 64) ≡ ok frame) × AreNumbered args (seq + 1) frames

abbrev FilledFrom : Args → ℕ → Filled → Type 0
FilledFrom args seq (ok filled) = AreNumbered args seq filled.0
FilledFrom args seq (err e) = Unit {0}

fill-AreNumbered :
    (args : Args) (n from seq : ℕ) → seq ≡ from % 2 ^ 64 → FilledFrom args from (fill args n seq)
unfolding fill
fill-AreNumbered args zero from seq same = tt
fill-AreNumbered args (suc n) from seq same =
    built (build_frame args seq) (ap (build_frame args) (sym same)) (fill args n (next_seq seq))
      (fill-AreNumbered args n (from + 1) (next_seq seq) (omega (arith, same)))
  where
    built :
        (frame : Result Frame Halt)
        → build_frame args (from % 2 ^ 64) ≡ frame
        → (rest : Filled) → FilledFrom args (from + 1) rest
        → FilledFrom args from (push_frame frame rest)
    built (err e) same' rest h = tt
    built (ok frame) same' (err e) h = tt
    built (ok frame) same' (ok rest) h = (same', h)

-- What a buffer holds that has been filled from the start.
pub filled_buffer :
    (args : Args) (n : ℕ) (filled : List Frame × ℕ)
    → fill args n 0 ≡ ok filled
    → (length filled.0 ≡ n) × AreNumbered args 0 filled.0
filled_buffer args n filled same = (
  subst (Fills n) same (fill-Fills args n 0),
  subst (FilledFrom args 0) same (fill-AreNumbered args n 0 0 (omega arith)),
)
