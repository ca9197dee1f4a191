-- ===== src/Base/Text/Split.antt =====
-- Texts that are split at a separator, with the separator between the parts.
use mathlib.Core.Path.{◌≡◌, refl}
use mathlib.Core.Bool.{false}
use mathlib.Core.Option.{some}
use mathlib.Core.List.{List, [], ◌∷◌, ◌++◌}
use Prim.Native.Nat.{ℕ}
use mcanbus.Base.Lists.{All}
use mcanbus.Base.Tests.{◌==◌, ==_self}
use mcanbus.Base.Text.{split_commas, split_once}

-- The parts with commas between them.
abbrev pub join_commas : List (List ℕ) → List ℕ
join_commas [] = []
join_commas (part ∷ []) = part
join_commas (part ∷ other ∷ parts) = part ++ b',' ∷ join_commas (other ∷ parts)

abbrev pub NotByte : ℕ → ℕ → Type 0
NotByte c d = (d == c) ≡ false

pub split_commas-append :
    (part s : List ℕ)
    → All (NotByte b',') part
    → split_commas (part ++ b',' ∷ s) ≡ part ∷ split_commas s
unfolding split_commas
split_commas-append [] s plain = refl
split_commas-append (c ∷ part) s (first, plain) = rw (first, split_commas-append part s plain) refl

pub split_commas-part : (part : List ℕ) → All (NotByte b',') part → split_commas part ≡ part ∷ []
unfolding split_commas
split_commas-part [] plain = refl
split_commas-part (c ∷ part) (first, plain) = rw (first, split_commas-part part plain) refl

pub split_commas-join_commas :
    (part : List ℕ) (parts : List (List ℕ))
    → All (All (NotByte b',')) (part ∷ parts)
    → split_commas (join_commas (part ∷ parts)) ≡ part ∷ parts
split_commas-join_commas part [] (first, plain) = split_commas-part part first
split_commas-join_commas part (other ∷ parts) (first, plain) =
    rw
      (
        split_commas-append part (join_commas (other ∷ parts)) first,
        split_commas-join_commas other parts plain,
      )
      refl

pub split_once-append :
    (c : ℕ) (front s : List ℕ)
    → All (NotByte c) front
    → split_once c (front ++ c ∷ s) ≡ some (front, s)
unfolding split_once
split_once-append c [] s plain = rw (==_self c) refl
split_once-append c (d ∷ front) s (first, plain) =
    rw (first, split_once-append c front s plain) refl
