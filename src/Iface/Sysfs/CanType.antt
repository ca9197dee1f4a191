-- ===== src/Iface/Sysfs/CanType.antt =====
-- mcanbus/src/iface.rs: which text of a type file stands for a CAN device.
use mcanbus.Base.{
  ℕ, ◌≡◌, refl, ap, ◌∙◌, Bool, true, false, ◌&&◌, ◌==◌, List, [], ◌∷◌, if◌then◌else◌, Bool-cases,
  inl, inr, ==_iff, either_branch,
}
use mcanbus.Base.Results.{Result, ok, err}
use mcanbus.Base.Text.{is_white_space, blank_or, trim_start, trim_end, trim, same_text}
use mcanbus.Iface.Sysfs.{FileError, arphrd_can, is_can_type}

-- White space only.
abbrev pub is_blank : List ℕ → Bool
is_blank [] = true
is_blank (c ∷ s) = is_white_space c && is_blank s

-- `280` and white space.
abbrev pub starts_280 : List ℕ → Bool
starts_280 (a ∷ b ∷ c ∷ s) = a == 0x32 && (b == 0x38 && (c == 0x30 && is_blank s))
starts_280 s = false

-- `280`, with white space in front of it and behind it.
abbrev pub says_280 : List ℕ → Bool
says_280 [] = false
says_280 (c ∷ s) = let later = says_280 s in if is_white_space c then later else starts_280 (c ∷ s)

-- A type file that can be read and says 280, the number of CAN in Linux.
abbrev pub says_can : Result (List ℕ) FileError → Bool
says_can (ok s) = says_280 s
says_can (err e) = false

trim_end-blank : (s : List ℕ) → same_text (trim_end s) [] ≡ is_blank s
unfolding trim_end same_text
trim_end-blank [] = refl
trim_end-blank (c ∷ s) = ended (is_white_space c) (trim_end s) (is_blank s) (trim_end-blank s)
  where
    ended :
        (blank : Bool) (t : List ℕ) (rest : Bool)
        → same_text t [] ≡ rest
        → same_text
            (elim t as (λ u. List ℕ) [ [] ↦ if blank then [] else c ∷ [] | d ∷ u ↦ c ∷ d ∷ u ])
            []
          ≡ (blank && rest)
    ended true [] rest h = h
    ended false [] rest h = refl
    ended true (d ∷ t) rest h = h
    ended false (d ∷ t) rest h = refl

-- A text that begins with a byte which is not white space.
trim_end-cons :
    (k c : ℕ) (key s : List ℕ)
    → is_white_space k ≡ false
    → same_text (trim_end (c ∷ s)) (k ∷ key) ≡ (c == k && same_text (trim_end s) key)
unfolding trim_end same_text
trim_end-cons k c key s dark = begun (trim_end s)
  where
    begun : (t : List ℕ) → same_text (blank_or c t) (k ∷ key) ≡ (c == k && same_text t key)
    begun (d ∷ t) = refl
    begun [] = elim (Bool-cases (c == k)) [
      | inl same ↦
          let shown : is_white_space c ≡ false = ap is_white_space ((==_iff c k).0 same) ∙ dark in
          rw shown refl
      | inr other ↦ rw other (
          either_branch (λ (t : List ℕ). same_text t (k ∷ key) ≡ false) (is_white_space c) refl
            (rw other refl))
    ]

never : (b : Bool) → (b && false) ≡ false
never true = refl
never false = refl

trim_end-280 : (s : List ℕ) → same_text (trim_end s) arphrd_can ≡ starts_280 s
unfolding trim_end same_text
trim_end-280 [] = refl
trim_end-280 (a ∷ []) = trim_end-cons 0x32 a (0x38 ∷ 0x30 ∷ []) [] refl ∙ never (a == 0x32)
trim_end-280 (a ∷ b ∷ []) =
    trim_end-cons 0x32 a (0x38 ∷ 0x30 ∷ []) (b ∷ []) refl
    ∙ ap (λ (t : Bool). a == 0x32 && t)
        (trim_end-cons 0x38 b (0x30 ∷ []) [] refl ∙ never (b == 0x38))
    ∙ never (a == 0x32)
trim_end-280 (a ∷ b ∷ c ∷ s) =
    trim_end-cons 0x32 a (0x38 ∷ 0x30 ∷ []) (b ∷ c ∷ s) refl
    ∙ ap (λ (t : Bool). a == 0x32 && t)
        (trim_end-cons 0x38 b (0x30 ∷ []) (c ∷ s) refl
          ∙ ap (λ (t : Bool). b == 0x38 && t)
              (trim_end-cons 0x30 c [] s refl
                ∙ ap (λ (t : Bool). c == 0x30 && t) (trim_end-blank s)))

trim-280 : (s : List ℕ) → same_text (trim s) arphrd_can ≡ says_280 s
unfolding trim trim_start trim_end same_text
trim-280 [] = refl
trim-280 (c ∷ s) = elim (Bool-cases (is_white_space c)) [
  | inl blank ↦ rw blank (trim-280 s)
  | inr other ↦ rw other (trim_end-280 (c ∷ s))
]

pub is_can_type_lem : (r : Result (List ℕ) FileError) → is_can_type r ≡ says_can r
unfolding is_can_type
is_can_type_lem (ok s) = trim-280 s
is_can_type_lem (err e) = trim-280 []
