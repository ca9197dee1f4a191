-- ===== src/Iface/Sysfs/Laws.antt =====
-- mcanbus/src/iface.rs: the enumeration of the interfaces.
use mcanbus.Base.{
  ℕ, ◌+◌, ◌&&◌, ◌≡◌, refl, sym, ap, ◌∙◌, arith, Bool, true, false, Bool-cases, inl, inr, Option,
  none, some, List, [], ◌∷◌, ◌++◌, append_assoc, append-nil, either_branch, if◌then◌else◌,
}
use mcanbus.Base.Results.{Result, ok}
use mcanbus.Base.Text.{text_le, same_text, codes}
use mcanbus.Base.Text.Laws.{same_text-≡}
use mcanbus.Io.{IoError}
use mcanbus.Iface.Sysfs.CanType.{says_can, is_can_type_lem}
use mcanbus.Iface.Sysfs.{
  is_can_type, Files, type_path, insert, sort, is_can_device, collect_devices, list_can_interfaces,
}

text_le_total : (s t : List ℕ) → text_le s t ≡ false → text_le t s ≡ true
unfolding text_le
text_le_total [] t h = absurd (cc h)
text_le_total (a ∷ s) [] h = refl
text_le_total (a ∷ s) (b ∷ t) h = ground (arith, h, text_le_total s t)

-- Ordered by bytes.
abbrev pub IsSorted : List (List ℕ) → Type 0
IsSorted [] = Unit {0}
IsSorted (s ∷ []) = Unit {0}
IsSorted (s ∷ t ∷ names) = (text_le s t ≡ true) × IsSorted (t ∷ names)

-- How often a name occurs.
unfoldable pub count : List ℕ → List (List ℕ) → ℕ
count name [] = 0
count name (other ∷ names) = (if same_text name other then 1 else 0) + count name names

insert-IsSorted :
    (name : List ℕ) (names : List (List ℕ)) → IsSorted names → IsSorted (insert name names)
unfolding insert
insert-IsSorted name [] h = tt
insert-IsSorted name (s ∷ []) h = elim (Bool-cases (text_le name s)) [
  | inl le ↦ rw le (le, tt)
  | inr gt ↦ rw gt (text_le_total name s gt, tt)
]
insert-IsSorted name (s ∷ t ∷ names) h = elim (Bool-cases (text_le name s)) [
  | inl le ↦ rw le (le, h)
  | inr gt ↦
      rw gt
        (placed (text_le name t) (text_le_total name s gt) (insert-IsSorted name (t ∷ names) h.1))
]
  where
    placed :
        (before : Bool)
        → text_le s name ≡ true
        → IsSorted (if before then name ∷ t ∷ names else t ∷ insert name names)
        → IsSorted (s ∷ (if before then name ∷ t ∷ names else t ∷ insert name names))
    placed true le rest = (le, rest)
    placed false le rest = (h.0, rest)

sort-IsSorted : (names : List (List ℕ)) → IsSorted (sort names)
unfolding sort
sort-IsSorted [] = tt
sort-IsSorted (name ∷ names) = insert-IsSorted name (sort names) (sort-IsSorted names)

count-insert :
    (x name : List ℕ) (names : List (List ℕ)) → count x (insert name names) ≡ count x (name ∷ names)
unfolding insert count
count-insert x name [] = refl
count-insert x name (s ∷ names) = elim (Bool-cases (text_le name s)) [
  | inl le ↦ rw le refl
  | inr gt ↦ rw (gt, count-insert x name names) (omega arith)
]

count-sort : (x : List ℕ) (names : List (List ℕ)) → count x (sort names) ≡ count x names
unfolding sort count
count-sort x [] = refl
count-sort x (name ∷ names) =
    count-insert x name (sort names)
    ∙ ap (λ (n : ℕ). (if same_text x name then 1 else 0) + n) (count-sort x names)

-- The names of the entries that are UTF-8.
abbrev pub known : List (Option (List ℕ)) → List (List ℕ)
known [] = []
known (none ∷ entries) = known entries
known (some name ∷ entries) = name ∷ known entries

abbrev pub readable : List (Option (List ℕ)) → List (Result (Option (List ℕ)) IoError)
readable [] = []
readable (entry ∷ entries) = ok entry ∷ readable entries

-- Reading files does not change what is in them.
pub record IsSteady {W : Type 0} (files : Files W) : Type 0 where
  pub exists_keeps : (path : List ℕ) (w : W) → (files.exists path w).1 ≡ w
  pub read_keeps : (path : List ℕ) (w : W) → (files.read_to_string path w).1 ≡ w

module _ {W : Type 0} (files : Files W) (steady : IsSteady files) where
  open files use {read_dir, read_to_string, exists}
  open steady use {exists_keeps, read_keeps}

  is_can_device_keeps : (name : List ℕ) (w : W) → (is_can_device files name w).1 ≡ w
  unfolding is_can_device
  is_can_device_keeps name w =
      let w₁ = (exists (type_path name) w).1 in
      either_branch (λ (r : Bool × W). r.1 ≡ w) (exists (type_path name) w).0
        (read_keeps (type_path name) w₁ ∙ exists_keeps (type_path name) w)
        (exists_keeps (type_path name) w)

  -- The type file of a device is there, can be read, and says 280.
  abbrev pub is_can : List ℕ → W → Bool
  is_can name w =
      let path = codes "/sys/class/net/" ++ name ++ codes "/type" in
      (exists path w).0 && says_can (read_to_string path w).0

  is_can_device-is_can : (name : List ℕ) (w : W) → (is_can_device files name w).0 ≡ is_can name w
  unfolding is_can_device
  is_can_device-is_can name w = judged (exists (type_path name) w).0
    where
      judged :
          (there : Bool)
          → let found : Bool × W =
              if there
              then (
                is_can_type (read_to_string (type_path name) (exists (type_path name) w).1).0,
                (read_to_string (type_path name) (exists (type_path name) w).1).1,
              )
              else (false, (exists (type_path name) w).1) in
            found.0 ≡ (there && says_can (read_to_string (type_path name) w).0)
      judged false = refl
      judged true =
          is_can_type_lem (read_to_string (type_path name) (exists (type_path name) w).1).0
          ∙ ap (λ (w₁ : W). says_can (read_to_string (type_path name) w₁).0)
              (exists_keeps (type_path name) w)

  abbrev devices : List (Option (List ℕ)) → W → List (List ℕ)
  devices [] w = []
  devices (none ∷ entries) w = devices entries w
  devices (some name ∷ entries) w =
      let rest = devices entries w in if (is_can_device files name w).0 then name ∷ rest else rest

  collect_devices-devices :
      (entries : List (Option (List ℕ))) (out : List (List ℕ)) (w : W)
      → collect_devices files (readable entries) out w ≡ (ok (out ++ devices entries w), w)
  unfolding collect_devices
  collect_devices-devices [] out w = ap (λ (l : List (List ℕ)). (ok l, w)) (sym (append-nil out))
  collect_devices-devices (none ∷ entries) out w = collect_devices-devices entries out w
  collect_devices-devices (some name ∷ entries) out w =
      let out' = if (is_can_device files name w).0 then out ++ name ∷ [] else out in
      ap (collect_devices files (readable entries) out') (is_can_device_keeps name w)
      ∙ collect_devices-devices entries out' w
      ∙ ap (λ (l : List (List ℕ)). (ok l, w)) (joined (is_can_device files name w).0)
    where
      joined :
          (listed : Bool)
          → (if listed then out ++ name ∷ [] else out) ++ devices entries w
            ≡ out ++ (if listed then name ∷ devices entries w else devices entries w)
      joined true = append_assoc out (name ∷ []) (devices entries w)
      joined false = refl

  count-devices :
      (x : List ℕ) (entries : List (Option (List ℕ))) (w : W)
      → count x (devices entries w)
        ≡ (if (is_can_device files x w).0 then count x (known entries) else 0)
  unfolding count
  count-devices x [] w = either_branch (λ (n : ℕ). 0 ≡ n) (is_can_device files x w).0 refl refl
  count-devices x (none ∷ entries) w = count-devices x entries w
  count-devices x (some name ∷ entries) w =
      counted (is_can_device files name w).0 (is_can_device files x w).0
        (λ same. ap (λ (n : List ℕ). (is_can_device files n w).0) (same_text-≡ x name same))
        (count-devices x entries w)
    where
      counted :
          (listed wanted : Bool)
          → (same_text x name ≡ true → wanted ≡ listed)
          → count x (devices entries w) ≡ (if wanted then count x (known entries) else 0)
          → count x (if listed then name ∷ devices entries w else devices entries w)
            ≡ (if wanted then count x (name ∷ known entries) else 0)
      counted true true agree rest = ap (λ (n : ℕ). (if same_text x name then 1 else 0) + n) rest
      counted false false agree rest = rest
      counted true false agree rest = elim (Bool-cases (same_text x name)) [
        | inl same ↦ absurd (cc (agree same))
        | inr other ↦ rw other (omega (arith, rest))
      ]
      counted false true agree rest = elim (Bool-cases (same_text x name)) [
        | inl same ↦ absurd (cc (agree same))
        | inr other ↦ rw other (omega (arith, rest))
      ]

  -- When every entry of the directory can be read, and reading changes no file, the enumeration
  -- returns names in their order by bytes, each as often as the directory has it if the type file
  -- of its device is there and says 280, with or without white space around, and no other name.
  pub list_can_interfaces-IsSorted :
      (entries : List (Option (List ℕ))) (w w₁ : W)
      → read_dir (codes "/sys/class/net") w ≡ (ok (readable entries), w₁)
      → (names : List (List ℕ)) × (list_can_interfaces files w ≡ (ok names, w₁))
        × IsSorted names
        × ((x : List ℕ) → count x names ≡ (if is_can x w₁ then count x (known entries) else 0))
  unfolding list_can_interfaces
  list_can_interfaces-IsSorted entries w w₁ read = (
    sort (devices entries w₁),
    rw (read, collect_devices-devices entries [] w₁) refl,
    sort-IsSorted (devices entries w₁),
    λ x.
        count-sort x (devices entries w₁)
        ∙ count-devices x entries w₁
        ∙ ap (λ (b : Bool). if b then count x (known entries) else 0) (is_can_device-is_can x w₁),
  )
