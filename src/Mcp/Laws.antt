-- ===== src/Mcp/Laws.antt =====
-- socketcan-mcp/src/main.rs: the frames that arguments become.
use mcanbus.Base.{
  ℕ, ◌%◌, ◌^◌, ◌<◌, ◌≡◌, refl, arith, ltb, Bool-cases, inl, inr, ltb→lt, ltb→le, Bool, true, false,
  if◌then◌else◌, either_branch, Option, none, some, List, [], ◌∷◌, length, IsBytes,
}
use mcanbus.Base.Text.{from_str_radix}
use mcanbus.Base.Text.Laws.{from_str_radix-lt}
use mcanbus.Base.Results.{Result, ok, err, ◌>>=◌}
use mcanbus.Frame.Id.{CanId, IsCanId, new_standard, new_extended}
use mcanbus.Frame.Id.Masks.{sff_mask_lem, eff_mask_lem}
use mcanbus.Frame.Data.{FdFlags, new_classic, new_fd, max_data_len, max_fd_data_len, IsFrame}
use mcanbus.Frame.Data.Laws.{new_classic_lem, new_fd_lem}
use mcanbus.Mcp.{
  McpError, invalid_params, SendFrameInline, or_invalid, or_invalid_frame, parse_pairs,
  parse_hex_bytes, parse_hex_id, build_frame, trim_hex,
}

-- What an `Ok` holds.
abbrev pub AllOk : {A : Type 0} → (A → Type 0) → Result A McpError → Type 0
AllOk P (ok a) = P a
AllOk P (err e) = Unit {0}

then-AllOk :
    {A B : Type 0} (P : A → Type 0) (Q : B → Type 0) (r : Result A McpError)
    (f : A → Result B McpError)
    → AllOk P r
    → ((a : A) → P a → AllOk Q (f a))
    → AllOk Q (r >>= f)
then-AllOk P Q (ok a) f h next = next a h
then-AllOk P Q (err e) f h next = tt

new_classic-AllOk :
    (id : CanId) (bytes : List ℕ)
    → IsCanId id
    → IsBytes bytes
    → AllOk IsFrame (or_invalid_frame (new_classic id bytes))
new_classic-AllOk id bytes id_ok bytes_ok = elim (Bool-cases (ltb max_data_len (length bytes))) [
  | inl long ↦
      rw ((new_classic_lem id bytes id_ok bytes_ok).1 (ltb→lt max_data_len (length bytes) long)) tt
  | inr short ↦
      let made =
        (new_classic_lem id bytes id_ok bytes_ok).0 (ltb→le max_data_len (length bytes) short) in
      rw made.1 made.2.well_formed
]

new_fd-AllOk :
    (id : CanId) (bytes : List ℕ) (flags : FdFlags)
    → IsCanId id
    → IsBytes bytes
    → AllOk IsFrame (or_invalid_frame (new_fd id bytes flags))
new_fd-AllOk id bytes flags id_ok bytes_ok =
    elim (Bool-cases (ltb max_fd_data_len (length bytes))) [
      | inl long ↦
          rw
            ((new_fd_lem id bytes flags id_ok bytes_ok).1
              (ltb→lt max_fd_data_len (length bytes) long))
            tt
      | inr short ↦
          let made =
            (new_fd_lem id bytes flags id_ok bytes_ok).0
              (ltb→le max_fd_data_len (length bytes) short) in
          rw made.1 made.2.well_formed
    ]

parsed_byte : (s : List ℕ) → AllOk (λ n. n < 256) (or_invalid (from_str_radix 16 8 s))
parsed_byte s = judged (from_str_radix 16 8 s) refl
  where
    judged : (o : Option ℕ) → from_str_radix 16 8 s ≡ o → AllOk (λ n. n < 256) (or_invalid o)
    judged none e = tt
    judged (some n) e = from_str_radix-lt 8 s n e

parse_pairs-AllOk : (s : List ℕ) → AllOk IsBytes (parse_pairs s)
unfolding parse_pairs
parse_pairs-AllOk [] = tt
parse_pairs-AllOk (c ∷ []) = tt
parse_pairs-AllOk (c ∷ d ∷ s) =
    then-AllOk (λ n. n < 256) IsBytes (or_invalid (from_str_radix 16 8 (c ∷ d ∷ [])))
      (λ byte. parse_pairs s >>= λ bytes. ok (byte ∷ bytes)) (parsed_byte (c ∷ d ∷ []))
      (λ byte small.
        then-AllOk IsBytes IsBytes (parse_pairs s) (λ bytes. ok (byte ∷ bytes))
          (parse_pairs-AllOk s) (λ bytes h. (small, h)))

parse_hex_bytes-AllOk : (s : List ℕ) → AllOk IsBytes (parse_hex_bytes s)
unfolding parse_hex_bytes
parse_hex_bytes-AllOk s =
    either_branch (AllOk IsBytes) _ {x = err invalid_params} tt (parse_pairs-AllOk (trim_hex s))

parse_hex_id-AllOk : (s : List ℕ) (extended : Bool) → AllOk IsCanId (parse_hex_id s extended)
unfolding parse_hex_id new_standard new_extended
parse_hex_id-AllOk s extended = judged (from_str_radix 16 32 (trim_hex s)) extended
  where
    judged :
        (o : Option ℕ) (b : Bool)
        → AllOk IsCanId (
            or_invalid o >>= λ raw.
            ok (if b then new_extended raw else new_standard (raw % 2 ^ 16)))
    judged none b = tt
    judged (some raw) true = omega (arith, eff_mask_lem raw)
    judged (some raw) false = omega (arith, sff_mask_lem (raw % 2 ^ 16))

-- Whatever the texts are, a frame that `build_frame` returns is well formed.
pub build_frame-AllOk : (args : SendFrameInline) → AllOk IsFrame (build_frame args)
unfolding build_frame
build_frame-AllOk args =
    then-AllOk IsCanId IsFrame (parse_hex_id args.id args.extended) _
      (parse_hex_id-AllOk args.id args.extended)
      (λ id id_ok.
        then-AllOk IsBytes IsFrame (parse_hex_bytes args.data_hex) _
          (parse_hex_bytes-AllOk args.data_hex)
          (λ bytes bytes_ok. chosen args.fd id bytes id_ok bytes_ok))
  where
    chosen :
        (b : Bool) (id : CanId) (bytes : List ℕ)
        → IsCanId id
        → IsBytes bytes
        → AllOk IsFrame (
            or_invalid_frame (
              if b
              then new_fd id bytes (record { brs = args.brs; esi = false })
              else new_classic id bytes))
    chosen true id bytes id_ok bytes_ok = new_fd-AllOk id bytes _ id_ok bytes_ok
    chosen false id bytes id_ok bytes_ok = new_classic-AllOk id bytes id_ok bytes_ok
