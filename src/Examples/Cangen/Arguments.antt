-- ===== src/Examples/Cangen/Arguments.antt =====
-- examples/cangen.rs: the command lines that its arguments are written as.
use mcanbus.Base.{
  ℕ, ◌*◌, ◌%◌, ◌^◌, ◌<◌, ◌≡◌, refl, ap, sym, ◌∙◌, ◌/◌, false, arith, Option, none, some, List, [],
  ◌∷◌, ◌++◌, ◌!=◌, IsBytes, length, pos→==,
}
use mcanbus.Base.Results.{Result, ok, ◌>>=◌}
use mcanbus.Base.Text.{hex_text, format_hex, from_str_radix, trim_pairs, upper_digit}
use mcanbus.Base.Text.Decimal.{format_dec, from_str_radix-format_dec}
use mcanbus.Base.Text.Laws.{
  hex_text-IsPrinted, format_hex-IsPrinted, format_hex-byte, from_str_radix-format_hex,
  trim_pairs-IsPrinted,
}
use mcanbus.Examples.{Halt, codes}
use mcanbus.Examples.Cangen.{
  Args, default_args, byte_pairs, parse_hex, set_arg, parse_loop, checked_args, parse_args,
}

-- What the variables of the program hold, and the two tests behind the loop.
abbrev pub IdFits : Option ℕ → Type 0
IdFits none = Unit {0}
IdFits (some id) = id < 2 ^ 32

pub record IsArgs (args : Args) : Type 0 where
  pub some_rate : 0 < args.rate
  pub some_batch : 0 < args.batch
  pub rate_fits : args.rate < 2 ^ 64
  pub batch_fits : args.batch < 2 ^ 64
  pub id_fits : IdFits args.id
  pub bytes_fit : IsBytes args.payload

-- The options in the order of the usage text, an identifier with `0x` in front.
abbrev pub with_id : Option ℕ → List (List ℕ) → List (List ℕ)
with_id none rest = rest
with_id (some id) rest = codes "--id" ∷ (codes "0x" ++ format_hex 0 id) ∷ rest

abbrev pub command_line : Args → List (List ℕ)
command_line args =
    args.iface
    ∷ codes "--rate"
    ∷ format_dec 0 args.rate
    ∷ codes "--batch"
    ∷ format_dec 0 args.batch
    ∷ with_id args.id (codes "--data" ∷ hex_text args.payload ∷ [])

length-hex_text : (bytes : List ℕ) → IsBytes bytes → length (hex_text bytes) ≡ length bytes * 2
unfolding hex_text
length-hex_text [] all_ok = refl
length-hex_text (b ∷ bytes) all_ok =
    rw (format_hex-byte b all_ok.0) (omega (arith, length-hex_text bytes all_ok.1))

byte_pairs-hex_text : (bytes : List ℕ) → IsBytes bytes → byte_pairs (hex_text bytes) ≡ some bytes
unfolding hex_text byte_pairs
byte_pairs-hex_text [] all_ok = refl
byte_pairs-hex_text (b ∷ bytes) all_ok =
    rw (format_hex-byte b all_ok.0, read, byte_pairs-hex_text bytes all_ok.1) refl
  where
    read : from_str_radix 16 8 (upper_digit (b / 16) ∷ upper_digit (b % 16) ∷ []) ≡ some b
    read =
        ap (from_str_radix 16 8) (sym (format_hex-byte b all_ok.0))
        ∙ from_str_radix-format_hex 8 2 b (omega (arith, all_ok.0)) (omega (arith, all_ok.0))

parse_hex-hex_text : (bytes : List ℕ) → IsBytes bytes → parse_hex (hex_text bytes) ≡ some bytes
unfolding parse_hex
parse_hex-hex_text bytes all_ok =
    rw
      (
        trim_pairs-IsPrinted b'0' b'x' (hex_text bytes) (omega arith) (hex_text-IsPrinted bytes),
        even,
      )
      (byte_pairs-hex_text bytes all_ok)
  where
    even : (length (hex_text bytes) % 2 != 0) ≡ false
    even = ground (arith, length-hex_text bytes all_ok)

trim_pairs_two : (s : List ℕ) → trim_pairs b'0' b'x' (b'0' ∷ b'x' ∷ s) ≡ trim_pairs b'0' b'x' s
unfolding trim_pairs
trim_pairs_two s = refl

module _ (args : Args) (rest : List (List ℕ)) where
  parse_loop-rate :
      (n : ℕ)
      → n < 2 ^ 64
      → parse_loop (codes "--rate" ∷ format_dec 0 n ∷ rest) args
        ≡ parse_loop rest (record args { rate = n })
  unfolding parse_loop set_arg
  parse_loop-rate n h = rw (from_str_radix-format_dec 0 n h) refl

  parse_loop-batch :
      (n : ℕ)
      → n < 2 ^ 64
      → parse_loop (codes "--batch" ∷ format_dec 0 n ∷ rest) args
        ≡ parse_loop rest (record args { batch = n })
  unfolding parse_loop set_arg
  parse_loop-batch n h = rw (from_str_radix-format_dec 0 n h) refl

  parse_loop-data :
      (bytes : List ℕ)
      → IsBytes bytes
      → parse_loop (codes "--data" ∷ hex_text bytes ∷ rest) args
        ≡ parse_loop rest (record args { payload = bytes })
  unfolding parse_loop set_arg
  parse_loop-data bytes h = rw (parse_hex-hex_text bytes h) refl

  parse_loop-id :
      (n : ℕ)
      → n < 2 ^ 32
      → parse_loop (codes "--id" ∷ (codes "0x" ++ format_hex 0 n) ∷ rest) args
        ≡ parse_loop rest (record args { id = some n })
  unfolding parse_loop set_arg
  parse_loop-id n h = rw (trimmed, from_str_radix-format_hex 32 0 n h h) refl
    where
      trimmed : trim_pairs b'0' b'x' (b'0' ∷ b'x' ∷ format_hex 0 n) ≡ format_hex 0 n
      trimmed =
          trim_pairs_two (format_hex 0 n)
          ∙ trim_pairs-IsPrinted b'0' b'x' (format_hex 0 n) (omega arith) (format_hex-IsPrinted 0 n)

parse_loop_end : (args : Args) → parse_loop [] args ≡ ok args
unfolding parse_loop
parse_loop_end args = refl

abbrev tested : Result Args Halt → Result Args Halt
tested r = r >>= checked_args

-- Behind the two numbers.
parse_loop-with_id :
    (args : Args) (id : Option ℕ) (rest : List (List ℕ))
    → args.id ≡ none
    → IdFits id
    → parse_loop (with_id id rest) args ≡ parse_loop rest (record args { id = id })
parse_loop-with_id args none rest unset fits =
    ap (λ (o : Option ℕ). parse_loop rest (record args { id = o })) unset
parse_loop-with_id args (some id) rest unset fits = parse_loop-id args rest id fits

-- The arguments of any run, written as a command line, are parsed as they are.
pub parse_args-command_line : (args : Args) → IsArgs args → parse_args (command_line args) ≡ ok args
unfolding parse_args
parse_args-command_line args v =
    ap tested (
      parse_loop-rate (default_args args.iface) _ args.rate v.rate_fits
      ∙ parse_loop-batch _ _ args.batch v.batch_fits
      ∙ parse_loop-with_id _ args.id _ refl v.id_fits
      ∙ parse_loop-data _ [] args.payload v.bytes_fit)
    ∙ last
  where
    last : tested (parse_loop [] args) ≡ ok args
    last =
        rw (parse_loop_end args, pos→== args.batch v.some_batch, pos→== args.rate v.some_rate) refl
