-- ===== src/Examples/Candump/Arguments.antt =====
-- examples/candump.rs: the command lines that its arguments are written as.
use mcanbus.Base.{
  ℕ, max, zero, suc, ◌/◌, ◌%◌, ≢→==, ◌^◌, ◌<◌, ◌≡◌, refl, ap, ◌∙◌, arith, Option, none, some, List,
  [], ◌∷◌, ◌++◌, All, All-append, All-imp, map,
}
use mcanbus.Base.Results.{ok}
use mcanbus.Base.Text.{format_hex, hex_fixed, digit_count, upper_digit, split_once}
use mcanbus.Base.Text.Laws.{format_hex-IsPrinted, from_str_radix-format_hex, trim_pairs-IsPrinted}
use mcanbus.Base.Text.Split.{NotByte, join_commas, split_commas-join_commas, split_once-append}
use mcanbus.Examples.{codes}
use mcanbus.Examples.Candump.{
  Args, hex_word, entry_of, parse_entries, parse_filters, set_arg, parse_loop, parse_args,
}
use mcanbus.Socket.Filter.{CanFilter}

-- Two words of 32 bits.
abbrev pub IsFilter : CanFilter → Type 0
IsFilter f = (f.id < 2 ^ 32) × (f.mask < 2 ^ 32)

abbrev pub AreFilters : Option (List CanFilter) → Type 0
AreFilters none = Unit {0}
AreFilters (some []) = ⊥
AreFilters (some (f ∷ filters)) = All IsFilter (f ∷ filters)

-- `ID:MASK`, and the command line, with commas between the filters.
abbrev pub filter_text : CanFilter → List ℕ
filter_text f = format_hex 3 f.id ++ b':' ∷ format_hex 3 f.mask

abbrev pub filter_args : Option (List CanFilter) → List (List ℕ)
filter_args none = []
filter_args (some filters) = codes "--filter" ∷ join_commas (map filter_text filters) ∷ []

abbrev pub dump_line : Args → List (List ℕ)
dump_line args = args.iface ∷ filter_args args.filter

hex_word-format_hex : (n : ℕ) → n < 2 ^ 32 → hex_word (format_hex 3 n) ≡ some n
unfolding hex_word
hex_word-format_hex n h =
    rw (trim_pairs-IsPrinted b'0' b'x' (format_hex 3 n) (omega arith) (format_hex-IsPrinted 3 n))
      (from_str_radix-format_hex 32 3 n h h)

digits_no_colon : (k n : ℕ) → All (NotByte b':') (hex_fixed k n)
unfolding hex_fixed
digits_no_colon zero n = tt
digits_no_colon (suc k) n =
    All-append (NotByte b':') (hex_fixed k (n / 16)) (upper_digit (n % 16) ∷ [])
      (digits_no_colon k (n / 16)) (ground arith, tt)

no_colon : (width n : ℕ) → All (NotByte b':') (format_hex width n)
unfolding format_hex
no_colon width n = digits_no_colon (max (max width 1) (digit_count 8 n)) n

no_comma : (width n : ℕ) → All (NotByte b',') (format_hex width n)
no_comma width n =
    All-imp (format_hex width n) (λ c printed. ≢→== c b',' (omega (arith, printed)))
      (format_hex-IsPrinted width n)

filter_text-no_comma : (f : CanFilter) → All (NotByte b',') (filter_text f)
filter_text-no_comma f =
    All-append (NotByte b',') (format_hex 3 f.id) (b':' ∷ format_hex 3 f.mask) (no_comma 3 f.id)
      (refl, no_comma 3 f.mask)

texts_no_comma : (filters : List CanFilter) → All (All (NotByte b',')) (map filter_text filters)
texts_no_comma [] = tt
texts_no_comma (f ∷ filters) = (filter_text-no_comma f, texts_no_comma filters)

entry_of-filter_text :
    (f : CanFilter) → IsFilter f → entry_of (split_once b':' (filter_text f)) ≡ some f
entry_of-filter_text f (id_fits, mask_fits) =
    rw
      (
        split_once-append b':' (format_hex 3 f.id) (format_hex 3 f.mask) (no_colon 3 f.id),
        hex_word-format_hex f.id id_fits,
        hex_word-format_hex f.mask mask_fits,
      )
      refl

parse_entries-filter_text :
    (filters : List CanFilter)
    → All IsFilter filters
    → parse_entries (map filter_text filters) ≡ some filters
unfolding parse_entries
parse_entries-filter_text [] fits = refl
parse_entries-filter_text (f ∷ filters) (first, fits) =
    rw (entry_of-filter_text f first, parse_entries-filter_text filters fits) refl

parse_filters-join_commas :
    (f : CanFilter) (filters : List CanFilter)
    → All IsFilter (f ∷ filters)
    → parse_filters (join_commas (map filter_text (f ∷ filters))) ≡ some (f ∷ filters)
unfolding parse_filters
parse_filters-join_commas f filters fits =
    ap parse_entries (
      split_commas-join_commas (filter_text f) (map filter_text filters)
        (texts_no_comma (f ∷ filters)))
    ∙ parse_entries-filter_text (f ∷ filters) fits

-- An interface, alone or with some filters of 32-bit words, written as a command line is parsed
-- as it is.
pub parse_args-dump_line :
    (iface : List ℕ) (filter : Option (List CanFilter))
    → AreFilters filter
    → let args : Args = record { iface = iface; filter = filter } in
      parse_args (dump_line args) ≡ ok args
unfolding parse_args parse_loop set_arg
parse_args-dump_line iface none fits = refl
parse_args-dump_line iface (some []) fits = absurd fits
parse_args-dump_line iface (some (f ∷ filters)) fits =
    rw (parse_filters-join_commas f filters fits) refl
