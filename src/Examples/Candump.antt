-- ===== src/Examples/Candump.antt =====
-- examples/candump.rs: its arguments, the lines it prints, and its rounds. An error of `parse_filters`
-- is kept without its text.
pub mod Clock
pub mod Arrivals
pub mod Printing
pub mod Arguments
use mcanbus.Base.{
  ℕ, zero, suc, ◌+◌, ◌*◌, ◌/◌, ◌%◌, ◌^◌, Option, none, some, List, [], ◌∷◌, ◌++◌, if◌then◌else◌,
}
use mcanbus.Base.Results.{Result, ok, err, ◌>>=◌}
use mcanbus.Base.Text.{from_str_radix, same_text, trim_pairs, split_commas, split_once}
use mcanbus.Base.Text.Decimal.{format_dec}
use mcanbus.Examples.{Halt, failed, usage, or_usage, or_exit, codes}
use mcanbus.Frame.Data.{Frame}
use mcanbus.Frame.Display.{display}
use mcanbus.Io.{IoError}
use mcanbus.Socket.Filter.{CanFilter}
use mcanbus.Socket.Kernel.{Kernel}
use mcanbus.Socket.Open.{OpenOpts, default_open_opts, open_socket, drop_socket}
use mcanbus.Socket.Transfer.{Socket, recv}

-- `u32::from_str_radix(s.trim_start_matches("0x"), 16)`.
unfoldable pub hex_word : List ℕ → Option ℕ
hex_word s = from_str_radix 16 32 (trim_pairs b'0' b'x' s)

abbrev pub filter_of : Option ℕ → Option ℕ → Option CanFilter
filter_of none mask = none
filter_of (some id) none = none
filter_of (some id) (some mask) = some (record { id = id; mask = mask })

abbrev pub entry_of : Option (List ℕ × List ℕ) → Option CanFilter
entry_of none = none
entry_of (some (id, mask)) = filter_of (hex_word id) (hex_word mask)

-- `collect()` of results: the first that is none is all.
abbrev pub push_filter : Option CanFilter → Option (List CanFilter) → Option (List CanFilter)
push_filter none filters = none
push_filter (some filter) none = none
push_filter (some filter) (some filters) = some (filter ∷ filters)

unfoldable pub parse_entries : List (List ℕ) → Option (List CanFilter)
parse_entries [] = some []
parse_entries (entry ∷ entries) =
    push_filter (entry_of (split_once b':' entry)) (parse_entries entries)

unfoldable pub parse_filters : List ℕ → Option (List CanFilter)
unfolding parse_entries
parse_filters spec = parse_entries (split_commas spec)

-- The variables `iface` and `filter` of `run`.
pub record Args : Type 0 where
  pub iface : List ℕ
  pub filter : Option (List CanFilter)

unfoldable pub filter_arg : Option (List ℕ) → Result (List CanFilter) Halt
filter_arg next = or_usage next >>= λ spec. or_exit (parse_filters spec)

-- The `match` on an argument; `-h`, `--help` and any other argument end in `usage()`.
unfoldable pub set_arg : List ℕ → Option (List ℕ) → Args → Result Args Halt
unfolding filter_arg same_text
set_arg arg next args =
    if same_text arg (codes "--filter")
    then (filter_arg next >>= λ filters. ok (record args { filter = some filters }))
    else err usage

unfoldable pub parse_loop : List (List ℕ) → Args → Result Args Halt
parse_loop [] args = ok args
parse_loop (arg ∷ []) args = set_arg arg none args
parse_loop (arg ∷ next ∷ rest) args =
    set_arg arg (some next) args >>= λ args'. parse_loop rest args'

unfoldable pub parse_args : List (List ℕ) → Result Args Halt
parse_args [] = err usage
parse_args (iface ∷ rest) = parse_loop rest (record { iface = iface; filter = none })

-- `{h:02}:{m:02}:{s:02}.{micros:06}`, of a `u64`.
unfoldable pub format_timestamp : ℕ → List ℕ
format_timestamp ns =
    let secs = ns / 1_000_000_000 in
    let micros = ns % 1_000_000_000 / 1_000 in
    let h = secs / 3600 % 24 in
    let m = secs / 60 % 60 in
    let s = secs % 60 in
    format_dec 2 h
    ++ (b':' ∷ format_dec 2 m ++ (b':' ∷ format_dec 2 s ++ (b'.' ∷ format_dec 6 micros)))

unfoldable pub stamp_text : Option ℕ → List ℕ
unfolding format_timestamp
stamp_text none = codes "??:??:??.??????"
stamp_text (some ns) = format_timestamp ns

-- `({ts}) {iface}  {frame}`.
unfoldable pub line : List ℕ → Frame → List ℕ
unfolding stamp_text
line iface frame =
    b'(' ∷ stamp_text frame.timestamp_ns ++ (b')' ∷ b' ' ∷ iface ++ (b' ' ∷ b' ' ∷ display frame))

abbrev pub dump_opts : Option (List CanFilter) → OpenOpts
dump_opts filter = record default_open_opts {
  filter = filter;
  recv_timeout = some (record { secs = 0; nanos = 500 * 1_000_000 });
}

module _ (k : Kernel) where
  open k use {World}

  -- What a run has printed, and how it ended: with the count of frames, or early.
  abbrev pub Printed : Type 0
  Printed = (Result ℕ Halt × List (List ℕ)) × World

  -- What is done with a received frame; `rest` are the rounds that follow.
  abbrev pub on_recv :
      List ℕ
      → List (List ℕ)
      → ℕ
      → (List (List ℕ) → ℕ → World → Printed)
      → Result (Option Frame) IoError × World
      → Printed
  on_recv iface out count rest (ok none, w) = rest out count w
  on_recv iface out count rest (ok (some frame), w) =
      rest (out ++ line iface frame ∷ []) ((count + 1) % 2 ^ 64) w
  on_recv iface out count rest (err e, w) = ((err (failed e), out), w)

  -- The loop, with the lines printed so far.
  unfoldable pub dump : Socket → List ℕ → ℕ → List (List ℕ) → ℕ → World → Printed
  dump socket iface zero out count w = ((ok count, out), w)
  dump socket iface (suc rounds) out count w =
      on_recv iface out count (dump socket iface rounds) (recv k socket w)

  -- `run`, behind its arguments; the socket is dropped at its end.
  unfoldable pub dump_on : Args → ℕ → Result Socket IoError × World → Printed
  unfolding dump
  dump_on args rounds (err e, w) = ((err (failed e), []), w)
  dump_on args rounds (ok socket, w) =
      let (printed, w₁) = dump socket args.iface rounds [] 0 w in (printed, drop_socket k socket w₁)

  unfoldable pub main : List (List ℕ) → ℕ → World → Printed
  unfolding dump_on
  main argv rounds w = elim (parse_args argv) [
    | err e ↦ ((err e, []), w)
    | ok args ↦ dump_on args rounds (open_socket k args.iface (dump_opts args.filter) w)
  ]
