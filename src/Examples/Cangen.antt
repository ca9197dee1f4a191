-- ===== src/Examples/Cangen.antt =====
-- examples/cangen.rs: its arguments, the frames it makes, and its rounds. Instants are nanoseconds.
pub mod Arguments
pub mod Buffer
pub mod Pacing
pub mod Bus
pub mod Order
use mcanbus.Base.{
  ℕ, zero, suc, ◌+◌, ◌-◌, ◌*◌, ◌/◌, ◌%◌, ◌^◌, bit_and, ◌||◌, Option, none, some, List, [], ◌∷◌, ltb,
  leb, ◌==◌, ◌!=◌, if◌then◌else◌, length,
}
use mcanbus.Base.Results.{Result, ok, err, ◌>>=◌}
use mcanbus.Base.Text.{from_str_radix, same_text, trim_pairs}
use mcanbus.Examples.{
  Halt, exited, panicked, usage, or_usage, or_exit, Act, then_do, attempt, closing, codes,
}
use mcanbus.Frame.Id.{CanId, new_standard, new_extended}
use mcanbus.Frame.Data.{Frame, FrameError, new_classic}
use mcanbus.Socket.Kernel.{Kernel}
use mcanbus.Socket.Open.{OpenOpts, default_open_opts, open_socket}
use mcanbus.Socket.Transfer.{Socket, send, send_batch}

-- The field `payload` is `data` in the source.
pub record Args : Type 0 where
  pub iface : List ℕ
  pub rate : ℕ
  pub batch : ℕ
  pub id : Option ℕ
  pub payload : List ℕ

abbrev pub default_args : List ℕ → Args
default_args iface = record {
  iface = iface;
  rate = 100;
  batch = 1;
  id = none;
  payload = 0xDE ∷ 0xAD ∷ 0xBE ∷ 0xEF ∷ 0xCA ∷ 0xFE ∷ 0xBA ∷ 0xBE ∷ [];
}

-- `collect()` of results: the first that is none is all.
abbrev pub push_byte : Option ℕ → Option (List ℕ) → Option (List ℕ)
push_byte none bytes = none
push_byte (some byte) none = none
push_byte (some byte) (some bytes) = some (byte ∷ bytes)

-- `u8::from_str_radix(&s[i..i + 2], 16)` at the offsets 0, 2, …, for a text of even length.
unfoldable pub byte_pairs : List ℕ → Option (List ℕ)
byte_pairs [] = some []
byte_pairs (c ∷ []) = none
byte_pairs (c ∷ d ∷ s) = push_byte (from_str_radix 16 8 (c ∷ d ∷ [])) (byte_pairs s)

unfoldable pub parse_hex : List ℕ → Option (List ℕ)
parse_hex s =
    let digits = trim_pairs b'0' b'x' s in
    if length digits % 2 != 0 then none else byte_pairs digits

-- `it.next().and_then(|s| s.parse().ok()).unwrap_or_else(|| usage())`, for a `u64` or a `usize`.
unfoldable pub number_arg : Option (List ℕ) → Result ℕ Halt
number_arg none = err usage
number_arg (some s) = or_usage (from_str_radix 10 64 s)

unfoldable pub id_arg : Option (List ℕ) → Result ℕ Halt
id_arg next = or_usage next >>= λ s. or_usage (from_str_radix 16 32 (trim_pairs b'0' b'x' s))

unfoldable pub data_arg : Option (List ℕ) → Result (List ℕ) Halt
data_arg next = or_usage next >>= λ s. or_exit (parse_hex s)

-- The `match` on an argument; `next` is what `it.next()` gives in it. `-h`, `--help` and any other
-- argument end in `usage()`.
unfoldable pub set_arg : List ℕ → Option (List ℕ) → Args → Result Args Halt
unfolding number_arg id_arg data_arg same_text
set_arg arg next args =
    if same_text arg (codes "--rate")
    then (number_arg next >>= λ rate. ok (record args { rate = rate }))
    else if same_text arg (codes "--batch")
    then (number_arg next >>= λ batch. ok (record args { batch = batch }))
    else if same_text arg (codes "--id")
    then (id_arg next >>= λ id. ok (record args { id = some id }))
    else if same_text arg (codes "--data")
    then (data_arg next >>= λ payload. ok (record args { payload = payload }))
    else err usage

-- The loop: an argument that does not end the program takes the next one with it.
unfoldable pub parse_loop : List (List ℕ) → Args → Result Args Halt
parse_loop [] args = ok args
parse_loop (arg ∷ []) args = set_arg arg none args
parse_loop (arg ∷ next ∷ rest) args =
    set_arg arg (some next) args >>= λ args'. parse_loop rest args'

abbrev pub checked_args : Args → Result Args Halt
checked_args args = if args.batch == 0 || args.rate == 0 then err usage else ok args

-- Of the arguments behind the name of the program.
unfoldable pub parse_args : List (List ℕ) → Result Args Halt
parse_args [] = err usage
parse_args (iface ∷ rest) = parse_loop rest (default_args iface) >>= checked_args

unfoldable pub id_of : Option ℕ → ℕ → CanId
id_of (some raw) seq = if leb raw 0x7FF then new_standard (raw % 2 ^ 16) else new_extended raw
id_of none seq = new_standard (0x100 + bit_and (seq % 2 ^ 16) 0x0F)

-- `.expect("payload <= 8 bytes")`.
abbrev pub expect_frame : Result Frame FrameError → Result Frame Halt
expect_frame (ok frame) = ok frame
expect_frame (err e) = err panicked

unfoldable pub build_frame : Args → ℕ → Result Frame Halt
unfolding id_of
build_frame args seq = expect_frame (new_classic (id_of args.id seq) args.payload)

-- `seq` is a `u64`.
abbrev pub next_seq : ℕ → ℕ
next_seq seq = (seq + 1) % 2 ^ 64

-- `for _ in 0..n { batch_buf.push(build_frame(&args, seq)); seq += 1; }`: the buffer and `seq`.
unfoldable pub fill : Args → ℕ → ℕ → Result (List Frame × ℕ) Halt
fill args zero seq = ok ([], seq)
fill args (suc n) seq = build_frame args seq >>= λ frame.
    fill args n (next_seq seq) >>= λ filled. ok (frame ∷ filled.0, filled.1)

abbrev pub cangen_opts : OpenOpts
cangen_opts = record default_open_opts { recv_buf_bytes = some (64 * 1024) }

-- `Duration::from_nanos(1_000_000_000 * args.batch as u64 / args.rate)`.
unfoldable pub burst_period : Args → ℕ
burst_period args = 1_000_000_000 * args.batch % 2 ^ 64 / args.rate

-- The variables of the loop.
pub record Pace : Type 0 where
  pub next_deadline : ℕ
  pub sent : ℕ
  pub seq : ℕ

-- `Instant::now()` before the loop.
abbrev pub first_pace : ℕ → Pace
first_pace start = record { next_deadline = start; sent = 0; seq = 0 }

abbrev pub paced : {W : Type 0} → ℕ → ℕ → ℕ × W → Result Pace Halt × W
paced sent seq (next_deadline, w) =
    (ok (record { next_deadline = next_deadline; sent = sent; seq = seq }), w)

-- `thread::sleep` of a `Duration` in nanoseconds, which is a parameter.
module _ (k : Kernel) (sleep_nanos : ℕ → k.World → k.World) where
  open k use {World, now}

  -- `batch_buf[0]`, and what is sent of the buffer.
  unfoldable pub send_first : Socket → List Frame → Act World ℕ
  send_first socket [] w = (err panicked, w)
  send_first socket (frame ∷ frames) w =
      then_do (attempt (send k socket frame w)) (λ _ w₁. (ok 1, w₁))

  unfoldable pub send_burst : Socket → Args → List Frame → Act World ℕ
  unfolding send_first
  send_burst socket args frames w =
      if args.batch == 1 then send_first socket frames w else attempt (send_batch k socket frames w)

  -- The rest of a round, for the deadline of the next one: the new `next_deadline`.
  unfoldable pub keep_pace : ℕ → World → ℕ × World
  keep_pace next_deadline w =
      let (instant, w₁) = now w in
      if ltb instant next_deadline
      then (next_deadline, sleep_nanos (next_deadline - instant) w₁)
      else (if ltb 500_000_000 (instant - next_deadline)
          then (instant, w₁)
          else (next_deadline, w₁))

  -- What follows on the buffer in a round.
  unfoldable pub burst : Socket → Args → Pace → Result (List Frame × ℕ) Halt → Act World Pace
  unfolding send_burst keep_pace burst_period
  burst socket args pace (err e) w = (err e, w)
  burst socket args pace (ok (frames, seq)) w = then_do (send_burst socket args frames w) λ n w₁.
      paced ((pace.sent + n % 2 ^ 64) % 2 ^ 64) seq
        (keep_pace (pace.next_deadline + burst_period args) w₁)

  unfoldable pub round : Socket → Args → Pace → Act World Pace
  unfolding burst
  round socket args pace w = burst socket args pace (fill args args.batch pace.seq) w

  unfoldable pub rounds_of : Socket → Args → ℕ → Pace → Act World Pace
  unfolding round
  rounds_of socket args zero pace w = (ok pace, w)
  rounds_of socket args (suc rounds) pace w =
      then_do (round socket args pace w) (rounds_of socket args rounds)

  -- The loop, from the start on.
  unfoldable pub generate : Socket → Args → ℕ → Act World Pace
  unfolding rounds_of
  generate socket args rounds w =
      let (start, w₁) = now w in rounds_of socket args rounds (first_pace start) w₁

  -- `run`: the socket is dropped at its end.
  unfoldable pub run : Args → ℕ → Act World Pace
  unfolding generate
  run args rounds w =
      then_do (attempt (open_socket k args.iface cangen_opts w))
        λ socket w₁. closing k socket (generate socket args rounds w₁)

  -- `main`: nothing is done with arguments that are refused.
  unfoldable pub main : List (List ℕ) → ℕ → Act World Pace
  unfolding run
  main argv rounds w = elim (parse_args argv) [ err e ↦ (err e, w) | ok args ↦ run args rounds w ]
