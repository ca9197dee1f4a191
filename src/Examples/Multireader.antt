-- ===== src/Examples/Multireader.antt =====
-- examples/multireader.rs: its arguments, a worker, and the totals. What the thread of the reader
-- offers a worker's queue between two of its calls is a schedule, one entry for each round.
pub mod Worker
use mcanbus.Base.{ℕ, ◌+◌, ◌*◌, ◌%◌, ◌^◌, Option, none, some, List, [], ◌∷◌, ◌++◌, if◌then◌else◌}
use mcanbus.Base.Results.{Result, ok, err, ◌>>=◌}
use mcanbus.Base.Text.{from_str_radix, same_text}
use mcanbus.Examples.{Halt, usage, or_usage, codes}
use mcanbus.Frame.Data.{Frame}
use mcanbus.Reader.{TrySend, offer}
use mcanbus.Reader.Subscriber.{Receivers, Subscriber, recv_timeout, received, dropped, pending}
use mcanbus.Socket.Open.{OpenOpts, default_open_opts}

-- The variables `iface` and `workers` of `run`.
pub record Args : Type 0 where
  pub iface : List ℕ
  pub workers : ℕ

-- `it.next().and_then(|s| s.parse().ok()).unwrap_or_else(|| usage())`.
unfoldable pub workers_arg : Option (List ℕ) → Result ℕ Halt
workers_arg none = err usage
workers_arg (some s) = or_usage (from_str_radix 10 64 s)

-- The `match` on an argument; `-h`, `--help` and any other argument end in `usage()`.
unfoldable pub set_arg : List ℕ → Option (List ℕ) → Args → Result Args Halt
unfolding workers_arg same_text
set_arg arg next args =
    if same_text arg (codes "--workers")
    then (workers_arg next >>= λ workers. ok (record args { workers = workers }))
    else err usage

unfoldable pub parse_loop : List (List ℕ) → Args → Result Args Halt
parse_loop [] args = ok args
parse_loop (arg ∷ []) args = set_arg arg none args
parse_loop (arg ∷ next ∷ rest) args =
    set_arg arg (some next) args >>= λ args'. parse_loop rest args'

unfoldable pub parse_args : List (List ℕ) → Result Args Halt
parse_args [] = err usage
parse_args (iface ∷ rest) = parse_loop rest (record { iface = iface; workers = 4 })

abbrev pub reader_opts : OpenOpts
reader_opts = record default_open_opts {
  recv_timeout = some (record { secs = 0; nanos = 200 * 1_000_000 });
}

-- `(i, sub.received(), sub.dropped(), sub.pending())`.
pub record Report : Type 0 where
  pub worker : ℕ
  pub received : ℕ
  pub dropped : ℕ
  pub pending : ℕ

-- The frames that were given to `black_box`, and one more.
abbrev pub black_box : Option Frame → List Frame → List Frame
black_box none frames = frames
black_box (some frame) frames = frames ++ frame ∷ []

module _ {W : Type 0} (try_send : ℕ → Frame → W → TrySend × W) (receivers : Receivers W) where
  -- The loop of a worker.
  unfoldable pub work :
      List (List Frame) → Subscriber → List Frame → W → (Subscriber × List Frame) × W
  work [] sub taken w = ((sub, taken), w)
  work (offered ∷ later) sub taken w =
      let ((inner, gone), w₁) = offer try_send sub.inner offered w in
      let sub' : Subscriber = record sub { inner = inner } in
      let (frame, w₂) = recv_timeout receivers sub' 200 w₁ in
      work later sub' (black_box frame taken) w₂

  -- What the thread of a worker returns, with the frames that it has taken.
  unfoldable pub run_worker : ℕ → List (List Frame) → Subscriber → W → (Report × List Frame) × W
  unfolding work
  run_worker i schedule sub w =
      let ((sub', taken), w') = work schedule sub [] w in
      (
        (
          record {
            worker = i;
            received = received sub';
            dropped = dropped sub';
            pending = pending receivers sub' w';
          },
          taken,
        ),
        w',
      )

-- `total_received` and `total_dropped`, from some sums on.
unfoldable pub totals : List Report → ℕ → ℕ → ℕ × ℕ
totals [] total_received total_dropped = (total_received, total_dropped)
totals (r ∷ reports) total_received total_dropped =
    totals reports ((total_received + r.received) % 2 ^ 64) ((total_dropped + r.dropped) % 2 ^ 64)
