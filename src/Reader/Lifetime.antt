-- ===== src/Reader/Lifetime.antt =====
-- mcanbus/src/reader.rs, `Reader`: from the start of its thread to its join. What happens while the
-- thread runs is a schedule, one entry for each round of `run_reader`.
pub mod Kept
pub mod Shutdown
use mcanbus.Base.{ℕ, Bool, true, false, Option, none, some, List, [], ◌∷◌, ◌++◌}
use mcanbus.Frame.Data.{Frame}
use mcanbus.Reader.{
  TrySend, ReaderInner, ReaderConfig, default_reader_config, new_inner, batch_of, first_buf,
}
use mcanbus.Reader.Loop.{Interference, store_stop, run_reader}
use mcanbus.Socket.Kernel.{Kernel}
use mcanbus.Socket.Open.{drop_socket}
use mcanbus.Socket.Transfer.{Socket}

-- What the closure of the thread owns: `move || run_reader(socket, inner, batch)`.
pub record JoinHandle : Type 0 where
  pub socket : Socket
  pub batch : ℕ

pub record Reader : Type 0 where
  pub inner : ReaderInner
  pub handle : Option JoinHandle

unfoldable pub with_config : Socket → ReaderConfig → Reader
with_config socket config = record {
  inner = new_inner;
  handle = some (record { socket = socket; batch = batch_of config });
}

unfoldable pub new : Socket → Reader
unfolding with_config
new socket = with_config socket default_reader_config

unfoldable pub kernel_drops : Reader → ℕ
kernel_drops self = self.inner.kernel_drops

-- The round in which `stop.store(true, …)` is executed, after those of the schedule.
abbrev pub stopped_in :
    {W : Type 0} → List (Interference W) → Interference W → List (Interference W)
stopped_in es last = es ++ record last { stop = true } ∷ []

module _ (k : Kernel) (try_send : ℕ → Frame → k.World → TrySend × k.World) where
  open k use {World}

  -- The end of the thread's closure drops the socket. A thread that is still in its loop cannot be
  -- joined.
  abbrev pub ended : Socket → (ReaderInner × Bool) × World → Option (ReaderInner × World)
  ended socket ((inner, true), w) = some (inner, drop_socket k socket w)
  ended socket ((inner, false), w) = none

  unfoldable pub join :
      JoinHandle → List (Interference World) → ReaderInner → World → Option (ReaderInner × World)
  join h es inner w =
      ended h.socket
        (run_reader k try_send h.socket h.batch es (first_buf k try_send h.socket) inner w)

  abbrev pub without_thread : Option (ReaderInner × World) → Option (Reader × World)
  without_thread none = none
  without_thread (some (inner, w)) = some (record { inner = inner; handle = none }, w)

  -- `stop.store(true, …)`, in the round `last` of the thread if it is still there, and its join.
  unfoldable pub stop_and_join :
      List (Interference World) → Interference World → Reader → World → Option (Reader × World)
  stop_and_join es last self w = elim self.handle [
    | none ↦ some (record self { inner = store_stop true self.inner }, w)
    | some h ↦ without_thread (join h (stopped_in es last) self.inner w)
  ]

  -- `Drop::drop`.
  unfoldable pub drop_reader :
      List (Interference World) → Interference World → Reader → World → Option (Reader × World)
  drop_reader es last self w = stop_and_join es last self w

  -- `self` is dropped when `shutdown` returns.
  unfoldable pub shutdown :
      List (Interference World) → Interference World → Reader → World → Option (Reader × World)
  shutdown es last self w = elim (stop_and_join es last self w) [
    | none ↦ none
    | some (self', w') ↦ drop_reader es last self' w'
  ]
