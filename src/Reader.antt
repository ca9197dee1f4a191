-- ===== src/Reader.antt =====
-- mcanbus/src/reader.rs: the registry of subscribers and one round of the reader thread. The queues
-- of crossbeam_channel are a parameter; the address of an `Arc` is a number.
pub mod Laws
pub mod Broadcast
pub mod Loop
pub mod Kept
pub mod Subscriber
pub mod Lifetime
use mcanbus.Base.{
  ℕ, ◌+◌, ◌%◌, ◌^◌, min, max, Bool, true, false, not, Option, none, some, List, [], ◌∷◌, ◌++◌, ◌==◌,
  if◌then◌else◌, length, take, drop, replicate,
}
use mcanbus.Base.Results.{Result, ok, err}
use mcanbus.Frame.Data.{Frame, zeroed}
use mcanbus.Io.{Io, IoError}
use mcanbus.Socket.Kernel.{Kernel}
use mcanbus.Socket.Transfer.{Socket, recv_batch}

-- What `try_send` answers: `Ok`, `Full` or `Disconnected`.
pub data TrySend : Type 0 where
  sent full disconnected : TrySend

pub record SubscriberInner : Type 0 where
  pub address : ℕ
  pub tx : ℕ
  pub received : ℕ
  pub dropped : ℕ

pub record ReaderInner : Type 0 where
  pub subscribers : List SubscriberInner
  pub stop : Bool
  pub kernel_drops : ℕ

pub record ReaderConfig : Type 0 where
  pub batch_size : ℕ

abbrev pub default_reader_config : ReaderConfig
default_reader_config = record { batch_size = 64 }

abbrev pub new_inner : ReaderInner
new_inner = record { subscribers = []; stop = false; kernel_drops = 0 }

-- `config.batch_size.clamp(1, 64)`.
abbrev pub batch_of : ReaderConfig → ℕ
batch_of config = min (max config.batch_size 1) 64

-- What `subscribe` and `subscribe_bounded` do to the registry, for a new queue with the sender `tx`.
unfoldable pub subscribe : ℕ → ℕ → ReaderInner → ReaderInner
subscribe address tx inner = record inner {
  subscribers =
      inner.subscribers ++ record { address = address; tx = tx; received = 0; dropped = 0 } ∷ [];
}

unfoldable pub subscriber_count : ReaderInner → ℕ
subscriber_count inner = length inner.subscribers

-- `dead.contains(…)`.
unfoldable pub contains : List ℕ → ℕ → Bool
contains [] a = false
contains (d ∷ dead) a = if d == a then true else contains dead a

-- `subs.retain(|s| !dead.contains(&Arc::as_ptr(s)))`.
unfoldable pub retain : List ℕ → List SubscriberInner → List SubscriberInner
retain dead [] = []
retain dead (s ∷ subs) =
    let kept = retain dead subs in if contains dead s.address then kept else s ∷ kept

module _ {W : Type 0} (try_send : ℕ → Frame → W → TrySend × W) where
  -- The inner loop, over the frames, up to a `break`: the counters, and whether the receiver is gone.
  unfoldable pub offer : SubscriberInner → List Frame → W → (SubscriberInner × Bool) × W
  offer sub [] w = ((sub, false), w)
  offer sub (frame ∷ frames) w = elim (try_send sub.tx frame w).0 [
    | sent ↦
        offer (record sub { received = (sub.received + 1) % 2 ^ 64 }) frames
          (try_send sub.tx frame w).1
    | full ↦
        offer (record sub { dropped = (sub.dropped + 1) % 2 ^ 64 }) frames
          (try_send sub.tx frame w).1
    | disconnected ↦ ((sub, true), (try_send sub.tx frame w).1)
  ]

  -- The outer loop, over the snapshot: the subscribers with their counters, and the dead ones.
  unfoldable pub fan_out :
      List SubscriberInner → List Frame → W → (List SubscriberInner × List ℕ) × W
  fan_out [] frames w = (([], []), w)
  fan_out (sub ∷ subs) frames w =
      let ((sub', gone), w₁) = offer sub frames w in
      let ((subs', dead), w₂) = fan_out subs frames w₁ in
      ((sub' ∷ subs', if gone then sub.address ∷ dead else dead), w₂)

  -- The rest of a round after `n > 0` frames. Others may subscribe while the lock is free: `joined`.
  unfoldable pub distribute : List Frame → List SubscriberInner → ReaderInner → W → ReaderInner × W
  distribute frames joined inner w =
      let ((subs, dead), w₁) = fan_out inner.subscribers frames w in
      (record inner { subscribers = retain dead (subs ++ joined) }, w₁)

-- One round of `run_reader`: the slots of `buf` that are given to `recv_batch`, the others, and what
-- is done with the frames. An error is waited out for 20 milliseconds.
module _ (k : Kernel) (try_send : ℕ → Frame → k.World → TrySend × k.World) (socket : Socket) where
  open k use {World, sleep}

  unfoldable pub after_batch :
      ℕ
      → List Frame
      → List SubscriberInner
      → ReaderInner
      → Result (ℕ × List Frame) IoError × World
      → (List Frame × ReaderInner) × World
  after_batch active buf joined inner (ok (n, out), w) =
      let buf' = out ++ drop active buf in
      let (inner', w₁) = distribute try_send (take n buf') joined inner w in
      if n == 0 then ((buf', inner), w) else ((buf', inner'), w₁)
  after_batch active buf joined inner (err e, w) = ((buf, inner), sleep 20 w)

  unfoldable pub reader_round :
      ℕ
      → List Frame
      → List SubscriberInner
      → ReaderInner
      → World
      → (List Frame × ReaderInner) × World
  unfolding after_batch
  reader_round batch_size buf joined inner w =
      let active = min batch_size (length buf) in
      after_batch active buf joined inner (recv_batch k socket (take active buf) w)

  abbrev pub first_buf : List Frame
  first_buf = replicate 64 zeroed
