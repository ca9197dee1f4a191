-- ===== src/Reader/Subscriber.antt =====
-- mcanbus/src/reader.rs, `Subscriber`: the consumer's side. The receivers of crossbeam_channel are a
-- parameter; a queue has one number for its sender and its receiver.
use mcanbus.Base.{ℕ, Option, none, some}
use mcanbus.Base.Results.{Result, ok, err}
use mcanbus.Frame.Data.{Frame}
use mcanbus.Reader.{SubscriberInner}

-- `RecvError`, `RecvTimeoutError` and `TryRecvError`.
pub data RecvError : Type 0 where
  disconnected timed_out empty : RecvError

-- A timeout is in milliseconds.
pub record Receivers (W : Type 0) : Type 0 where
  pub rx_recv : ℕ → W → Result Frame RecvError × W
  pub rx_recv_timeout : ℕ → ℕ → W → Result Frame RecvError × W
  pub rx_try_recv : ℕ → W → Result Frame RecvError × W
  pub rx_len : ℕ → W → ℕ

-- `inner` are the counters, which are shared with the reader, as they stand.
pub record Subscriber : Type 0 where
  pub rx : ℕ
  pub inner : SubscriberInner

-- `.ok()`.
abbrev pub ok_of : {W : Type 0} → Result Frame RecvError × W → Option Frame × W
ok_of (ok frame, w) = (some frame, w)
ok_of (err e, w) = (none, w)

-- What `subscribe` and `subscribe_bounded` return for a new queue.
unfoldable pub new_subscriber : ℕ → ℕ → Subscriber
new_subscriber address queue = record {
  rx = queue;
  inner = record { address = address; tx = queue; received = 0; dropped = 0 };
}

unfoldable pub received : Subscriber → ℕ
received self = self.inner.received

unfoldable pub dropped : Subscriber → ℕ
dropped self = self.inner.dropped

module _ {W : Type 0} (receivers : Receivers W) where
  open receivers use {rx_recv, rx_recv_timeout, rx_try_recv, rx_len}

  unfoldable pub recv : Subscriber → W → Option Frame × W
  recv self w = ok_of (rx_recv self.rx w)

  unfoldable pub recv_timeout : Subscriber → ℕ → W → Option Frame × W
  recv_timeout self dur w = ok_of (rx_recv_timeout self.rx dur w)

  unfoldable pub try_recv : Subscriber → W → Option Frame × W
  try_recv self w = ok_of (rx_try_recv self.rx w)

  unfoldable pub pending : Subscriber → W → ℕ
  pending self w = rx_len self.rx w
