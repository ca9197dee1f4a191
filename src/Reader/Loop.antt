-- ===== src/Reader/Loop.antt =====
-- mcanbus/src/reader.rs, `run_reader`: the thread of the reader, round by round, with what other
-- threads do to the shared state. That is a schedule, one entry for each round.
use mcanbus.Base.{
  min, length, ◌!=◌, ◌&&◌, ℕ, ◌≡◌, refl, ap, ◌∙◌, Bool, true, false, List, [], ◌∷◌, ◌++◌,
  if◌then◌else◌,
}
use mcanbus.Frame.Data.{Frame}
use mcanbus.Reader.{TrySend, SubscriberInner, ReaderInner, reader_round}
use mcanbus.Socket.Kernel.{Kernel}
use mcanbus.Socket.Transfer.{Socket}

-- What others do to the world before the round, such as taking frames out of their queues, who
-- subscribes while the thread waits for frames, who while it hands them out, and whether
-- `shutdown` or `Drop` sets the flag before the round is over.
pub record Interference (W : Type 0) : Type 0 where
  pub others : W → W
  pub waiting : List SubscriberInner
  pub joined : List SubscriberInner
  pub stop : Bool

-- `subscribers.lock().unwrap().push(…)`, and `stop.store(true, …)`.
abbrev pub push_all : List SubscriberInner → ReaderInner → ReaderInner
push_all subs inner = record inner { subscribers = inner.subscribers ++ subs }

abbrev pub store_stop : Bool → ReaderInner → ReaderInner
store_stop stop inner = record inner { stop = if stop then true else inner.stop }

-- Receive calls on a socket come back, as they do with a receive timeout.
abbrev pub ComesBack : Kernel → Socket → Type 0
ComesBack k socket = (w : k.World) → k.recv_blocks socket.fd w ≡ false

module _ (k : Kernel) (try_send : ℕ → Frame → k.World → TrySend × k.World) (socket : Socket)
    (batch_size : ℕ) where
  open k use {World}

  -- The round asks the kernel for frames, and this call never comes back.
  abbrev pub hangs : List Frame → World → Bool
  hangs buf w = min batch_size (length buf) != 0 && k.recv_blocks socket.fd w

  -- The state at the end of the schedule, and whether the thread has ended. A call that never comes
  -- back leaves the thread where it is for the rest of the schedule.
  unfoldable pub run_reader :
      List (Interference World) → List Frame → ReaderInner → World → (ReaderInner × Bool) × World
  run_reader [] buf inner w = ((inner, inner.stop), w)
  run_reader (e ∷ es) buf inner w =
      let ((buf', inner'), w₁) =
        reader_round k try_send socket batch_size buf e.joined (push_all e.waiting inner)
          (e.others w) in
      let later = run_reader es buf' (store_stop e.stop inner') w₁ in
      let hung : (ReaderInner × Bool) × World =
        ((store_stop e.stop (push_all e.waiting inner), false), e.others w) in
      if inner.stop then ((inner, true), w) else if hangs buf (e.others w) then hung else later

  run_reader_stopped :
      (es : List (Interference World)) (buf : List Frame) (inner : ReaderInner) (w : World)
      → inner.stop ≡ true
      → run_reader es buf inner w ≡ ((inner, true), w)
  unfolding run_reader
  run_reader_stopped [] buf inner w h = rw h refl
  run_reader_stopped (e ∷ es) buf inner w h = rw h refl

  -- The tests of a round after which the thread ends.
  both_ended :
      (stop hang : Bool) (now hung a b : (ReaderInner × Bool) × World)
      → now.0.1 ≡ true
      → hang ≡ false
      → (a.0.1 ≡ true) × (a ≡ b)
      → ((if stop then now else if hang then hung else a).0.1 ≡ true)
        × ((if stop then now else if hang then hung else a)
            ≡ (if stop then now else if hang then hung else b))
  both_ended true hang now hung a b ended back later = (ended, refl)
  both_ended false false now hung a b ended back later = later
  both_ended false true now hung a b ended back later = absurd (cc back)

  hangs_not :
      (buf : List Frame) (w : World) → k.recv_blocks socket.fd w ≡ false → hangs buf w ≡ false
  hangs_not buf w back = rw back (never (min batch_size (length buf) != 0))
    where
      never : (b : Bool) → (b && false) ≡ false
      never true = refl
      never false = refl

  last_stored :
      (stop : Bool) (inner : ReaderInner) (w : World)
      → stop ≡ true
      → ◌≡◌ {A = (ReaderInner × Bool) × World}
          ((store_stop stop inner, true), w)
          ((store_stop stop inner, (store_stop stop inner).stop), w)
  last_stored true inner w h = refl
  last_stored false inner w h = absurd (cc h)

  -- When the receive calls on its socket come back, the thread ends with the round in which the flag
  -- is set, whichever it is and whatever the kernel answers: it has ended at the end of the schedule, and nothing is done in the rounds that
  -- the schedule has behind it.
  pub run_reader-stop :
      (es : List (Interference World)) (last : Interference World)
      (more : List (Interference World)) (buf : List Frame) (inner : ReaderInner) (w : World)
      → last.stop ≡ true
      → ComesBack k socket
      → ((run_reader (es ++ last ∷ more) buf inner w).0.1 ≡ true)
        × (run_reader (es ++ last ∷ more) buf inner w ≡ run_reader (es ++ last ∷ []) buf inner w)
  unfolding run_reader
  run_reader-stop [] last more buf inner w h back =
      let r =
        reader_round k try_send socket batch_size buf last.joined (push_all last.waiting inner)
          (last.others w) in
      let ended = run_reader_stopped more r.0.0 (store_stop last.stop r.0.1) r.1 (rw h refl) in
      both_ended inner.stop _ _ _ _ _ refl (hangs_not buf (last.others w) (back (last.others w))) (
        ap (λ (o : (ReaderInner × Bool) × World). o.0.1) ended,
        ended ∙ last_stored last.stop r.0.1 r.1 h,
      )
  run_reader-stop (e ∷ es) last more buf inner w h back =
      let r =
        reader_round k try_send socket batch_size buf e.joined (push_all e.waiting inner)
          (e.others w) in
      both_ended inner.stop _ _ _ _ _ refl (hangs_not buf (e.others w) (back (e.others w)))
        (run_reader-stop es last more r.0.0 (store_stop e.stop r.0.1) r.1 h back)
