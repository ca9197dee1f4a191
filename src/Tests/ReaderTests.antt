-- ===== src/Tests/ReaderTests.antt =====
-- mcanbus/src/reader.rs with queues that hold a number of frames each, and with unbounded ones.
use mcanbus.Base.{
  replicate, ap, ℕ, zero, suc, ◌+◌, ◌≡◌, refl, ◌⊎◌, false, true, none, some, List, [], ◌∷◌, ◌++◌,
  map, All, arith, ◌==◌, if◌then◌else◌, ==_iff, ≢→==,
}
use mcanbus.Frame.Data.{Frame, zeroed}
use mcanbus.Reader.{
  TrySend, sent, full, SubscriberInner, ReaderInner, offer, fan_out, distribute, contains,
}
use mcanbus.Reader.Broadcast.{IsQueue, Distinct}
use mcanbus.Reader.Broadcast.Run.{heard, Elsewhere, run_reader-heard}
use mcanbus.Reader.Broadcast.Served.{fed_by}
use mcanbus.Reader.Broadcast.Order.{Took, fan_out-Took, distribute-Whole}
use mcanbus.Reader.Laws.{offer-length}
use mcanbus.Reader.Lifetime
use mcanbus.Reader.Lifetime.{Reader, with_config, drop_reader}
use mcanbus.Reader.Lifetime.Kept.{ReaderLedger}
use mcanbus.Reader.Lifetime.Shutdown.{shutdown-drop_reader}
use mcanbus.Reader.Kept.{ReadsKeep}
use mcanbus.Reader.Loop.{Interference, run_reader}
use mcanbus.Socket.Kernel.{Message}
use mcanbus.Socket.Transfer.{Socket}
use mcanbus.Tests.Host.{Host, host, host-Ledger}

-- The world is the room that is left in the one queue.
abbrev bounded : ℕ → Frame → ℕ → TrySend × ℕ
bounded tx frame zero = (full, 0)
bounded tx frame (suc room) = (sent, room)

abbrev logger : SubscriberInner
logger = record { address = 100; tx = 1; received = 0; dropped = 0 }

abbrev analyser : SubscriberInner
analyser = record { address = 200; tx = 2; received = 0; dropped = 0 }

abbrev batch : List Frame
batch = zeroed ∷ zeroed ∷ zeroed ∷ []

-- Two frames are received and one is dropped.
offers : (offer bounded logger batch 2).0 ≡ (record logger { received = 2; dropped = 1 }, false)
unfolding offer
offers = refl

offer-length_example :
    let after = (offer bounded logger batch 2).0.0 in
    (after.received + after.dropped ≡ 3) × (after.address ≡ 100) × (after.tx ≡ 1)
unfolding offer
offer-length_example = offer-length bounded logger batch 2 (omega arith) refl

abbrev registry : ReaderInner
registry = record { subscribers = logger ∷ []; stop = false; kernel_drops = 0 }

-- A world of logs, one for each queue; no queue is ever full.
abbrev Logs : Type 0
Logs = ℕ → List Frame

abbrev unbounded : ℕ → Frame → Logs → TrySend × Logs
unbounded tx frame logs = (sent, λ tx'. if tx == tx' then logs tx' ++ frame ∷ [] else logs tx')

abbrev unbounded-IsQueue : IsQueue unbounded
unbounded-IsQueue = record {
  log = λ tx logs. logs tx;
  logged = λ tx frame logs. rw ((==_iff tx tx).1 refl) refl;
  other_logs = λ tx tx' frame logs other. rw (≢→== tx tx' other) refl;
}

abbrev empty : Logs
empty tx = []

abbrev both : ReaderInner
both = record { subscribers = logger ∷ analyser ∷ []; stop = false; kernel_drops = 0 }

both-Distinct : Distinct both.subscribers
unfolding contains
both-Distinct = (refl, (refl, tt))

fan_out-Took_example :
    All
      (λ s. Took batch [] ((fan_out unbounded both.subscribers batch empty).1 s.tx))
      both.subscribers
fan_out-Took_example =
    fan_out-Took unbounded unbounded-IsQueue batch both.subscribers empty both-Distinct

distribute-Whole_example :
    let after = distribute unbounded batch [] both empty in
    All
      (λ s.
        (contains (map (λ t. t.address) after.0.subscribers) s.address ≡ false)
        ⊎ (after.1 s.tx ≡ batch))
      both.subscribers
distribute-Whole_example =
    distribute-Whole unbounded unbounded-IsQueue (λ tx frame logs same. cc same) batch [] both empty
      both-Distinct

abbrev quiet : ℕ → Frame → Host → TrySend × Host
quiet tx frame h = (sent, h)

abbrev nothing : Interference Host
nothing = record { others = λ h. h; waiting = []; joined = []; stop = false }

abbrev shutdown : Interference Host
shutdown = record { others = λ h. h; waiting = []; joined = []; stop = true }

abbrev idle : Host
idle = record { open_fds = []; inbox = []; outbox = []; clock = 0; queues = λ tx. [] }

abbrev opened : Host
opened = record idle { open_fds = 3 ∷ 7 ∷ [] }

abbrev can0 : Socket
can0 = record { fd = 3; fd_rx_enabled = true }

quiet-ReaderLedger : ReaderLedger host host-Ledger quiet
quiet-ReaderLedger = record {
  reads = record {
    recvmmsg_keeps = λ fd count size h. refl;
    system_time_keeps = λ h. refl;
    sleep_keeps = λ ms h. refl;
  };
  try_send_keeps = λ tx frame h. refl;
}

shutdown-drop_reader_example :
    let reader = with_config can0 (record { batch_size = 0 }) in
    (self : Reader) × (h : Host) × (drop_reader host quiet (nothing ∷ []) nothing reader opened
      ≡ some (self, h))
    × (Lifetime.shutdown host quiet (nothing ∷ []) nothing reader opened ≡ some (self, h))
    × (self.handle ≡ none)
    × (self.inner.stop ≡ true)
    × (h.open_fds ≡ 7 ∷ [])
shutdown-drop_reader_example =
    shutdown-drop_reader host host-Ledger quiet quiet-ReaderLedger can0 (record { batch_size = 0 })
      (7 ∷ []) (nothing ∷ []) nothing opened ((λ h. refl), tt) (λ h. refl) refl (λ h. refl)

-- The queues of a host, which take every frame.
abbrev keep_all : ℕ → Frame → Host → TrySend × Host
keep_all tx frame h = (sent, record h { queues = (unbounded tx frame h.queues).1 })

abbrev keep_all-IsQueue : IsQueue keep_all
keep_all-IsQueue = record {
  log = λ tx h. h.queues tx;
  logged = λ tx frame h. rw ((==_iff tx tx).1 refl) refl;
  other_logs = λ tx tx' frame h other. rw (≢→== tx tx' other) refl;
}

abbrev message : Message
message = record { bytes = replicate 16 0; control = [] }

abbrev two_messages : Host
two_messages = record idle { inbox = message ∷ message ∷ [] }

one_analyser : fed_by 2 both.subscribers ≡ 1
unfolding fed_by
one_analyser = refl

keep_all-ReadsKeep : (tx : ℕ) → ReadsKeep host (keep_all-IsQueue.log tx)
keep_all-ReadsKeep tx = record {
  recvmmsg_keeps = λ fd count size h. refl;
  system_time_keeps = λ h. refl;
  sleep_keeps = λ ms h. refl;
}

nobody :
    (e : Interference Host)
    → e.others ≡ (λ h. h)
    → e.waiting ≡ []
    → e.joined ≡ []
    → Elsewhere host keep_all can0 64 keep_all-IsQueue
        (λ tx frame h. refl)
        2
        (keep_all-ReadsKeep 2)
        e
unfolding fed_by
nobody e same no_waiting no_joined =
    (λ h. ap (λ (f : Host → Host). (f h).queues 2) same, rw no_waiting refl, rw no_joined refl)

run_reader-heard_example :
    let es = nothing ∷ shutdown ∷ [] in
    let after = run_reader host keep_all can0 64 es batch both two_messages in
    (fed_by 2 after.0.0.subscribers ≡ 1)
    × (after.1.queues 2 ≡ [] ++ heard host keep_all can0 64 es batch both two_messages)
run_reader-heard_example =
    run_reader-heard host keep_all can0 64 keep_all-IsQueue (λ tx frame h. refl) 2
      (keep_all-ReadsKeep 2) (nothing ∷ shutdown ∷ []) batch both two_messages one_analyser
      (nobody nothing refl refl refl, (nobody shutdown refl refl refl, tt))
