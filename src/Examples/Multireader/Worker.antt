-- ===== src/Examples/Multireader/Worker.antt =====
-- examples/multireader.rs: nothing is lost on the way to a worker.
use mcanbus.Base.{
  ℕ, ◌+◌, ◌%◌, ◌^◌, ◌<◌, ◌≡◌, refl, sym, ap, ◌∙◌, arith, Bool, true, List, [], ◌∷◌, ◌++◌,
  append_assoc, append-nil, length, length-append,
}
use mcanbus.Base.Results.{Result, ok, err}
use mcanbus.Frame.Data.{Frame}
use mcanbus.Reader.{TrySend, sent, full, disconnected, SubscriberInner, offer}
use mcanbus.Reader.Subscriber.{
  RecvError, Receivers, Subscriber, new_subscriber, ok_of, recv_timeout, received, dropped, pending,
}
use mcanbus.Examples.Multireader.{black_box, work, run_worker}
use mathlib.Core.Path.{subst}

-- Nothing, or the first frame and the others.
abbrev pub Pops : List Frame → Result Frame RecvError → List Frame → Type 0
Pops frames (ok frame) rest = frames ≡ frame ∷ rest
Pops frames (err e) rest = (frames ≡ []) × (rest ≡ [])

-- An unbounded queue whose receiver is there: it takes every frame, gives them out in their order,
-- and fails to give one only if there is none.
pub record IsFifo {W : Type 0} (try_send : ℕ → Frame → W → TrySend × W) (receivers : Receivers W)
    : Type 0 where
  pub content : ℕ → W → List Frame
  pub takes : (queue : ℕ) (frame : Frame) (w : W) → (try_send queue frame w).0 ≡ sent
  pub puts :
      (queue : ℕ) (frame : Frame) (w : W)
      → content queue (try_send queue frame w).1 ≡ content queue w ++ frame ∷ []
  pub gives :
      (queue dur : ℕ) (w : W)
      → Pops
          (content queue w)
          (receivers.rx_recv_timeout queue dur w).0
          (content queue (receivers.rx_recv_timeout queue dur w).1)
  pub counts : (queue : ℕ) (w : W) → receivers.rx_len queue w ≡ length (content queue w)

abbrev pub joined : List (List Frame) → List Frame
joined [] = []
joined (frames ∷ later) = frames ++ joined later

abbrev one_more : SubscriberInner → SubscriberInner
one_more sub = record sub { received = (sub.received + 1) % 2 ^ 64 }

module _ {W : Type 0} (try_send : ℕ → Frame → W → TrySend × W) (receivers : Receivers W)
    (fifo : IsFifo try_send receivers) where
  open receivers use {rx_recv_timeout}
  open fifo use {content, takes, puts, gives, counts}

  offer_sent :
      (sub : SubscriberInner) (frame : Frame) (frames : List Frame) (w : W)
      → offer try_send sub (frame ∷ frames) w
        ≡ offer try_send (one_more sub) frames (try_send sub.tx frame w).1
  unfolding offer
  offer_sent sub frame frames w =
      ap
        (λ (t : TrySend). elim t as (λ o. (SubscriberInner × Bool) × W) [
          | sent ↦
              offer try_send (record sub { received = (sub.received + 1) % 2 ^ 64 }) frames
                (try_send sub.tx frame w).1
          | full ↦
              offer try_send (record sub { dropped = (sub.dropped + 1) % 2 ^ 64 }) frames
                (try_send sub.tx frame w).1
          | disconnected ↦ ((sub, true), (try_send sub.tx frame w).1)
        ])
        (takes sub.tx frame w)

  -- All of a batch is put into the queue, and counted.
  abbrev Offered : SubscriberInner → List Frame → List Frame → (SubscriberInner × Bool) × W → Type 0
  Offered sub before frames ((sub', gone), w') =
      (sub'.received ≡ (sub.received + length frames) % 2 ^ 64)
      × (sub'.dropped ≡ sub.dropped)
      × (sub'.tx ≡ sub.tx)
      × (content sub.tx w' ≡ before ++ frames)

  offer-Offered :
      (sub : SubscriberInner) (frames : List Frame) (w : W)
      → sub.received < 2 ^ 64
      → Offered sub (content sub.tx w) frames (offer try_send sub frames w)
  unfolding offer
  offer-Offered sub [] w fits = (omega arith, refl, refl, sym (append-nil (content sub.tx w)))
  offer-Offered sub (frame ∷ frames) w fits =
      subst (Offered sub (content sub.tx w) (frame ∷ frames)) (sym (offer_sent sub frame frames w))
        (counted (offer try_send (one_more sub) frames (try_send sub.tx frame w).1)
          (offer-Offered (one_more sub) frames (try_send sub.tx frame w).1 (omega arith)))
    where
      counted :
          (r : (SubscriberInner × Bool) × W)
          → Offered (one_more sub) (content sub.tx (try_send sub.tx frame w).1) frames r
          → Offered sub (content sub.tx w) (frame ∷ frames) r
      counted r (more, lost, tx, held) = (
        omega (arith, more),
        lost,
        tx,
        held
            ∙ (ap (λ (l : List Frame). l ++ frames) (puts sub.tx frame w)
                ∙ append_assoc (content sub.tx w) (frame ∷ []) frames),
      )

  -- What is taken and what is in the queue are all frames so far, and these are counted.
  abbrev Whole : List Frame → (Subscriber × List Frame) × W → Type 0
  Whole so_far ((sub, taken), w) =
      (taken ++ content sub.inner.tx w ≡ so_far)
      × (sub.inner.received ≡ length so_far % 2 ^ 64)
      × (sub.inner.dropped ≡ 0)
      × (sub.rx ≡ sub.inner.tx)

  recv_timeout-Whole :
      (sub : Subscriber) (so_far taken : List Frame) (w : W)
      → Whole so_far ((sub, taken), w)
      → let (frame, w') = recv_timeout receivers sub 200 w in
        Whole so_far ((sub, black_box frame taken), w')
  unfolding recv_timeout
  recv_timeout-Whole sub so_far taken w (all, counted, lost, same) =
      given (rx_recv_timeout sub.rx 200 w) (
        subst
          (λ (queue : ℕ).
            Pops (content queue w) (rx_recv_timeout sub.rx 200 w).0
              (content queue (rx_recv_timeout sub.rx 200 w).1))
          same (gives sub.rx 200 w))
    where
      given :
          (r : Result Frame RecvError × W)
          → Pops (content sub.inner.tx w) r.0 (content sub.inner.tx r.1)
          → Whole so_far ((sub, black_box (ok_of r).0 taken), (ok_of r).1)
      given (ok frame, w') pops = (
        append_assoc taken (frame ∷ []) (content sub.inner.tx w')
            ∙ (ap (λ (l : List Frame). taken ++ l) (sym pops) ∙ all),
        counted,
        lost,
        same,
      )
      given (err e, w') (before, after) =
          (ap (λ (l : List Frame). taken ++ l) (after ∙ sym before) ∙ all, counted, lost, same)

  work-Whole :
      (schedule : List (List Frame)) (sub : Subscriber) (so_far taken : List Frame) (w : W)
      → Whole so_far ((sub, taken), w)
      → Whole (so_far ++ joined schedule) (work try_send receivers schedule sub taken w)
  unfolding work
  work-Whole [] sub so_far taken w h =
      subst (λ (l : List Frame). Whole l ((sub, taken), w)) (sym (append-nil so_far)) h
  work-Whole (offered ∷ later) sub so_far taken w (all, counted, lost, same) =
      let r = offer try_send sub.inner offered w in
      let sub' : Subscriber = record sub { inner = r.0.0 } in
      let got = recv_timeout receivers sub' 200 r.1 in
      subst
        (λ (l : List Frame).
          Whole l (work try_send receivers later sub' (black_box got.0 taken) got.1))
        (append_assoc so_far offered (joined later))
        (work-Whole later sub' (so_far ++ offered) (black_box got.0 taken) got.1 (
          recv_timeout-Whole sub' (so_far ++ offered) taken r.1
            (batch r (offer-Offered sub.inner offered w (omega (arith, counted))))))
    where
      batch :
          (r : (SubscriberInner × Bool) × W)
          → Offered sub.inner (content sub.inner.tx w) offered r
          → Whole (so_far ++ offered) ((record sub { inner = r.0.0 }, taken), r.1)
      batch r (more, kept, tx, held) = (
        ap (λ (queue : ℕ). taken ++ content queue r.1) tx
            ∙ (ap (λ (l : List Frame). taken ++ l) held
                ∙ (sym (append_assoc taken (content sub.inner.tx w) offered)
                    ∙ ap (λ (l : List Frame). l ++ offered) all)),
        omega (arith, more, counted, length-append so_far offered),
        kept ∙ lost,
        same ∙ sym tx,
      )

  -- Over an unbounded queue that is empty at first, nothing is lost on the way to a worker, in
  -- whatever portions the thread of the reader offers the frames: what the worker has taken and
  -- what is still in its queue are the frames that were offered, in their order, and the report
  -- counts them all as received, none as dropped, and those in the queue as pending.
  pub run_worker-joined :
      (i address queue : ℕ) (schedule : List (List Frame)) (w : W)
      → content queue w ≡ []
      → let ((report, taken), w') =
          run_worker try_send receivers i schedule (new_subscriber address queue) w in
        (left : List Frame) × (taken ++ left ≡ joined schedule)
        × (report.received ≡ length (joined schedule) % 2 ^ 64)
        × (report.dropped ≡ 0)
        × (report.pending ≡ length left)
  unfolding run_worker new_subscriber received dropped pending
  run_worker-joined i address queue schedule w none_yet =
      let sub = new_subscriber address queue in
      let r = work try_send receivers schedule sub [] w in
      let h = work-Whole schedule sub [] [] w (none_yet, refl, refl, refl) in
      (
        content r.0.0.inner.tx r.1,
        h.0,
        h.1,
        h.2,
        counts r.0.0.rx r.1 ∙ ap (λ (n : ℕ). length (content n r.1)) h.3,
      )
