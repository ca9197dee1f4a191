-- ===== src/Reader/Broadcast/Served.antt =====
-- mcanbus/src/reader.rs: a batch handed out to queues that take every frame.
use mathlib.Core.Path.{subst}
use mcanbus.Base.{
  ℕ, zero, suc, ◌+◌, ◌%◌, ◌^◌, ◌≡◌, refl, sym, ap, ◌∙◌, arith, ◌==◌, ==_iff, Bool-cases, inl, inr,
  Bool, true, false, List, [], ◌∷◌, ◌++◌, append_assoc, append-nil, if◌then◌else◌,
}
use mcanbus.Frame.Data.{Frame}
use mcanbus.Reader.{
  TrySend, sent, full, disconnected, SubscriberInner, ReaderInner, offer, fan_out, distribute,
  retain, contains,
}
use mcanbus.Reader.Broadcast.{IsQueue, appended, offer-others}

-- How many subscribers are fed by the queue `tx`.
unfoldable pub fed_by : ℕ → List SubscriberInner → ℕ
fed_by tx [] = 0
fed_by tx (s ∷ subs) = let more = fed_by tx subs in if s.tx == tx then suc more else more

pub fed_by-append :
    (tx : ℕ) (subs more : List SubscriberInner)
    → fed_by tx (subs ++ more) ≡ fed_by tx subs + fed_by tx more
unfolding fed_by
fed_by-append tx [] more = omega arith
fed_by-append tx (s ∷ subs) more = ground (arith, fed_by-append tx subs more)

-- A list, so many times.
abbrev pub times : ℕ → List Frame → List Frame
times zero frames = []
times (suc n) frames = frames ++ times n frames

times-nil : (n : ℕ) → times n [] ≡ []
times-nil zero = refl
times-nil (suc n) = times-nil n

retain_all : (subs : List SubscriberInner) → retain [] subs ≡ subs
unfolding retain contains
retain_all [] = refl
retain_all (s ∷ subs) = ap (λ (l : List SubscriberInner). s ∷ l) (retain_all subs)

module _ {W : Type 0} (try_send : ℕ → Frame → W → TrySend × W) (queue : IsQueue try_send)
    (takes : (tx : ℕ) (frame : Frame) (w : W) → (try_send tx frame w).0 ≡ sent) (tx : ℕ) where
  open queue use {log, logged}

  -- Another counter, and the frames behind what the queue has been given.
  abbrev Fed : SubscriberInner → List Frame → List Frame → (SubscriberInner × Bool) × W → Type 0
  Fed sub frames before ((sub', gone), w') =
      (gone ≡ false) × (sub'.tx ≡ sub.tx) × (log sub.tx w' ≡ before ++ frames)

  offer-Fed :
      (sub : SubscriberInner) (frames : List Frame) (w : W)
      → Fed sub frames (log sub.tx w) (offer try_send sub frames w)
  unfolding offer
  offer-Fed sub [] w = (refl, refl, sym (append-nil (log sub.tx w)))
  offer-Fed sub (frame ∷ frames) w =
      answered (try_send sub.tx frame w).0 (takes sub.tx frame w) (logged sub.tx frame w)
        (λ sub' w₁. offer-Fed sub' frames w₁)
    where
      answered :
          (t : TrySend)
          → t ≡ sent
          → log sub.tx (try_send sub.tx frame w).1 ≡ appended t (log sub.tx w) frame
          → ((sub' : SubscriberInner) (w₁ : W)
              → Fed sub' frames (log sub'.tx w₁) (offer try_send sub' frames w₁))
          → Fed sub (frame ∷ frames) (log sub.tx w) (elim t as (λ o. (SubscriberInner × Bool) × W) [
            | sent ↦
                offer try_send
                  (record sub { received = (sub.received + 1) % 2 ^ 64 })
                  frames
                  (try_send sub.tx frame w).1
            | full ↦
                offer try_send
                  (record sub { dropped = (sub.dropped + 1) % 2 ^ 64 })
                  frames
                  (try_send sub.tx frame w).1
            | disconnected ↦ ((sub, true), (try_send sub.tx frame w).1)
          ])
      answered sent same grown later =
          let h =
            later (record sub { received = (sub.received + 1) % 2 ^ 64 })
              (try_send sub.tx frame w).1 in
          (
            h.0,
            h.1,
            h.2
                ∙ ap (λ (l : List Frame). l ++ frames) grown
                ∙ append_assoc (log sub.tx w) (frame ∷ []) frames,
          )
      answered full same grown later = absurd (cc same)
      answered disconnected same grown later = absurd (cc same)

  -- Nobody is dead, the same queues feed, and this one has been given the frames for each of its
  -- subscribers.
  abbrev Served :
      List SubscriberInner → List Frame → List Frame → (List SubscriberInner × List ℕ) × W → Type 0
  Served subs frames before ((subs', dead), w') =
      (dead ≡ [])
      × (fed_by tx subs' ≡ fed_by tx subs)
      × (log tx w' ≡ before ++ times (fed_by tx subs) frames)

  fan_out-Served :
      (subs : List SubscriberInner) (frames : List Frame) (w : W)
      → Served subs frames (log tx w) (fan_out try_send subs frames w)
  unfolding fan_out fed_by
  fan_out-Served [] frames w = (refl, refl, sym (append-nil (log tx w)))
  fan_out-Served (sub ∷ subs) frames w =
      let r = offer try_send sub frames w in
      let h = offer-Fed sub frames w in
      let later = fan_out-Served subs frames r.1 in
      (
        rw h.0 later.0,
        rw h.1 (ap (λ (n : ℕ). if sub.tx == tx then suc n else n) later.1),
        elim (Bool-cases (sub.tx == tx)) [
          | inl mine ↦ rw mine (
              later.2
              ∙ (ap (λ (l : List Frame). l ++ times (fed_by tx subs) frames)
                    (subst (λ (q : ℕ). log q r.1 ≡ log q w ++ frames) ((==_iff sub.tx tx).0 mine)
                      h.2)
                  ∙ append_assoc (log tx w) frames (times (fed_by tx subs) frames)))
          | inr other ↦ rw other (
              later.2
              ∙ ap (λ (l : List Frame). l ++ times (fed_by tx subs) frames)
                  (offer-others try_send queue sub frames tx w
                    (λ same. absurd (cc (other, (==_iff sub.tx tx).1 same)))))
        ],
      )

  pub distribute-Served :
      (frames : List Frame) (joined : List SubscriberInner) (inner : ReaderInner) (w : W)
      → let after = distribute try_send frames joined inner w in
        (fed_by tx after.0.subscribers ≡ fed_by tx inner.subscribers + fed_by tx joined)
        × (log tx after.1 ≡ log tx w ++ times (fed_by tx inner.subscribers) frames)
  unfolding distribute
  distribute-Served frames joined inner w =
      let r = fan_out try_send inner.subscribers frames w in
      let h = fan_out-Served inner.subscribers frames w in
      (
        rw (h.0, retain_all (r.0.0 ++ joined), fed_by-append tx r.0.0 joined)
            (ap (λ (n : ℕ). n + fed_by tx joined) h.1),
        h.2,
      )
