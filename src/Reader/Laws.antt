-- ===== src/Reader/Laws.antt =====
-- mcanbus/src/reader.rs: the counters of a subscriber and the culling of the dead.
use mcanbus.Base.{
  ℕ, ◌+◌, ◌%◌, ◌^◌, ◌<◌, ◌≡◌, refl, ap, ◌∙◌, arith, Bool, true, false, List, [], ◌∷◌, ◌++◌, length,
  map, All,
}
use mcanbus.Frame.Data.{Frame}
use mcanbus.Reader.{
  TrySend, sent, full, disconnected, SubscriberInner, ReaderInner, offer, fan_out, distribute,
  retain, contains,
}

retain-append :
    (dead : List ℕ) (subs more : List SubscriberInner)
    → retain dead (subs ++ more) ≡ retain dead subs ++ retain dead more
unfolding retain
retain-append dead [] more = refl
retain-append dead (s ∷ subs) more = ground (arith, retain-append dead subs more)

retain-All :
    (dead : List ℕ) (subs : List SubscriberInner)
    → All (λ s. contains dead s.address ≡ false) subs
    → retain dead subs ≡ subs
unfolding retain
retain-All dead [] fresh = refl
retain-All dead (s ∷ subs) (new, fresh) = rw (new, retain-All dead subs fresh) refl

module _ {W : Type 0} (try_send : ℕ → Frame → W → TrySend × W) where
  -- What becomes of `n` frames that a live subscriber is offered.
  abbrev Counted : SubscriberInner → ℕ → (SubscriberInner × Bool) × W → Type 0
  Counted sub n r =
      r.0.1 ≡ false
      → (r.0.0.received + r.0.0.dropped ≡ sub.received + sub.dropped + n)
        × (r.0.0.address ≡ sub.address)
        × (r.0.0.tx ≡ sub.tx)

  offer-Counted :
      (sub : SubscriberInner) (frames : List Frame) (w : W)
      → sub.received + sub.dropped + length frames < 2 ^ 64
      → Counted sub (length frames) (offer try_send sub frames w)
  unfolding offer
  offer-Counted sub [] w fits = λ alive. (omega arith, refl, refl)
  offer-Counted sub (frame ∷ frames) w fits =
      let taken = record sub { received = (sub.received + 1) % 2 ^ 64 } in
      let lost = record sub { dropped = (sub.dropped + 1) % 2 ^ 64 } in
      answered (try_send sub.tx frame w).0 (try_send sub.tx frame w).1
        (λ w₁. offer-Counted taken frames w₁ (omega arith))
        (λ w₁. offer-Counted lost frames w₁ (omega arith))
    where
      answered :
          (t : TrySend) (w₁ : W)
          → ((w₂ : W)
              → Counted
                  (record sub { received = (sub.received + 1) % 2 ^ 64 })
                  (length frames)
                  (offer try_send
                    (record sub { received = (sub.received + 1) % 2 ^ 64 })
                    frames
                    w₂))
          → ((w₂ : W)
              → Counted
                  (record sub { dropped = (sub.dropped + 1) % 2 ^ 64 })
                  (length frames)
                  (offer try_send (record sub { dropped = (sub.dropped + 1) % 2 ^ 64 }) frames w₂))
          → Counted sub (length (frame ∷ frames)) (elim t as (λ o. (SubscriberInner × Bool) × W) [
            | sent ↦
                offer try_send (record sub { received = (sub.received + 1) % 2 ^ 64 }) frames w₁
            | full ↦ offer try_send (record sub { dropped = (sub.dropped + 1) % 2 ^ 64 }) frames w₁
            | disconnected ↦ ((sub, true), w₁)
          ])
      answered sent w₁ taken lost alive =
          let counts = taken w₁ alive in (omega (arith, counts.0), counts.1, counts.2)
      answered full w₁ taken lost alive =
          let counts = lost w₁ alive in (omega (arith, counts.0), counts.1, counts.2)
      answered disconnected w₁ taken lost alive = cc alive

  -- A subscriber whose receiver is there for a whole batch keeps its queue, and each frame of the
  -- batch is counted once for it, as received or as dropped, as long as the counters stay below 2 ^ 64.
  pub offer-length :
      (sub : SubscriberInner) (frames : List Frame) (w : W)
      → sub.received + sub.dropped + length frames < 2 ^ 64
      → (offer try_send sub frames w).0.1 ≡ false
      → let after = (offer try_send sub frames w).0.0 in
        (after.received + after.dropped ≡ sub.received + sub.dropped + length frames)
        × (after.address ≡ sub.address)
        × (after.tx ≡ sub.tx)
  offer-length sub frames w fits alive = offer-Counted sub frames w fits alive

  -- The dead are among those that were offered the frames.
  contains-fan_out :
      (a : ℕ) (subs : List SubscriberInner) (frames : List Frame) (w : W)
      → contains (map (λ s. s.address) subs) a ≡ false
      → contains (fan_out try_send subs frames w).0.1 a ≡ false
  unfolding fan_out contains
  contains-fan_out a [] frames w new = refl
  contains-fan_out a (sub ∷ subs) frames w new =
      let w₁ = (offer try_send sub frames w).1 in
      ground (arith, new, contains-fan_out a subs frames w₁)

  joined_live :
      (subs joined : List SubscriberInner) (frames : List Frame) (w : W)
      → All (λ s. contains (map (λ t. t.address) subs) s.address ≡ false) joined
      → All (λ s. contains (fan_out try_send subs frames w).0.1 s.address ≡ false) joined
  joined_live subs [] frames w new = tt
  joined_live subs (s ∷ joined) frames w (new, fresh) =
      (contains-fan_out s.address subs frames w new, joined_live subs joined frames w fresh)

  -- Whoever subscribes during the fan-out, at an address that no subscriber of the snapshot has, is
  -- still registered after the dead have been culled, in the order of subscription.
  pub distribute-subscribers :
      (frames : List Frame) (joined : List SubscriberInner) (inner : ReaderInner) (w : W)
      → All (λ s. contains (map (λ t. t.address) inner.subscribers) s.address ≡ false) joined
      → (kept : List SubscriberInner) × ((distribute try_send frames joined inner w).0.subscribers
          ≡ kept ++ joined)
  unfolding distribute
  distribute-subscribers frames joined inner w fresh =
      let dead = (fan_out try_send inner.subscribers frames w).0.1 in
      let subs = (fan_out try_send inner.subscribers frames w).0.0 in
      (
        retain dead subs,
        retain-append dead subs joined
            ∙ ap (λ (l : List SubscriberInner). retain dead subs ++ l)
                (retain-All dead joined (joined_live inner.subscribers joined frames w fresh)),
      )
