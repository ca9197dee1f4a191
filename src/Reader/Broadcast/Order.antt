-- ===== src/Reader/Broadcast/Order.antt =====
-- mcanbus/src/reader.rs: the order and the completeness of what the subscribers get.
use mcanbus.Base.{
  ℕ, ◌+◌, ◌%◌, ◌^◌, ◌≡◌, refl, sym, ap, ◌∙◌, ◌⊎◌, inl, inr, Bool, true, false, List, [], ◌∷◌, ◌++◌,
  map, All, append_assoc, append-nil, if◌then◌else◌, Bool-cases, ◌==◌, ==_iff,
}
use mcanbus.Frame.Data.{Frame}
use mcanbus.Reader.{
  TrySend, sent, full, disconnected, SubscriberInner, ReaderInner, offer, fan_out, distribute,
  retain, contains,
}
use mcanbus.Reader.Broadcast.{
  IsQueue, appended, Sublist, none_left, taken_one, left_out, Sublist-[], Distinct, Fate,
  fan_out-Fate,
}

-- The frames that a queue took of a batch.
pub record Took (frames before after : List Frame) : Type 0 where
  pub taken : List Frame
  pub in_order : Sublist taken frames
  pub behind : after ≡ before ++ taken

-- All of them, or the receiver was gone.
abbrev Whole : List Frame → List Frame → List Frame → Bool → Type 0
Whole frames before after gone = (gone ≡ true) ⊎ (after ≡ before ++ frames)

contains-retain :
    (dead : List ℕ) (subs : List SubscriberInner) (a : ℕ)
    → contains dead a ≡ true
    → contains (map (λ t. t.address) (retain dead subs)) a ≡ false
unfolding retain contains
contains-retain dead [] a h = refl
contains-retain dead (s ∷ subs) a h = elim (Bool-cases (contains dead s.address)) [
  | inl gone ↦ rw gone (contains-retain dead subs a h)
  | inr kept ↦ rw kept (apart kept (s.address == a) refl (contains-retain dead subs a h))
]
  where
    apart :
        contains dead s.address ≡ false
        → (same : Bool) → (s.address == a) ≡ same
        → contains (map (λ t. t.address) (retain dead subs)) a ≡ false
        → (if same then true else contains (map (λ t. t.address) (retain dead subs)) a) ≡ false
    apart kept true e rest = absurd (cc (ap (contains dead) ((==_iff s.address a).0 e), kept, h))
    apart kept false e rest = rest

module _ {W : Type 0} (try_send : ℕ → Frame → W → TrySend × W) (queue : IsQueue try_send) where
  open queue use {log, logged}

  offer-Took :
      (sub : SubscriberInner) (frames : List Frame) (w : W)
      → Took frames (log sub.tx w) (log sub.tx (offer try_send sub frames w).1)
  unfolding offer
  offer-Took sub [] w = record {
    taken = [];
    in_order = none_left;
    behind = sym (append-nil (log sub.tx w));
  }
  offer-Took sub (frame ∷ frames) w =
      answered (try_send sub.tx frame w).0 (try_send sub.tx frame w).1 (logged sub.tx frame w)
        (λ w₁. offer-Took (record sub { received = (sub.received + 1) % 2 ^ 64 }) frames w₁)
        (λ w₁. offer-Took (record sub { dropped = (sub.dropped + 1) % 2 ^ 64 }) frames w₁)
    where
      answered :
          (t : TrySend) (w₁ : W)
          → log sub.tx w₁ ≡ appended t (log sub.tx w) frame
          → ((w₂ : W)
              → Took frames (log sub.tx w₂) (
                  log sub.tx
                    (offer try_send
                      (record sub { received = (sub.received + 1) % 2 ^ 64 })
                      frames
                      w₂).1))
          → ((w₂ : W)
              → Took frames (log sub.tx w₂) (
                  log sub.tx
                    (offer try_send
                      (record sub { dropped = (sub.dropped + 1) % 2 ^ 64 })
                      frames
                      w₂).1))
          → Took (frame ∷ frames) (log sub.tx w) (
              log sub.tx
                (elim t as (λ o. (SubscriberInner × Bool) × W) [
                  | sent ↦
                      offer try_send
                        (record sub { received = (sub.received + 1) % 2 ^ 64 })
                        frames
                        w₁
                  | full ↦
                      offer try_send (record sub { dropped = (sub.dropped + 1) % 2 ^ 64 }) frames w₁
                  | disconnected ↦ ((sub, true), w₁)
                ]).1)
      answered sent w₁ grown on lost =
          let h = on w₁ in
          record {
            taken = frame ∷ h.taken;
            in_order = taken_one frame h.taken frames h.in_order;
            behind =
                h.behind
                ∙ ap (λ (l : List Frame). l ++ h.taken) grown
                ∙ append_assoc (log sub.tx w) (frame ∷ []) h.taken;
          }
      answered full w₁ grown on lost =
          let h = lost w₁ in
          record {
            taken = h.taken;
            in_order = left_out frame h.taken frames h.in_order;
            behind = h.behind ∙ ap (λ (l : List Frame). l ++ h.taken) grown;
          }
      answered disconnected w₁ grown on lost = record {
        taken = [];
        in_order = Sublist-[] (frame ∷ frames);
        behind = grown ∙ sym (append-nil (log sub.tx w));
      }

  -- When each subscriber has a queue of its own, each queue holds after a batch what it held, and
  -- behind it frames of the batch in the order of the batch, none of them twice, whatever the
  -- queues of the others do.
  pub fan_out-Took :
      (frames : List Frame) (subs : List SubscriberInner) (w : W)
      → Distinct subs
      → All (λ s. Took frames (log s.tx w) (log s.tx (fan_out try_send subs frames w).1)) subs
  fan_out-Took frames subs w distinct =
      forget subs (fan_out try_send subs frames w).1 (fan_out try_send subs frames w).0.1 (
        fan_out-Fate try_send queue (λ before after gone. Took frames before after) frames
          (λ sub w₁. offer-Took sub frames w₁) subs w distinct)
    where
      forget :
          (subs : List SubscriberInner) (w' : W) (dead : List ℕ)
          → All
              (λ s.
                Fate
                  (λ before after gone. Took frames before after)
                  (log s.tx w)
                  (log s.tx w')
                  dead
                  s.address)
              subs
          → All (λ s. Took frames (log s.tx w) (log s.tx w')) subs
      forget [] w' dead h = tt
      forget (s ∷ subs) w' dead (first, h) = (first.fate, forget subs w' dead h)

  module _
      (never_full : (tx : ℕ) (frame : Frame) (w : W) → ¬ ((try_send tx frame w).0 ≡ full)) where
    offer-Whole :
        (sub : SubscriberInner) (frames : List Frame) (w : W)
        → Whole frames
            (log sub.tx w)
            (log sub.tx (offer try_send sub frames w).1)
            (offer try_send sub frames w).0.1
    unfolding offer
    offer-Whole sub [] w = inr (sym (append-nil (log sub.tx w)))
    offer-Whole sub (frame ∷ frames) w =
        answered (try_send sub.tx frame w).0 (try_send sub.tx frame w).1 (logged sub.tx frame w)
          (never_full sub.tx frame w)
          (λ w₁. offer-Whole (record sub { received = (sub.received + 1) % 2 ^ 64 }) frames w₁)
      where
        abbrev_result : TrySend → W → (SubscriberInner × Bool) × W
        abbrev_result t w₁ = elim t [
          | sent ↦ offer try_send (record sub { received = (sub.received + 1) % 2 ^ 64 }) frames w₁
          | full ↦ offer try_send (record sub { dropped = (sub.dropped + 1) % 2 ^ 64 }) frames w₁
          | disconnected ↦ ((sub, true), w₁)
        ]

        answered :
            (t : TrySend) (w₁ : W)
            → log sub.tx w₁ ≡ appended t (log sub.tx w) frame
            → ¬ (t ≡ full)
            → ((w₂ : W)
                → Whole frames
                    (log sub.tx w₂)
                    (log sub.tx
                      (offer try_send
                        (record sub { received = (sub.received + 1) % 2 ^ 64 })
                        frames
                        w₂).1)
                    (offer try_send
                      (record sub { received = (sub.received + 1) % 2 ^ 64 })
                      frames
                      w₂).0.1)
            → Whole
                (frame ∷ frames)
                (log sub.tx w)
                (log sub.tx (abbrev_result t w₁).1)
                (abbrev_result t w₁).0.1
        answered sent w₁ grown some_room on = elim (on w₁) [
          | inl gone ↦ inl gone
          | inr whole ↦ inr (
              whole
              ∙ ap (λ (l : List Frame). l ++ frames) grown
              ∙ append_assoc (log sub.tx w) (frame ∷ []) frames)
        ]
        answered full w₁ grown some_room on = absurd (some_room refl)
        answered disconnected w₁ grown some_room on = inl refl

    -- With queues that are never full, and one of its own for each subscriber, every subscriber that is
    -- still registered after a batch has got the whole batch, in its order and behind what it had.
    pub distribute-Whole :
        (frames : List Frame) (joined : List SubscriberInner) (inner : ReaderInner) (w : W)
        → Distinct inner.subscribers
        → let after = distribute try_send frames joined inner w in
          All
            (λ s.
              (contains (map (λ t. t.address) after.0.subscribers) s.address ≡ false)
              ⊎ (log s.tx after.1 ≡ log s.tx w ++ frames))
            inner.subscribers
    unfolding distribute
    distribute-Whole frames joined inner w distinct =
        let r = fan_out try_send inner.subscribers frames w in
        judged (r.0.0 ++ joined) inner.subscribers r.1 r.0.1 (
          fan_out-Fate try_send queue (Whole frames) frames (λ sub w₁. offer-Whole sub frames w₁)
            inner.subscribers w distinct)
      where
        judged :
            (kept subs : List SubscriberInner) (w' : W) (dead : List ℕ)
            → All (λ s. Fate (Whole frames) (log s.tx w) (log s.tx w') dead s.address) subs
            → All
                (λ s.
                  (contains (map (λ t. t.address) (retain dead kept)) s.address ≡ false)
                  ⊎ (log s.tx w' ≡ log s.tx w ++ frames))
                subs
        judged kept [] w' dead h = tt
        judged kept (s ∷ subs) w' dead (first, h) = (
          elim first.fate [
            | inl gone ↦ inl (contains-retain dead kept s.address (first.culled gone))
            | inr whole ↦ inr whole
          ],
          judged kept subs w' dead h,
        )
