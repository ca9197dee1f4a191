-- ===== src/Reader/Broadcast.antt =====
-- mcanbus/src/reader.rs: what the queues hold after a batch has been handed out.
pub mod Order
pub mod Served
pub mod Run
use mcanbus.Base.{
  ℕ, ◌+◌, ◌%◌, ◌^◌, ◌≡◌, ◌≢◌, refl, sym, ap, ◌∙◌, ◌⊎◌, inl, inr, Bool, true, false, List, [], ◌∷◌,
  ◌++◌, ◌==◌, ==_iff, map, All, append_assoc, append-nil, Bool-cases, if◌then◌else◌, arith, ≢→==,
}
use mcanbus.Frame.Data.{Frame}
use mcanbus.Reader.{
  TrySend, sent, full, disconnected, SubscriberInner, ReaderInner, offer, fan_out, distribute,
  contains,
}

-- The frames that a queue has been given, after an answer of `try_send`.
abbrev pub appended : TrySend → List Frame → Frame → List Frame
appended sent frames frame = frames ++ frame ∷ []
appended full frames frame = frames
appended disconnected frames frame = frames

-- A queue keeps what it takes behind what it has taken, and the others are not touched.
pub record IsQueue {W : Type 0} (try_send : ℕ → Frame → W → TrySend × W) : Type 0 where
  pub log : ℕ → W → List Frame
  pub logged :
      (tx : ℕ) (frame : Frame) (w : W)
      → log tx (try_send tx frame w).1 ≡ appended (try_send tx frame w).0 (log tx w) frame
  pub other_logs :
      (tx tx' : ℕ) (frame : Frame) (w : W) → tx ≢ tx' → log tx' (try_send tx frame w).1 ≡ log tx' w

-- Frames left out of a list, the rest in its order.
pub data Sublist : List Frame → List Frame → Type 0 where
  none_left : Sublist [] []
  taken_one :
      (frame : Frame) (taken frames : List Frame)
      → Sublist taken frames
      → Sublist (frame ∷ taken) (frame ∷ frames)
  left_out :
      (frame : Frame) (taken frames : List Frame)
      → Sublist taken frames
      → Sublist taken (frame ∷ frames)

Sublist-[] : (frames : List Frame) → Sublist [] frames
Sublist-[] [] = none_left
Sublist-[] (frame ∷ frames) = left_out frame [] frames (Sublist-[] frames)

-- Each subscriber has a queue of its own.
abbrev pub Distinct : List SubscriberInner → Type 0
Distinct [] = Unit {0}
Distinct (s ∷ subs) = (contains (map (λ t. t.tx) subs) s.tx ≡ false) × Distinct subs

contains-≢ : (d : ℕ) (dead : List ℕ) (a : ℕ) → contains (d ∷ dead) a ≡ false → d ≢ a
unfolding contains
contains-≢ d dead a h same = ground (arith, h, same)

contains-rest :
    (d : ℕ) (dead : List ℕ) (a : ℕ) → contains (d ∷ dead) a ≡ false → contains dead a ≡ false
unfolding contains
contains-rest d dead a h = ground (arith, h)

contains-more :
    (gone : Bool) (d : ℕ) (dead : List ℕ) (a : ℕ)
    → contains dead a ≡ true
    → contains (if gone then d ∷ dead else dead) a ≡ true
unfolding contains
contains-more true d dead a h = ground (arith, h)
contains-more false d dead a h = h

contains-first :
    (gone : Bool) (d : ℕ) (dead : List ℕ)
    → gone ≡ true
    → contains (if gone then d ∷ dead else dead) d ≡ true
unfolding contains
contains-first true d dead h = ground arith
contains-first false d dead h = absurd (cc h)

module _ {W : Type 0} (try_send : ℕ → Frame → W → TrySend × W) (queue : IsQueue try_send) where
  open queue use {log, logged, other_logs}

  offer-others :
      (sub : SubscriberInner) (frames : List Frame) (tx : ℕ) (w : W)
      → sub.tx ≢ tx
      → log tx (offer try_send sub frames w).1 ≡ log tx w
  unfolding offer
  offer-others sub [] tx w other = refl
  offer-others sub (frame ∷ frames) tx w other =
      let w₁ = (try_send sub.tx frame w).1 in
      answered (try_send sub.tx frame w).0 w₁
        (λ sub' same. offer-others sub' frames tx w₁ (λ e. other (sym same ∙ e)))
      ∙ other_logs sub.tx tx frame w other
    where
      answered :
          (t : TrySend) (w₁ : W)
          → ((sub' : SubscriberInner)
              → sub'.tx ≡ sub.tx
              → log tx (offer try_send sub' frames w₁).1 ≡ log tx w₁)
          → log tx
              (elim t as (λ o. (SubscriberInner × Bool) × W) [
                | sent ↦
                    offer try_send (record sub { received = (sub.received + 1) % 2 ^ 64 }) frames w₁
                | full ↦
                    offer try_send (record sub { dropped = (sub.dropped + 1) % 2 ^ 64 }) frames w₁
                | disconnected ↦ ((sub, true), w₁)
              ]).1
            ≡ log tx w₁
      answered sent w₁ rest = rest _ refl
      answered full w₁ rest = rest _ refl
      answered disconnected w₁ rest = refl

  fan_out-others :
      (subs : List SubscriberInner) (frames : List Frame) (tx : ℕ) (w : W)
      → contains (map (λ t. t.tx) subs) tx ≡ false
      → log tx (fan_out try_send subs frames w).1 ≡ log tx w
  unfolding fan_out
  fan_out-others [] frames tx w other = refl
  fan_out-others (sub ∷ subs) frames tx w other =
      fan_out-others subs frames tx (offer try_send sub frames w).1
        (contains-rest sub.tx (map (λ t. t.tx) subs) tx other)
      ∙ offer-others sub frames tx w (contains-≢ sub.tx (map (λ t. t.tx) subs) tx other)

-- What a hand-out makes of one queue: `P` of it before and after, and of whether its receiver was gone.
pub record Fate (P : List Frame → List Frame → Bool → Type 0) (before after : List Frame)
    (dead : List ℕ) (address : ℕ) : Type 0 where
  pub gone : Bool
  pub fate : P before after gone
  pub culled : gone ≡ true → contains dead address ≡ true

module _ {W : Type 0} (try_send : ℕ → Frame → W → TrySend × W) (queue : IsQueue try_send)
    (P : List Frame → List Frame → Bool → Type 0) (frames : List Frame)
    (offered : (sub : SubscriberInner) (w : W)
      → P
          (queue.log sub.tx w)
          (queue.log sub.tx (offer try_send sub frames w).1)
          (offer try_send sub frames w).0.1) where
  open queue use {log}

  -- Later queues do not change what became of a queue, nor does the list of the dead grow shorter.
  abbrev pub Fates : List SubscriberInner → W → W → List ℕ → Type 0
  Fates subs w w' dead = All (λ s. Fate P (log s.tx w) (log s.tx w') dead s.address) subs

  earlier :
      (sub : SubscriberInner) (gone : Bool) (dead : List ℕ) (subs : List SubscriberInner)
      (w w₁ w' : W)
      → contains (map (λ t. t.tx) subs) sub.tx ≡ false
      → ((tx : ℕ) → sub.tx ≢ tx → log tx w₁ ≡ log tx w)
      → Fates subs w₁ w' dead
      → Fates subs w w' (if gone then sub.address ∷ dead else dead)
  earlier sub gone dead [] w w₁ w' own same h = tt
  earlier sub gone dead (s ∷ subs) w w₁ w' own same (first, h) = (
    record {
      gone = first.gone;
      fate =
          rw (← same s.tx (λ e. contains-≢ s.tx (map (λ t. t.tx) subs) sub.tx own (sym e)))
            first.fate;
      culled = λ e. contains-more gone sub.address dead s.address (first.culled e);
    },
    earlier sub gone dead subs w w₁ w' (contains-rest s.tx (map (λ t. t.tx) subs) sub.tx own) same
        h,
  )

  pub fan_out-Fate :
      (subs : List SubscriberInner) (w : W)
      → Distinct subs
      → Fates subs w (fan_out try_send subs frames w).1 (fan_out try_send subs frames w).0.1
  unfolding fan_out
  fan_out-Fate [] w distinct = tt
  fan_out-Fate (sub ∷ subs) w (own, distinct) =
      let r = offer try_send sub frames w in
      let later = fan_out try_send subs frames r.1 in
      (
        record {
          gone = r.0.1;
          fate = rw (fan_out-others try_send queue subs frames sub.tx r.1 own) (offered sub w);
          culled = contains-first r.0.1 sub.address later.0.1;
        },
        earlier sub r.0.1 later.0.1 subs w r.1 later.1 own
            (λ tx other. offer-others try_send queue sub frames tx w other)
            (fan_out-Fate subs r.1 distinct),
      )
