-- ===== src/Notification/EventBus/Delivery.antt =====
-- What a subscriber of the event bus gets (backend/app/modules/notification/event_bus.py).
use gd_classroom.Prelude.{
  ℕ, ◌+◌, ◌≡◌, refl, sym, ap, ◌∙◌, ◌⊎◌, ◌||◌, inl, inr, Bool, true, false, some, List, [], ◌∷◌,
  ◌++◌, append_assoc, append_nil, if◌then◌else◌, ltb, ◌==◌, length, filter_by, any_of, Dict, get,
  get-modify, modify, Bool-cases, arith,
}
use mathlib.Core.Option
use gd_classroom.Notification.EventBus.{
  DomainEvent, Subscriber, EventBus, subscriber_queue_size, listeners, offer, offer_each, numbered,
  publish, publish_all,
}

-- A set of subscribers holds each of them once.
abbrev pub Distinct : List ℕ → Type 0
Distinct [] = Unit
Distinct (k ∷ ks) = (any_of (k ==◌) ks ≡ false) × Distinct ks

module _ {P : Type 0} where
  offer_all : List (DomainEvent P) → Subscriber P → Subscriber P
  offer_all [] s = s
  offer_all (e ∷ es) s = offer_all es (offer e s)

  -- The events with the numbers that `publish_all` gives them.
  abbrev pub stamped : ℕ → List (DomainEvent P) → List (DomainEvent P)
  stamped n [] = []
  stamped n (e ∷ es) = numbered (n + 1) e ∷ stamped (n + 1) es

  abbrev pub hears : ℕ → EventBus P → DomainEvent P → Bool
  hears k b e = any_of (k ==◌) (listeners e.topic b)

  offer_each-get :
      (k : ℕ) (ks : List ℕ) (e : DomainEvent P) (d : Dict (Subscriber P))
      → Distinct ks
      → get k (offer_each ks e d)
        ≡ (if any_of (k ==◌) ks then Option.map (offer e) (get k d) else get k d)
  unfolding offer_each
  offer_each-get k [] e d h = refl
  offer_each-get k (j ∷ ks) e d h =
      offer_each-get k ks e (modify j (offer e) d) h.1 ∙ step (Bool-cases (any_of (k ==◌) ks))
    where
      step :
          (any_of (k ==◌) ks ≡ true) ⊎ (any_of (k ==◌) ks ≡ false)
          → (if any_of (k ==◌) ks
              then Option.map (offer e) (get k (modify j (offer e) d))
              else get k (modify j (offer e) d))
            ≡ (if k == j || any_of (k ==◌) ks then Option.map (offer e) (get k d) else get k d)
      step c = ground (arith, get-modify k j (offer e) d, h.0, c)

  offer-room :
      (e : DomainEvent P) (s : Subscriber P)
      → ltb (length s.queue) subscriber_queue_size ≡ true
      → offer e s ≡ record s { queue = s.queue ++ e ∷ [] }
  unfolding offer
  offer-room e s h = rw h

  offer-overrun :
      (e : DomainEvent P) (s : Subscriber P)
      → ltb (length s.queue) subscriber_queue_size ≡ false
      → (offer e s).overrun ≡ true
  unfolding offer
  offer-overrun e s h = rw h

  overrun_stays :
      (es : List (DomainEvent P)) (s : Subscriber P)
      → s.overrun ≡ true
      → (offer_all es s).overrun ≡ true
  unfolding offer_all
  overrun_stays [] s h = h
  overrun_stays (e ∷ es) s h = elim (Bool-cases (ltb (length s.queue) subscriber_queue_size)) [
    | inl t ↦ overrun_stays es (offer e s) (ap (λ q. q.overrun) (offer-room e s t) ∙ h)
    | inr t ↦ overrun_stays es (offer e s) (offer-overrun e s t)
  ]

  offer_all-queue :
      (es : List (DomainEvent P)) (s : Subscriber P)
      → (offer_all es s).overrun ≡ false
      → (offer_all es s).queue ≡ s.queue ++ es
  unfolding offer_all
  offer_all-queue [] s h = sym (append_nil s.queue)
  offer_all-queue (e ∷ es) s h = elim (Bool-cases (ltb (length s.queue) subscriber_queue_size)) [
    | inl t ↦
        offer_all-queue es (offer e s) h
        ∙ ap (λ q. q.queue ++ es) (offer-room e s t)
        ∙ append_assoc s.queue (e ∷ []) es
    | inr t ↦
        let lost = overrun_stays es (offer e s) (offer-overrun e s t) in
        let clash : true ≡ false = sym lost ∙ h in cc
  ]

  -- What the subscriber at place `k` has after a publication.
  publish-get :
      (k : ℕ) (e : DomainEvent P) (b : EventBus P)
      → Distinct (listeners e.topic b)
      → get k (publish e b).subscribers ≡ (
          if hears k b e
          then Option.map (offer (numbered (b.seq + 1) e)) (get k b.subscribers)
          else get k b.subscribers)
  unfolding publish
  publish-get k e b h =
      offer_each-get k (listeners e.topic b) (numbered (b.seq + 1) e) b.subscribers h

  publish_all-get :
      (k : ℕ) (es : List (DomainEvent P)) (b : EventBus P) (s : Subscriber P)
      → ((t : ℕ) → Distinct (listeners t b))
      → get k b.subscribers ≡ some s
      → get k (publish_all es b).subscribers
        ≡ some (offer_all (filter_by (hears k b) (stamped b.seq es)) s)
  unfolding publish_all offer_all publish
  publish_all-get k [] b s h e = e
  publish_all-get k (x ∷ es) b s h e =
      let one = publish-get k x b (h x.topic) in
      elim (Bool-cases (hears k b x)) [
        | inl t ↦ rw t (
            publish_all-get k es (publish x b) (offer (numbered (b.seq + 1) x) s) h
              (one ∙ rw (t, e)))
        | inr t ↦ rw t (publish_all-get k es (publish x b) s h (one ∙ rw (t, e)))
      ]

  -- Nothing is lost without a sign: when the bus has each subscriber of a topic once, and a subscriber
  -- is not overrun after some publications, its queue is what it had, followed by every published
  -- event of the topics it listens to, in order and numbered on from the bus.
  pub no_silent_loss :
      (k : ℕ) (es : List (DomainEvent P)) (b : EventBus P) (s after : Subscriber P)
      → ((t : ℕ) → Distinct (listeners t b))
      → get k b.subscribers ≡ some s
      → get k (publish_all es b).subscribers ≡ some after
      → after.overrun ≡ false
      → after.queue ≡ s.queue ++ filter_by (hears k b) (stamped b.seq es)
  no_silent_loss k es b s after h e f o =
      let heard = filter_by (hears k b) (stamped b.seq es) in
      let same : some after ≡ some (offer_all heard s) = sym f ∙ publish_all-get k es b s h e in
      let one : after ≡ offer_all heard s = cc in
      ap (λ q. q.queue) one ∙ offer_all-queue heard s (ap (λ q. q.overrun) (sym one) ∙ o)
