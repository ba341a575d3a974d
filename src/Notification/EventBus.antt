-- ===== src/Notification/EventBus.antt =====
-- The event bus of backend/app/modules/notification/event_bus.py, with the `DomainEvent` of
-- backend/app/domain/events.py. A topic is a string that is only compared, and stands here as a
-- number; the payload, with the time of the event, is a parameter. Subscribers are objects that the
-- bus and the streams share: they are kept in a store, by the order in which they subscribed.
pub mod Delivery
pub mod Replay
pub mod Wiring
use gd_classroom.Prelude.{
  ℕ, ◌+◌, min, Bool, true, false, not, none, some, List, [], ◌∷◌, ◌++◌, map, if◌then◌else◌, ltb,
  ◌==◌, length, is_nonempty, filter_by, any_of, append_bounded, Dict, get, put, modify, remove,
  values, sorted, Text, codes,
}

pub record DomainEvent (P : Type 0) : Type 0 where
  pub topic : ℕ
  pub type : Text
  pub payload : P
  pub seq : ℕ

abbrev pub replay_buffer : ℕ
replay_buffer = 200

abbrev pub subscriber_queue_size : ℕ
subscriber_queue_size = 100

pub record Subscriber (P : Type 0) : Type 0 where
  pub topics : List ℕ
  pub queue : List (DomainEvent P)
  pub overrun : Bool

pub record EventBus (P : Type 0) : Type 0 where
  pub seq : ℕ
  pub replay : ℕ
  pub rings : Dict (List (DomainEvent P))
  -- `_subs`: the subscribers of a topic, by their place in the store.
  pub subs : Dict (List ℕ)
  pub subscribers : Dict (Subscriber P)
  pub next_subscriber : ℕ

-- What `Subscriber.next` does: it raises, gives an event, or gives up at the timeout.
pub data Awaited (P : Type 0) : Type 0 where
  overran : Awaited P
  event : DomainEvent P → Awaited P
  timed_out : Awaited P

pub record BusStats : Type 0 where
  pub topics : ℕ
  pub subscribers : ℕ
  pub seq : ℕ

-- A `frozenset` of topics and a `set` of subscribers: each member once.
abbrev pub set_add : ℕ → List ℕ → List ℕ
set_add x xs = if any_of (x ==◌) xs then xs else xs ++ x ∷ []

abbrev pub set_of : List ℕ → List ℕ → List ℕ
set_of done [] = done
set_of done (x ∷ xs) = set_of (set_add x done) xs

abbrev pub sum_of : List ℕ → ℕ
sum_of [] = 0
sum_of (x ∷ xs) = x + sum_of xs

abbrev pub min_of : List ℕ → ℕ
min_of [] = 0
min_of (x ∷ []) = x
min_of (x ∷ y ∷ ys) = min x (min_of (y ∷ ys))

module _ {P : Type 0} where
  abbrev pub new_bus : ℕ → EventBus P
  new_bus replay = record {
    seq = 0;
    replay = replay;
    rings = [];
    subs = [];
    subscribers = [];
    next_subscriber = 0;
  }

  -- `self._rings.get(topic, ())` and `self._subs.get(topic, ())`
  abbrev pub ring : ℕ → EventBus P → List (DomainEvent P)
  ring topic b = elim (get topic b.rings) [ none ↦ [] | some es ↦ es ]

  abbrev pub listeners : ℕ → EventBus P → List ℕ
  listeners topic b = elim (get topic b.subs) [ none ↦ [] | some ks ↦ ks ]

  unfoldable pub offer : DomainEvent P → Subscriber P → Subscriber P
  offer e s =
      if ltb (length s.queue) subscriber_queue_size
      then record s { queue = s.queue ++ e ∷ [] }
      else record s { overrun = true }

  unfoldable pub offer_each : List ℕ → DomainEvent P → Dict (Subscriber P) → Dict (Subscriber P)
  offer_each [] e d = d
  offer_each (k ∷ ks) e d = offer_each ks e (modify k (offer e) d)

  abbrev pub numbered : ℕ → DomainEvent P → DomainEvent P
  numbered n e = record e { seq = n }

  unfoldable pub publish : DomainEvent P → EventBus P → EventBus P
  unfolding offer_each
  publish e b =
      let e' = numbered (b.seq + 1) e in
      record b {
        seq = b.seq + 1;
        rings = put e.topic (append_bounded b.replay e' (ring e.topic b)) b.rings;
        subscribers = offer_each (listeners e.topic b) e' b.subscribers;
      }

  unfoldable pub publish_all : List (DomainEvent P) → EventBus P → EventBus P
  publish_all [] b = b
  publish_all (e ∷ es) b = publish_all es (publish e b)

  abbrev pub add_to : ℕ → List ℕ → EventBus P → EventBus P
  add_to k [] b = b
  add_to k (t ∷ ts) b = add_to k ts (record b { subs = put t (set_add k (listeners t b)) b.subs })

  -- The new subscriber is the one at the place returned.
  unfoldable pub subscribe : List ℕ → EventBus P → EventBus P × ℕ
  subscribe topics b =
      let chosen = set_of [] topics in
      let sub : Subscriber P = record { topics = chosen; queue = []; overrun = false } in
      let k = b.next_subscriber in
      (
        add_to k chosen
            (record b { subscribers = put k sub b.subscribers; next_subscriber = k + 1 }),
        k,
      )

  abbrev pub discard_from : ℕ → List ℕ → EventBus P → EventBus P
  discard_from k [] b = b
  discard_from k (t ∷ ts) b =
      let left = filter_by (λ j. not (j == k)) (listeners t b) in
      discard_from k ts
        (record b { subs = if is_nonempty left then put t left b.subs else remove t b.subs })

  unfoldable pub unsubscribe : ℕ → EventBus P → EventBus P
  unsubscribe k b = elim (get k b.subscribers) [ none ↦ b | some s ↦ discard_from k s.topics b ]

  -- `Subscriber.next`: an empty queue is one that stays empty until the timeout.
  unfoldable pub next : Subscriber P → Subscriber P × Awaited P
  next s =
      if s.overrun
      then (s, overran)
      else elim s.queue [ [] ↦ (s, timed_out) | e ∷ es ↦ (record s { queue = es }, event e) ]

  abbrev pub missed_of : ℕ → List ℕ → EventBus P → List (DomainEvent P)
  missed_of last_seq [] b = []
  missed_of last_seq (t ∷ ts) b =
      filter_by (λ (e : DomainEvent P). ltb last_seq e.seq) (ring t b) ++ missed_of last_seq ts b

  unfoldable pub replay_since : List ℕ → ℕ → EventBus P → List (DomainEvent P)
  replay_since topics last_seq b =
      sorted (λ (a c : DomainEvent P). ltb a.seq c.seq) (missed_of last_seq topics b)

  abbrev pub firsts : List ℕ → EventBus P → List ℕ
  firsts [] b = []
  firsts (t ∷ ts) b = elim (ring t b) [ [] ↦ firsts ts b | e ∷ es ↦ e.seq ∷ firsts ts b ]

  unfoldable pub oldest_available : List ℕ → EventBus P → ℕ
  oldest_available topics b = min_of (firsts topics b)

  -- `farewell` is the payload `{"reason": "CLEANUP"}`.
  unfoldable pub drop_topic : P → ℕ → EventBus P → EventBus P
  unfolding offer_each
  drop_topic farewell topic b =
      let bye : DomainEvent P = record {
        topic = topic;
        type = codes "session.ended";
        payload = farewell;
        seq = 0;
      } in
      record b {
        rings = remove topic b.rings;
        subscribers = offer_each (listeners topic b) bye b.subscribers;
        subs = remove topic b.subs;
      }

  unfoldable pub stats : EventBus P → BusStats
  stats b = record {
    topics = length b.rings;
    subscribers = sum_of (map length (values b.subs));
    seq = b.seq;
  }
