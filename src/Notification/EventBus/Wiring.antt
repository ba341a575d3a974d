-- ===== src/Notification/EventBus/Wiring.antt =====
-- The sets of subscribers of the event bus (backend/app/modules/notification/event_bus.py).
use gd_classroom.Prelude.{
  ℕ, ◌≡◌, refl, sym, inl, inr, Bool, true, false, Option, none, some, List, [], ◌∷◌, ◌++◌,
  if◌then◌else◌, ◌==◌, any_of, put, get-put, Bool-cases, arith,
}
use mathlib.Core.Path.{subst}
use gd_classroom.Notification.EventBus.{EventBus, listeners, set_add, set_of, add_to, subscribe}
use gd_classroom.Notification.EventBus.Delivery.{Distinct}

-- A number that stands nowhere in a list, nor is the last one.
any_of-snoc :
    (x k : ℕ) (xs : List ℕ)
    → any_of (x ==◌) xs ≡ false
    → (x == k) ≡ false
    → any_of (x ==◌) (xs ++ k ∷ []) ≡ false
any_of-snoc x k [] h e = rw e
any_of-snoc x k (y ∷ xs) h e = ground (arith, any_of-snoc x k xs, h, e)

Distinct-snoc :
    (k : ℕ) (xs : List ℕ) → any_of (k ==◌) xs ≡ false → Distinct xs → Distinct (xs ++ k ∷ [])
Distinct-snoc k [] h d = (refl, tt)
Distinct-snoc k (x ∷ xs) h d =
    let apart : (x == k) ≡ false = ground (arith, h) in
    let rest : any_of (k ==◌) xs ≡ false = ground (arith, h) in
    (any_of-snoc x k xs d.0 apart, Distinct-snoc k xs rest d.1)

set_add-Distinct : (k : ℕ) (xs : List ℕ) → Distinct xs → Distinct (set_add k xs)
set_add-Distinct k xs d = elim (Bool-cases (any_of (k ==◌) xs)) [
  | inl t ↦ rw t d
  | inr t ↦ rw t (Distinct-snoc k xs t d)
]

members : Option (List ℕ) → List ℕ
members o = elim o [ none ↦ [] | some ks ↦ ks ]

members-Distinct :
    (b : Bool) (ks : List ℕ) (o : Option (List ℕ))
    → Distinct ks
    → Distinct (members o)
    → Distinct (members (if b then some ks else o))
unfolding members
members-Distinct true ks o d e = d
members-Distinct false ks o d e = e

module _ {P : Type 0} where
  -- Every topic has each of its subscribers once.
  abbrev pub IsWired : EventBus P → Type 0
  IsWired b = (t : ℕ) → Distinct (listeners t b)

  add_to-IsWired : (k : ℕ) (ts : List ℕ) (b : EventBus P) → IsWired b → IsWired (add_to k ts b)
  unfolding members
  add_to-IsWired k [] b h = h
  add_to-IsWired k (t ∷ ts) b h = add_to-IsWired k ts _ (joined t)
    where
      joined : (t : ℕ) → IsWired (record b { subs = put t (set_add k (listeners t b)) b.subs })
      joined t i =
          subst (λ o. Distinct (members o)) (sym (get-put i t (set_add k (listeners t b)) b.subs))
            (members-Distinct (i == t) (set_add k (listeners t b)) _
              (set_add-Distinct k (listeners t b) (h t)) (h i))

  -- Subscribing keeps every topic's subscribers apart, also for a subscriber that names a topic twice.
  pub subscribe-IsWired :
      (topics : List ℕ) (b : EventBus P) → IsWired b → IsWired (subscribe topics b).0
  unfolding subscribe
  subscribe-IsWired topics b h = add_to-IsWired b.next_subscriber (set_of [] topics) _ h
