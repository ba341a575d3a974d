-- ===== src/Notification/EventBus/Replay.antt =====
-- What a client that reconnects is sent again (backend/app/modules/notification/event_bus.py).
use gd_classroom.Prelude.{
  ℕ, zero, suc, ◌+◌, ◌-◌, ◌≤◌, ◌≡◌, refl, sym, ap, ◌∙◌, inl, inr, Bool, true, false, Option, none,
  some, List, [], ◌∷◌, ◌++◌, append_assoc, append_nil, if◌then◌else◌, ltb, ◌==◌, ==_refl, length,
  drop, filter_by, append_bounded, append_bounded-drop, drop-append, length-append, All, get-put,
  insert_sorted, sort_onto, sorted, Bool-cases, arith,
}
use gd_classroom.Notification.EventBus.{
  DomainEvent, EventBus, ring, numbered, publish, publish_all, missed_of, replay_since,
}
use gd_classroom.Notification.EventBus.Delivery.{stamped}

module _ {P : Type 0} where
  abbrev pub is_on : ℕ → DomainEvent P → Bool
  is_on t e = e.topic == t

  -- The last `n` events.
  abbrev last_of : ℕ → List (DomainEvent P) → List (DomainEvent P)
  last_of n es = drop (length es - n) es

  publish-ring :
      (t : ℕ) (e : DomainEvent P) (b : EventBus P)
      → ring t (publish e b) ≡ (
          if e.topic == t
          then append_bounded b.replay (numbered (b.seq + 1) e) (ring t b)
          else ring t b)
  unfolding publish
  publish-ring t e b =
      ap (λ (o : Option (List (DomainEvent P))). elim o [ none ↦ [] | some es ↦ es ])
        (get-put t e.topic _ b.rings)
      ∙ elim (Bool-cases (e.topic == t)) [
        | inl same ↦ let eq : e.topic ≡ t = ground (arith, same) in rw (same, eq, ==_refl t)
        | inr other ↦
            let other' : (t == e.topic) ≡ false = ground (arith, other) in rw (other, other')
      ]

  -- The ring of a topic has the last `replay` of what was in it and what was published since.
  pub publish_all-ring :
      (t : ℕ) (es old : List (DomainEvent P)) (b : EventBus P)
      → ring t b ≡ last_of b.replay old
      → ring t (publish_all es b) ≡ last_of b.replay (old ++ filter_by (is_on t) (stamped b.seq es))
  unfolding publish_all publish
  publish_all-ring t [] old b h = h ∙ ap (last_of b.replay) (sym (append_nil old))
  publish_all-ring t (e ∷ es) old b h =
      let x = numbered (b.seq + 1) e in
      let one = publish-ring t e b in
      elim (Bool-cases (e.topic == t)) [
        | inl same ↦ rw same (
            publish_all-ring t es (old ++ x ∷ []) (publish e b)
              (one ∙ rw (same, h) (append_bounded-drop b.replay x old))
            ∙ ap (last_of b.replay)
                (append_assoc old (x ∷ []) (filter_by (is_on t) (stamped (b.seq + 1) es))))
        | inr other ↦ rw other (publish_all-ring t es old (publish e b) (one ∙ rw (other, h)))
      ]

  by_seq : DomainEvent P → DomainEvent P → Bool
  by_seq a c = ltb a.seq c.seq

  -- Numbers up to `n`, and above it.
  abbrev pub UpTo : ℕ → List (DomainEvent P) → Type 0
  UpTo n es = All (λ e. e.seq ≤ n) es

  UpTo-suc : (n : ℕ) (es : List (DomainEvent P)) → UpTo n es → UpTo (n + 1) es
  UpTo-suc n [] h = tt
  UpTo-suc n (e ∷ es) h = (omega (arith, h.0), UpTo-suc n es h.1)

  UpTo-append :
      (n : ℕ) (es : List (DomainEvent P)) (e : DomainEvent P)
      → UpTo n es
      → UpTo (n + 1) (es ++ numbered (n + 1) e ∷ [])
  UpTo-append n [] e h = (omega arith, tt)
  UpTo-append n (x ∷ es) e h = (omega (arith, h.0), UpTo-append n es e h.1)

  UpTo-drop : (n k : ℕ) (es : List (DomainEvent P)) → UpTo n es → UpTo n (drop k es)
  UpTo-drop n zero es h = h
  UpTo-drop n (suc k) [] h = h
  UpTo-drop n (suc k) (e ∷ es) h = UpTo-drop n k es h.1

  insert_sorted-last :
      (n : ℕ) (done : List (DomainEvent P)) (e : DomainEvent P)
      → UpTo n done
      → insert_sorted by_seq (numbered (n + 1) e) done ≡ done ++ numbered (n + 1) e ∷ []
  unfolding insert_sorted by_seq
  insert_sorted-last n [] e h = refl
  insert_sorted-last n (d ∷ done) e h =
      let later : ltb (n + 1) d.seq ≡ false = ground (arith, h.0) in
      rw later (ap (d ∷◌) (insert_sorted-last n done e h.1))

  -- Events that are numbered in order are sorted.
  sort_onto-stamped :
      (t n : ℕ) (done es : List (DomainEvent P))
      → UpTo n done
      → sort_onto by_seq done (filter_by (is_on t) (stamped n es))
        ≡ done ++ filter_by (is_on t) (stamped n es)
  unfolding sort_onto
  sort_onto-stamped t n done [] h = sym (append_nil done)
  sort_onto-stamped t n done (e ∷ es) h = elim (Bool-cases (e.topic == t)) [
    | inl same ↦
        let x = numbered (n + 1) e in
        rw same (
          ap (λ d. sort_onto by_seq d (filter_by (is_on t) (stamped (n + 1) es)))
            (insert_sorted-last n done e h)
          ∙ sort_onto-stamped t (n + 1) (done ++ x ∷ []) es (UpTo-append n done e h)
          ∙ append_assoc done (x ∷ []) (filter_by (is_on t) (stamped (n + 1) es)))
    | inr other ↦ rw other (sort_onto-stamped t (n + 1) done es (UpTo-suc n done h))
  ]

  filter_by-old :
      (n : ℕ) (old rest : List (DomainEvent P))
      → UpTo n old
      → filter_by (λ (e : DomainEvent P). ltb n e.seq) (old ++ rest)
        ≡ filter_by (λ (e : DomainEvent P). ltb n e.seq) rest
  filter_by-old n [] rest h = refl
  filter_by-old n (e ∷ old) rest h =
      let seen : ltb n e.seq ≡ false = ground (arith, h.0) in rw seen (filter_by-old n old rest h.1)

  filter_by-new :
      (t m n : ℕ) (es : List (DomainEvent P))
      → m ≤ n
      → filter_by (λ (e : DomainEvent P). ltb m e.seq) (filter_by (is_on t) (stamped n es))
        ≡ filter_by (is_on t) (stamped n es)
  filter_by-new t m n [] h = refl
  filter_by-new t m n (e ∷ es) h =
      let unseen : ltb m (n + 1) ≡ true = ground arith in
      let rest = filter_by-new t m (n + 1) es (omega (arith, h)) in
      elim (Bool-cases (e.topic == t)) [
        | inl same ↦ rw (same, unseen) (ap (numbered (n + 1) e ∷◌) rest)
        | inr other ↦ rw other rest
      ]

  -- A client that has seen everything the bus had numbered, and reconnects after further publications
  -- of which at most as many as a ring holds were on its topic, is replayed exactly those, in order:
  -- provided that the ring was within its size and held no number above the bus's.
  pub replay_is_complete :
      (t : ℕ) (es : List (DomainEvent P)) (b : EventBus P)
      → length (ring t b) ≤ b.replay
      → UpTo b.seq (ring t b)
      → length (filter_by (is_on t) (stamped b.seq es)) ≤ b.replay
      → replay_since (t ∷ []) b.seq (publish_all es b) ≡ filter_by (is_on t) (stamped b.seq es)
  unfolding replay_since sorted by_seq
  replay_is_complete t es b short seen few =
      let old = ring t b in
      let new = filter_by (is_on t) (stamped b.seq es) in
      let j = length (old ++ new) - b.replay in
      let all_kept : 0 ≡ length old - b.replay = omega (arith, short) in
      let whole : old ≡ last_of b.replay old = ap (λ i. drop i old) all_kept in
      let kept : ring t (publish_all es b) ≡ drop j old ++ new =
        publish_all-ring t es old b whole
        ∙ drop-append j old new (omega (arith, length-append old new, few)) in
      let missed : missed_of b.seq (t ∷ []) (publish_all es b) ≡ new =
        append_nil _
        ∙ ap (filter_by (λ (e : DomainEvent P). ltb b.seq e.seq)) kept
        ∙ filter_by-old b.seq (drop j old) new (UpTo-drop b.seq j old seen)
        ∙ filter_by-new t b.seq b.seq es (omega arith) in
      ap (sort_onto by_seq []) missed ∙ sort_onto-stamped t b.seq [] es tt
