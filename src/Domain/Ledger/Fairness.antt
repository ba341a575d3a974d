-- ===== src/Domain/Ledger/Fairness.antt =====
-- Whom `select_next_speaker` picks (backend/app/domain/ledger.py).
use mathlib.Core.Path.{subst}
use gd_classroom.Prelude.{
  ◌≤◌, ◌≡◌, refl, sym, ◌∙◌, ◌↔◌, ◌⊎◌, inl, inr, Bool, true, false, not, Option, none, some, List,
  [], ◌∷◌, if◌then◌else◌, Bool-cases, filter_by, is_nonempty, All, IsIn, Text, text_lt, Uuid,
  holds_id, least, arith,
}
use gd_classroom.Domain.Ledger.{
  ParticipantTally, Tallies, eligible, key_lt, pick, others, select_next_speaker,
}

-- The order on keys is a strict order in which equal keys cannot be told apart.
text_lt_trans : (s t u : Text) → text_lt s t ≡ true → text_lt t u ≡ true → text_lt s u ≡ true
unfolding text_lt
text_lt_trans [] (d ∷ t) (e ∷ u) h k = refl
text_lt_trans (c ∷ s) (d ∷ t) (e ∷ u) h k = ground (arith, text_lt_trans s t u)
text_lt_trans [] [] u h k = cc
text_lt_trans (c ∷ s) [] u h k = cc
text_lt_trans _ (d ∷ t) [] h k = cc

text_lt_through : (s t u : Text) → text_lt s t ≡ false → text_lt t u ≡ false → text_lt s u ≡ false
unfolding text_lt
text_lt_through [] [] u h k = k
text_lt_through (c ∷ s) [] [] h k = refl
text_lt_through (c ∷ s) [] (e ∷ u) h k = cc
text_lt_through [] (d ∷ t) u h k = cc
text_lt_through (c ∷ s) (d ∷ t) [] h k = refl
text_lt_through (c ∷ s) (d ∷ t) (e ∷ u) h k = ground (arith, text_lt_through s t u)

text_lt_irrefl : (s : Text) → text_lt s s ≡ false
unfolding text_lt
text_lt_irrefl [] = refl
text_lt_irrefl (c ∷ s) = ground (arith, text_lt_irrefl s)

key_lt_trans :
    (a b c : ParticipantTally) → key_lt a b ≡ true → key_lt b c ≡ true → key_lt a c ≡ true
unfolding key_lt
key_lt_trans a b c h k = ground (arith, text_lt_trans a.display_name b.display_name c.display_name)

key_lt_through :
    (a b c : ParticipantTally) → key_lt a b ≡ false → key_lt b c ≡ false → key_lt a c ≡ false
unfolding key_lt
key_lt_through a b c h k =
    ground (arith, text_lt_through a.display_name b.display_name c.display_name)

key_lt_spoken : (a b : ParticipantTally) → key_lt a b ≡ false → b.spoken_ms ≤ a.spoken_ms
unfolding key_lt
key_lt_spoken a b h = ground arith

-- The tally that `min` returns is one of the list, and no key of the list is below its key.
abbrev IsLeast : ParticipantTally → List ParticipantTally → Type 0
IsLeast t ts = All (λ o. key_lt o t ≡ false) ts

key_lt_irrefl : (a : ParticipantTally) → key_lt a a ≡ false
unfolding key_lt
key_lt_irrefl a = ground (arith, text_lt_irrefl a.display_name)

key_lt_asym : (a b : ParticipantTally) → key_lt a b ≡ true → key_lt b a ≡ false
key_lt_asym a b h = elim (Bool-cases (key_lt b a)) [
  | inl p ↦ absurd (cc (key_lt_trans a b a h p, key_lt_irrefl a))
  | inr p ↦ p
]

least_lt :
    (best x : ParticipantTally) (xs : List ParticipantTally)
    → key_lt x best ≡ true
    → least key_lt best (x ∷ xs) ≡ least key_lt x xs
unfolding least
least_lt best x xs h = rw h

least_ge :
    (best x : ParticipantTally) (xs : List ParticipantTally)
    → key_lt x best ≡ false
    → least key_lt best (x ∷ xs) ≡ least key_lt best xs
unfolding least
least_ge best x xs h = rw h

least-IsLeast :
    (best : ParticipantTally) (xs : List ParticipantTally)
    → IsLeast (least key_lt best xs) (best ∷ xs)
unfolding least
least-IsLeast best [] = (key_lt_irrefl best, tt)
least-IsLeast best (x ∷ xs) = elim (Bool-cases (key_lt x best)) [
  | inl p ↦
      let h = least-IsLeast x xs in
      subst (λ r. IsLeast r (best ∷ x ∷ xs)) (sym (least_lt best x xs p))
        (key_lt_through best x (least key_lt x xs) (key_lt_asym x best p) h.0, h)
  | inr p ↦
      let h = least-IsLeast best xs in
      subst (λ r. IsLeast r (best ∷ x ∷ xs)) (sym (least_ge best x xs p))
        (h.0, (key_lt_through x best (least key_lt best xs) p h.0, h.1))
]

least-IsIn :
    (best : ParticipantTally) (xs : List ParticipantTally) → IsIn (least key_lt best xs) (best ∷ xs)
unfolding least
least-IsIn best [] = inl refl
least-IsIn best (x ∷ xs) = elim (Bool-cases (key_lt x best)) [
  | inl p ↦ inr (subst (λ r. IsIn r (x ∷ xs)) (sym (least_lt best x xs p)) (least-IsIn x xs))
  | inr p ↦ elim (least-IsIn best xs) [
    | inl q ↦ inl (least_ge best x xs p ∙ q)
    | inr q ↦ inr (inr (subst (λ r. IsIn r xs) (sym (least_ge best x xs p)) q))
  ]
]

IsLeast-spoken :
    (t : ParticipantTally) (ts : List ParticipantTally)
    → IsLeast t ts
    → All (λ o. t.spoken_ms ≤ o.spoken_ms) ts
IsLeast-spoken t [] h = tt
IsLeast-spoken t (o ∷ ts) h = (key_lt_spoken o t h.0, IsLeast-spoken t ts h.1)

-- The tally that `pick` chose, with what makes it the choice.
pick_lem :
    (ts : List ParticipantTally) {u : Uuid}
    → pick ts ≡ some u
    → (t : ParticipantTally) × IsIn t ts × (t.user_id ≡ u) × IsLeast t ts
pick_lem [] h = cc
pick_lem (t ∷ ts) h = (least key_lt t ts, least-IsIn t ts, cc h, least-IsLeast t ts)

-- Who may be picked: everybody present but the last speaker, or everybody present if that leaves
-- nobody.
abbrev pub candidates : Option Uuid → Tallies → List ParticipantTally
candidates last d = if is_nonempty (others last d) then others last d else eligible d

select_pick :
    (d : Tallies) (last : Option Uuid) → select_next_speaker d last ≡ pick (candidates last d)
unfolding select_next_speaker
select_pick d last = elim (Bool-cases (is_nonempty (others last d))) [ inl h ↦ rw h | inr h ↦ rw h ]

-- The speaker that is picked is a candidate, that is, present and not the last speaker, unless nobody
-- else is present. No candidate's key (speaking time, turns, name) is below the picked one's, and no
-- candidate has spoken for less time; the last speaker may have.
pub select_fair :
    (d : Tallies) (last : Option Uuid) {u : Uuid}
    → select_next_speaker d last ≡ some u
    → (t : ParticipantTally) × IsIn t (candidates last d)
      × (t.user_id ≡ u)
      × All (λ o. key_lt o t ≡ false) (candidates last d)
      × All (λ o. t.spoken_ms ≤ o.spoken_ms) (candidates last d)
select_fair d last h =
    let (t, mem, e, low) = pick_lem (candidates last d) (sym (select_pick d last) ∙ h) in
    (t, mem, e, low, IsLeast-spoken t (candidates last d) low)

filter_by-IsIn :
    {A : Type 0} (p : A → Bool) (x : A) (xs : List A)
    → IsIn x (filter_by p xs)
    → IsIn x xs × (p x ≡ true)
filter_by-IsIn p x [] h = absurd h
filter_by-IsIn p x (y ∷ ys) h = keep (filter_by-IsIn p x ys) (p y) refl h
  where
    keep :
        (IsIn x (filter_by p ys) → IsIn x ys × (p x ≡ true))
        → (b : Bool) → p y ≡ b
        → IsIn x (if b then y ∷ filter_by p ys else filter_by p ys)
        → (x ≡ y ⊎ IsIn x ys) × (p x ≡ true)
    keep ih true e (inl q) = (inl q, rw q e)
    keep ih true e (inr q) = let (m, k) = ih q in (inr m, k)
    keep ih false e q = let (m, k) = ih q in (inr m, k)

IsIn-filter_by :
    {A : Type 0} (p : A → Bool) (x : A) (xs : List A)
    → IsIn x xs
    → p x ≡ true
    → IsIn x (filter_by p xs)
IsIn-filter_by p x [] h k = absurd h
IsIn-filter_by p x (y ∷ ys) (inl e) k = let e' : p y ≡ true = rw (← e) k in rw e' (inl e)
IsIn-filter_by p x (y ∷ ys) (inr m) k = elim (Bool-cases (p y)) [
  | inl e ↦ rw e (inr (IsIn-filter_by p x ys m k))
  | inr e ↦ rw e (IsIn-filter_by p x ys m k)
]

nonempty_of_IsIn : {A : Type 0} (x : A) (xs : List A) → IsIn x xs → is_nonempty xs ≡ true
nonempty_of_IsIn x [] h = absurd h
nonempty_of_IsIn x (y ∷ ys) h = refl

pick-some : (ts : List ParticipantTally) → is_nonempty ts ≡ true → (u : Uuid) × (pick ts ≡ some u)
pick-some [] h = cc
pick-some (t ∷ ts) h = ((least key_lt t ts).user_id, refl)

-- Whoever is picked among the others is not the last speaker.
pick-others :
    (d : Tallies) (last : Option Uuid) {u : Uuid}
    → pick (others last d) ≡ some u
    → holds_id u last ≡ false
unfolding others
pick-others d last h =
    let (t, mem, e, low) = pick_lem (others last d) h in
    let kept = filter_by-IsIn (λ o. not (holds_id o.user_id last)) t (eligible d) mem in
    rw (← e) (ground (arith, kept.1))

-- While somebody other than the last speaker it is given is present, `select_next_speaker` picks
-- somebody, and not that speaker.
pub select_no_repeat :
    (d : Tallies) (last : Option Uuid) (t : ParticipantTally)
    → IsIn t (eligible d)
    → holds_id t.user_id last ≡ false
    → (u : Uuid) × (select_next_speaker d last ≡ some u) × (holds_id u last ≡ false)
unfolding others
select_no_repeat d last t present other =
    let mem =
      IsIn-filter_by (λ o. not (holds_id o.user_id last)) t (eligible d) present (rw other) in
    let full : is_nonempty (others last d) ≡ true = nonempty_of_IsIn t (others last d) mem in
    let (u, e) = pick-some (others last d) full in
    (u, select_pick d last ∙ rw full e, pick-others d last e)

pick-none : (ts : List ParticipantTally) → pick ts ≡ none → ts ≡ []
pick-none [] h = refl
pick-none (t ∷ ts) h = cc

-- Nobody is picked exactly when nobody is present.
pub select_none :
    (d : Tallies) (last : Option Uuid) → (select_next_speaker d last ≡ none) ↔ (eligible d ≡ [])
unfolding others
select_none d last = (
  λ h. elim (Bool-cases (is_nonempty (others last d))) [
    | inl full ↦
        let (u, e) = pick-some (others last d) full in cc (h, e, rw full at (select_pick d last))
    | inr empty ↦ pick-none (eligible d) (sym (rw empty at (select_pick d last)) ∙ h)
  ],
  λ h. select_pick d last ∙ rw h,
)
