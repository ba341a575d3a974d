-- ===== src/Domain/Ledger/Accounting.antt =====
-- What the ledger counts: speaking time, turns and who is present (backend/app/domain/ledger.py).
use gd_classroom.Prelude.{
  ℕ, ◌+◌, ◌≤◌, ◌≡◌, refl, ◌↔◌, true, ◌&&◌, List, [], ◌∷◌, map, leb, if◌then◌else◌, get, is_nonempty,
  all_of, All, is_some, inl, inr, ◌==◌, Bool-cases, Uuid, ℤ, pos_part, arith,
}
use gd_classroom.Domain.Ledger.{
  ParticipantTally, Tallies, add_speech, total_ms, eligible, min_of, min_or_zero, min_turns,
  everyone_has_spoken,
}

-- A turn of somebody on the ledger raises the total by its length, and by nothing if the length is
-- negative; a turn of anybody else changes nothing.
pub total_ms-add_speech :
    (u : Uuid) (ms : ℤ) (d : Tallies)
    → total_ms (add_speech u ms d)
      ≡ total_ms d + (if is_some (get u.value d) then pos_part ms else 0)
unfolding total_ms add_speech
total_ms-add_speech u ms [] = omega arith
total_ms-add_speech u ms ((j, w) ∷ d) = elim (Bool-cases (u.value == j)) [
  | inl h ↦ rw h (omega arith)
  | inr h ↦ rw h (omega (arith, total_ms-add_speech u ms d))
]

min_of_iff : (m x : ℕ) (xs : List ℕ) → (m ≤ min_of x xs) ↔ ((m ≤ x) × All (λ y. m ≤ y) xs)
min_of_iff m x [] = (λ h. (h, tt), λ h. h.0)
min_of_iff m x (y ∷ ys) =
    let (to, from) = min_of_iff m y ys in
    (
      λ h. let low = to (omega arith) in (omega arith, low),
      λ h. let low : m ≤ min_of y ys = from (h.1.0, h.1.1) in omega arith,
    )

All-turns_iff :
    (m : ℕ) (ts : List ParticipantTally)
    → (all_of (λ t. leb m t.turns_taken) ts ≡ true) ↔ All (λ y. m ≤ y) (map (λ t. t.turns_taken) ts)
All-turns_iff m [] = (λ h. tt, λ h. refl)
All-turns_iff m (t ∷ ts) =
    let (to, from) = All-turns_iff m ts in
    (λ h. (ground arith, to (ground arith)), λ h. let r = from h.1 in ground (arith, h.0))

spoken_iff :
    (m : ℕ) (ts : List ParticipantTally)
    → ((is_nonempty ts && all_of (λ t. leb m t.turns_taken) ts) ≡ true)
      ↔ ((is_nonempty ts ≡ true) × (m ≤ min_or_zero (map (λ t. t.turns_taken) ts)))
spoken_iff m [] = (λ h. cc, λ h. cc)
spoken_iff m (t ∷ ts) = (
  λ h. (refl, (min_of_iff m t.turns_taken _).1 ((All-turns_iff m (t ∷ ts)).0 h)),
  λ h. (All-turns_iff m (t ∷ ts)).1 ((min_of_iff m t.turns_taken _).0 h.1),
)

-- Everyone has taken `m` turns exactly when somebody is present and the least number of turns is
-- `m` or more.
pub everyone-min_turns :
    (m : ℕ) (d : Tallies)
    → (everyone_has_spoken m d ≡ true) ↔ ((is_nonempty (eligible d) ≡ true) × (m ≤ min_turns d))
unfolding everyone_has_spoken min_turns
everyone-min_turns m d = spoken_iff m (eligible d)
