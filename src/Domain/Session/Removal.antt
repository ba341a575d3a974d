-- ===== src/Domain/Session/Removal.antt =====
-- Whoever was removed from a discussion stays out (backend/app/domain/session.py).
use gd_classroom.Prelude.{
  ℕ, ◌≡◌, refl, sym, ap, ◌∙◌, ◌≢◌, ◌⊎◌, inl, inr, true, false, Option, none, some, List, [], ◌∷◌,
  ◌==◌, Dict, modify, get, get-modify, Uuid, Bool-cases, ==_refl, arith,
}
use gd_classroom.Domain.Enums.{ParticipantConnection}
use gd_classroom.Domain.Session.{
  ParticipantState, DiscussionSession, is_removed, connect_found, disconnect_found, remove_found,
  mark_connected, mark_disconnected, mark_removed,
}
use gd_classroom.Domain.Session.Roster.{Mark, connect, disconnect, remove, apply_mark}

unfoldable pub apply_marks : List Mark → DiscussionSession → DiscussionSession
apply_marks [] s = s
apply_marks (m ∷ ms) s = apply_marks ms (apply_mark m s)

-- The seat `k` is held by somebody who was removed.
abbrev pub IsOut : ℕ → DiscussionSession → Type 0
IsOut k s = (p : ParticipantState) × (get k s.participants ≡ some p) × (is_removed p ≡ true)

-- An update of a seat other than `k`, or one that leaves the seat removed, keeps `k` out.
modify-IsOut :
    (k j : ℕ) (f : ParticipantState → ParticipantState) (d : Dict ParticipantState)
    (p : ParticipantState)
    → get k d ≡ some p
    → is_removed p ≡ true
    → (k ≢ j) ⊎ (is_removed (f p) ≡ true)
    → (q : ParticipantState) × (get k (modify j f d) ≡ some q) × (is_removed q ≡ true)
modify-IsOut k j f d p e r (inl ne) = (p, ground (arith, get-modify k j f d), r)
modify-IsOut k j f d p e r (inr keep) = elim (Bool-cases (k == j)) [
  | inl same ↦ (f p, get-modify k j f d ∙ rw (same, e), keep)
  | inr other ↦ (p, get-modify k j f d ∙ rw (other, e), r)
]

-- A seat that is found and not removed is another than one that is out.
out_ne :
    (k j : ℕ) (d : Dict ParticipantState) (p q : ParticipantState)
    → get k d ≡ some p
    → is_removed p ≡ true
    → get j d ≡ some q
    → is_removed q ≡ false
    → k ≢ j
out_ne k j d p q e r e' r' same =
    let both : some p ≡ some q = sym e ∙ ap (λ i. get i d) same ∙ e' in
    let one : p ≡ q = cc in let clash : true ≡ false = sym r ∙ ap is_removed one ∙ r' in cc

connect_found-IsOut :
    (now : ℕ) (u : Uuid) (o : Option ParticipantState) (k : ℕ) (s : DiscussionSession)
    → get u.value s.participants ≡ o
    → IsOut k s
    → IsOut k (connect_found now u o s)
unfolding connect_found
connect_found-IsOut now u none k s e h = h
connect_found-IsOut now u (some q) k s e (p, f, out) = elim (Bool-cases (is_removed q)) [
  | inl r ↦ rw r (p, f, out)
  | inr r ↦ rw r (
      modify-IsOut k u.value _ s.participants p f out
        (inl (out_ne k u.value s.participants p q f out e r)))
]

disconnect_found-IsOut :
    (now : ℕ) (u : Uuid) (o : Option ParticipantState) (k : ℕ) (s : DiscussionSession)
    → get u.value s.participants ≡ o
    → IsOut k s
    → IsOut k (disconnect_found now u o s)
unfolding disconnect_found
disconnect_found-IsOut now u none k s e h = h
disconnect_found-IsOut now u (some q) k s e (p, f, out) = elim (Bool-cases (is_removed q)) [
  | inl r ↦ rw r (p, f, out)
  | inr r ↦ rw r (
      modify-IsOut k u.value _ s.participants p f out
        (inl (out_ne k u.value s.participants p q f out e r)))
]

remove_found-IsOut :
    (now : ℕ) (u : Uuid) (o : Option ParticipantState) (k : ℕ) (s : DiscussionSession)
    → IsOut k s
    → IsOut k (remove_found now u o s)
unfolding remove_found
remove_found-IsOut now u none k s h = h
remove_found-IsOut now u (some q) k s (p, f, out) =
    modify-IsOut k u.value _ s.participants p f out (inr refl)

apply_mark-IsOut : (m : Mark) (k : ℕ) (s : DiscussionSession) → IsOut k s → IsOut k (apply_mark m s)
unfolding apply_mark mark_connected mark_disconnected mark_removed
apply_mark-IsOut (connect now u) k s h =
    connect_found-IsOut now u (get u.value s.participants) k s refl h
apply_mark-IsOut (disconnect now u) k s h =
    disconnect_found-IsOut now u (get u.value s.participants) k s refl h
apply_mark-IsOut (remove now u) k s h = remove_found-IsOut now u (get u.value s.participants) k s h

-- Removal is final: whoever was removed stays removed through any connections, disconnections and
-- removals that follow.
pub removal_is_final :
    (ms : List Mark) (k : ℕ) (s : DiscussionSession) → IsOut k s → IsOut k (apply_marks ms s)
unfolding apply_marks
removal_is_final [] k s h = h
removal_is_final (m ∷ ms) k s h = removal_is_final ms k (apply_mark m s) (apply_mark-IsOut m k s h)

-- Removing somebody who has a seat puts them out.
pub mark_removed-IsOut :
    (now : ℕ) (u : Uuid) (p : ParticipantState) (s : DiscussionSession)
    → get u.value s.participants ≡ some p
    → IsOut u.value (mark_removed now u s)
unfolding mark_removed remove_found
mark_removed-IsOut now u p s e =
    let gone : ParticipantState = record p {
      connection = ParticipantConnection.removed;
      disconnected_at = some now;
    } in
    rw e (gone, get-modify u.value u.value _ s.participants ∙ rw (==_refl u.value, e), refl)
