-- ===== src/Domain/Session/Roster.antt =====
-- The roster and the ledger of a session agree on who is present (backend/app/domain/session.py).
use gd_classroom.Prelude.{
  ℕ, ◌≡◌, refl, inl, inr, Bool, true, false, Option, none, some, [], ◌∷◌, Dict, put, set_default,
  modify, values, get, filter_by, length, Text, Uuid, Bool-cases, arith,
}
use gd_classroom.Domain.Enums.{ParticipantConnection}
use gd_classroom.Domain.Ledger.{ParticipantTally, Tallies, fresh_tally, set_connected, eligible}
use gd_classroom.Domain.Session.{
  ParticipantState, DiscussionSession, is_present, is_removed, is_connected, fresh_participant,
  connect_found, disconnect_found, remove_found, set_absent, add_participant, mark_connected,
  mark_disconnected, mark_removed, connected_count,
}

-- Row by row the two dicts have one key, and the tally counts as connected exactly when the
-- participant is present.
abbrev pub Agree : Dict ParticipantState → Tallies → Type 0
Agree [] [] = Unit
Agree [] (t ∷ ts) = ⊥
Agree (p ∷ ps) [] = ⊥
Agree ((i, p) ∷ ps) ((j, t) ∷ ts) = (i ≡ j) × (t.connected ≡ is_present p) × Agree ps ts

abbrev pub IsAligned : DiscussionSession → Type 0
IsAligned s = Agree s.participants s.ledger

Agree-add :
    (k : ℕ) (p : ParticipantState) (t : ParticipantTally) (ps : Dict ParticipantState)
    (ts : Tallies)
    → is_present p ≡ false
    → Agree ps ts
    → Agree (put k p ps) (modify k (λ r. record r { connected = false }) (set_default k t ts))
Agree-add k p t [] [] e h = ground arith
Agree-add k p t [] (y ∷ ts) e h = absurd h
Agree-add k p t (x ∷ ps) [] e h = absurd h
Agree-add k p t ((i, x) ∷ ps) ((j, y) ∷ ts) e h = ground (arith, Agree-add k p t ps ts e h.2)

pub add_participant-IsAligned :
    (u : Uuid) (name : Text) (seat : ℕ) (s : DiscussionSession)
    → IsAligned s
    → IsAligned (add_participant u name seat s)
unfolding add_participant
add_participant-IsAligned u name seat s h =
    Agree-add u.value (fresh_participant u name seat) (fresh_tally u name) s.participants s.ledger
      refl h

-- Two updates at one key that leave the row in agreement.
Agree-modify :
    (k : ℕ) (f : ParticipantState → ParticipantState) (b : Bool) (ps : Dict ParticipantState)
    (ts : Tallies)
    → ((p : ParticipantState) → is_present (f p) ≡ b)
    → Agree ps ts
    → Agree (modify k f ps) (modify k (λ r. record r { connected = b }) ts)
Agree-modify k f b [] [] e h = tt
Agree-modify k f b [] (y ∷ ts) e h = absurd h
Agree-modify k f b (x ∷ ps) [] e h = absurd h
Agree-modify k f b ((i, x) ∷ ps) ((j, y) ∷ ts) e h =
    ground (arith, Agree-modify k f b ps ts e h.2, e x)

-- Something that has happened to a seat.
pub data Mark : Type 0 where
  connect disconnect remove : ℕ → Uuid → Mark

unfoldable pub apply_mark : Mark → DiscussionSession → DiscussionSession
apply_mark (connect now u) = mark_connected now u
apply_mark (disconnect now u) = mark_disconnected now u
apply_mark (remove now u) = mark_removed now u

-- An update of a tally that leaves its connection alone.
pub Agree-modify_tally :
    (k : ℕ) (f : ParticipantTally → ParticipantTally) (ps : Dict ParticipantState) (ts : Tallies)
    → ((t : ParticipantTally) → (f t).connected ≡ t.connected)
    → Agree ps ts
    → Agree ps (modify k f ts)
Agree-modify_tally k f [] [] e h = tt
Agree-modify_tally k f [] (y ∷ ts) e h = absurd h
Agree-modify_tally k f (x ∷ ps) [] e h = absurd h
Agree-modify_tally k f ((i, x) ∷ ps) ((j, y) ∷ ts) e h =
    ground (arith, Agree-modify_tally k f ps ts e h.2, e y)

set_absent-IsAligned :
    (how : ParticipantConnection) (now : ℕ) (u : Uuid) (s : DiscussionSession)
    → is_connected how ≡ false
    → IsAligned s
    → IsAligned (set_absent how now u s)
unfolding set_connected
set_absent-IsAligned how now u s e h =
    Agree-modify u.value _ false s.participants s.ledger (λ q. e) h

connect_found-IsAligned :
    (now : ℕ) (u : Uuid) (o : Option ParticipantState) (s : DiscussionSession)
    → IsAligned s
    → IsAligned (connect_found now u o s)
unfolding connect_found set_connected
connect_found-IsAligned now u none s h = h
connect_found-IsAligned now u (some p) s h = elim (Bool-cases (is_removed p)) [
  | inl r ↦ rw r h
  | inr r ↦ rw r (Agree-modify u.value _ true s.participants s.ledger (λ q. refl) h)
]

disconnect_found-IsAligned :
    (now : ℕ) (u : Uuid) (o : Option ParticipantState) (s : DiscussionSession)
    → IsAligned s
    → IsAligned (disconnect_found now u o s)
unfolding disconnect_found
disconnect_found-IsAligned now u none s h = h
disconnect_found-IsAligned now u (some p) s h = elim (Bool-cases (is_removed p)) [
  | inl r ↦ rw r h
  | inr r ↦ rw r (set_absent-IsAligned ParticipantConnection.disconnected now u s refl h)
]

remove_found-IsAligned :
    (now : ℕ) (u : Uuid) (o : Option ParticipantState) (s : DiscussionSession)
    → IsAligned s
    → IsAligned (remove_found now u o s)
unfolding remove_found
remove_found-IsAligned now u none s h = h
remove_found-IsAligned now u (some p) s h =
    set_absent-IsAligned ParticipantConnection.removed now u s refl h

-- Every mark keeps the roster and the ledger in agreement.
pub apply_mark-IsAligned :
    (m : Mark) (s : DiscussionSession) → IsAligned s → IsAligned (apply_mark m s)
unfolding apply_mark mark_connected mark_disconnected mark_removed
apply_mark-IsAligned (connect now u) s h =
    connect_found-IsAligned now u (get u.value s.participants) s h
apply_mark-IsAligned (disconnect now u) s h =
    disconnect_found-IsAligned now u (get u.value s.participants) s h
apply_mark-IsAligned (remove now u) s h =
    remove_found-IsAligned now u (get u.value s.participants) s h

-- `s` with the roster and the ledger of `t`.
abbrev pub with_people : DiscussionSession → DiscussionSession → DiscussionSession
with_people t s = record s { participants = t.participants; ledger = t.ledger }

connect_frame :
    (now : ℕ) (u : Uuid) (o : Option ParticipantState) (s : DiscussionSession)
    → connect_found now u o s ≡ with_people (connect_found now u o s) s
unfolding connect_found
connect_frame now u none s = refl
connect_frame now u (some p) s = elim (Bool-cases (is_removed p)) [ inl r ↦ rw r | inr r ↦ rw r ]

disconnect_frame :
    (now : ℕ) (u : Uuid) (o : Option ParticipantState) (s : DiscussionSession)
    → disconnect_found now u o s ≡ with_people (disconnect_found now u o s) s
unfolding disconnect_found
disconnect_frame now u none s = refl
disconnect_frame now u (some p) s = elim (Bool-cases (is_removed p)) [ inl r ↦ rw r | inr r ↦ rw r ]

remove_frame :
    (now : ℕ) (u : Uuid) (o : Option ParticipantState) (s : DiscussionSession)
    → remove_found now u o s ≡ with_people (remove_found now u o s) s
unfolding remove_found
remove_frame now u none s = refl
remove_frame now u (some p) s = refl

-- A mark changes the roster and the ledger only.
pub apply_mark_frame :
    (m : Mark) (s : DiscussionSession) → apply_mark m s ≡ with_people (apply_mark m s) s
unfolding apply_mark mark_connected mark_disconnected mark_removed
apply_mark_frame (connect now u) s = connect_frame now u (get u.value s.participants) s
apply_mark_frame (disconnect now u) s = disconnect_frame now u (get u.value s.participants) s
apply_mark_frame (remove now u) s = remove_frame now u (get u.value s.participants) s

Agree-count :
    (ps : Dict ParticipantState) (ts : Tallies)
    → Agree ps ts
    → length (filter_by is_present (values ps))
      ≡ length (filter_by (λ (t : ParticipantTally). t.connected) (values ts))
Agree-count [] [] h = refl
Agree-count [] (y ∷ ts) h = absurd h
Agree-count (x ∷ ps) [] h = absurd h
Agree-count ((i, x) ∷ ps) ((j, y) ∷ ts) h = ground (arith, Agree-count ps ts h.2)

-- The number of people present, by which the runner closes, is the number of eligible tallies, by
-- which the policy closes.
pub connected_count-eligible :
    (s : DiscussionSession) → IsAligned s → connected_count s ≡ length (eligible s.ledger)
unfolding connected_count eligible
connected_count-eligible s h = Agree-count s.participants s.ledger h
