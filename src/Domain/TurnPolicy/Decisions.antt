-- ===== src/Domain/TurnPolicy/Decisions.antt =====
-- What the decisions of backend/app/domain/turn_policy.py promise.
use gd_classroom.Prelude.{
  ℕ, ◌≤◌, ◌<◌, ◌≡◌, refl, ◌↔◌, ◌⊎◌, List, [], ◌∷◌, true, Option, none, some, get, length, Text,
  Uuid, is_nonempty, arith,
}
use gd_classroom.Domain.Ledger.{ParticipantTally, Tallies, eligible, min_turns}
use gd_classroom.Domain.Ledger.Accounting.{everyone-min_turns}
use gd_classroom.Domain.TurnPolicy.{
  Assessment, DiscussionBudget, word_count, decide_for_tally, decide_follow_up, should_close,
  turn_deadline_seconds,
}

for_tally_within_rules :
    (lower : Text → Text) (answer : Text) (b : DiscussionBudget) (elapsed : ℕ)
    (a : Option Assessment) (t : ParticipantTally)
    → (decide_for_tally lower answer b elapsed a t).should_follow_up ≡ true
    → (t.follow_ups_received < b.max_follow_ups_per_participant)
      × (elapsed ≤ b.target_seconds)
      × (0 < word_count answer)
unfolding decide_for_tally
for_tally_within_rules lower answer b elapsed a t h = ground arith

filled : {A : Type 0} (xs : List A) → 2 ≤ length xs → is_nonempty xs ≡ true
filled [] h = absurd (omega arith)
filled (x ∷ xs) h = refl

-- A follow-up is asked only of somebody on the ledger who has quota left, while the target time is
-- not over, after an answer with a word in it. No assessment changes that.
pub follow_up_within_rules :
    (lower : Text → Text) (answer : Text) (d : Tallies) (u : Uuid) (b : DiscussionBudget)
    (elapsed : ℕ) (a : Option Assessment)
    → (decide_follow_up lower answer d u b elapsed a).should_follow_up ≡ true
    → (t : ParticipantTally) × (get u.value d ≡ some t)
      × (t.follow_ups_received < b.max_follow_ups_per_participant)
      × (elapsed ≤ b.target_seconds)
      × (0 < word_count answer)
unfolding decide_follow_up
follow_up_within_rules lower answer d u b elapsed a h = known (get u.value d) refl
  where
    known :
        (o : Option ParticipantTally)
        → get u.value d ≡ o
        → (t : ParticipantTally) × (get u.value d ≡ some t)
          × (t.follow_ups_received < b.max_follow_ups_per_participant)
          × (elapsed ≤ b.target_seconds)
          × (0 < word_count answer)
    known none e = cc (rw (e, decide_follow_up) at h)
    known (some t) e =
        let (quota, time, words) =
          for_tally_within_rules lower answer b elapsed a t (rw (e, decide_follow_up) at h) in
        (t, e, quota, time, words)

-- The discussion goes on exactly while the hard limit is not reached, two people are present, the
-- silent turns in a row are few enough, and somebody is short of turns or the target time is not
-- reached.
pub should_close-none :
    (d : Tallies) (b : DiscussionBudget) (elapsed silent : ℕ)
    → (should_close d b elapsed silent ≡ none) ↔ (
        (elapsed < b.max_seconds)
        × (2 ≤ length (eligible d))
        × (silent < b.max_silent_turns)
        × ((min_turns d < b.min_turns_per_participant) ⊎ (elapsed < b.target_seconds)))
unfolding should_close
should_close-none d b elapsed silent = (
  λ h. ground (arith, everyone-min_turns b.min_turns_per_participant d, filled (eligible d)),
  λ h. ground (arith, everyone-min_turns b.min_turns_per_participant d),
)

-- With a turn of half a minute or more, the cap on a turn lies between thirty seconds and the full
-- turn, and it is the full turn while somebody is short of turns.
pub turn_deadline_bounds :
    (b : DiscussionBudget) (d : Tallies)
    → 30 ≤ b.turn_max_seconds
    → (30 ≤ turn_deadline_seconds b d)
      × (turn_deadline_seconds b d ≤ b.turn_max_seconds)
      × ((turn_deadline_seconds b d ≡ b.turn_max_seconds)
          ⊎ (b.min_turns_per_participant ≤ min_turns d))
unfolding turn_deadline_seconds
turn_deadline_bounds b d h = ground arith
