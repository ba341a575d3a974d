-- ===== src/Domain/TurnPolicy.antt =====
-- What the moderator does next: backend/app/domain/turn_policy.py, with the `Assessment` of
-- backend/app/domain/ports.py that it reads.
pub mod Decisions
use gd_classroom.Prelude.{
  ℕ, ◌/◌, max, Bool, true, false, not, ◌&&◌, Option, none, some, List, [], ◌∷◌, ltb, leb, ◌==◌,
  if◌then◌else◌, get, any_of, length, Text, codes, count_words, text_eq, is_within, Uuid,
}
use gd_classroom.Domain.Enums.{EndReason}
use gd_classroom.Domain.Ledger.{ParticipantTally, Tallies, eligible, min_turns, everyone_has_spoken}

pub record Assessment : Type 0 where
  pub substance : ℕ
  pub engaged_with_prior : Bool
  pub needs_follow_up : Bool
  pub follow_up_reason : Text
  pub note : Text
  pub tier : Text

pub record DiscussionBudget : Type 0 where
  pub target_seconds : ℕ
  pub max_seconds : ℕ
  pub min_turns_per_participant : ℕ
  pub turn_max_seconds : ℕ
  pub max_follow_ups_per_participant : ℕ
  pub max_silent_turns : ℕ

-- `DiscussionBudget()`
abbrev pub default_budget : DiscussionBudget
default_budget = record {
  target_seconds = 1500;
  max_seconds = 2700;
  min_turns_per_participant = 2;
  turn_max_seconds = 90;
  max_follow_ups_per_participant = 2;
  max_silent_turns = 3;
}

pub record FollowUpDecision : Type 0 where
  pub should_follow_up : Bool
  pub reason : Text

abbrev pub thin_answer_words : ℕ
thin_answer_words = 25

abbrev pub full_answer_words : ℕ
full_answer_words = 110

abbrev pub unsupported_markers : List Text
unsupported_markers =
    codes "better"
    ∷ codes "worse"
    ∷ codes "best"
    ∷ codes "worst"
    ∷ codes "always"
    ∷ codes "never"
    ∷ codes "should"
    ∷ codes "shouldn't"
    ∷ codes "faster"
    ∷ codes "slower"
    ∷ codes "cheaper"
    ∷ []

unfoldable pub word_count : Text → ℕ
unfolding count_words
word_count text = count_words false text

abbrev decision : Bool → Text → FollowUpDecision
decision b r = record { should_follow_up = b; reason = r }

-- The reason of an assessment, "unclear" where it says "none".
abbrev pub assessed_reason : Text → Text
assessed_reason r = if text_eq r (codes "none") then codes "unclear" else r

-- The part that counts words and looks for claims; `lower` is `str.lower`.
unfoldable pub decide_by_words : (Text → Text) → Text → ℕ → FollowUpDecision
unfolding is_within
decide_by_words lower answer words =
    if ltb words thin_answer_words
    then decision true (codes "answer_too_thin")
    else if ltb full_answer_words words
    then decision false (codes "answer_already_complete")
    else if any_of (λ marker. is_within marker (lower answer)) unsupported_markers
    then decision true (codes "unsupported_claim")
    else decision false (codes "answer_sufficient")

unfoldable pub decide_by_assessment : (Text → Text) → Text → Option Assessment → FollowUpDecision
unfolding decide_by_words word_count text_eq
decide_by_assessment lower answer none = decide_by_words lower answer (word_count answer)
decide_by_assessment lower answer (some a) =
    if not a.needs_follow_up
    then decision false (codes "assessed_sufficient")
    else decision true (assessed_reason a.follow_up_reason)

-- The rules on the discussion come first, by the speaker's tally.
unfoldable pub decide_for_tally :
    (Text → Text)
    → Text
    → DiscussionBudget
    → ℕ
    → Option Assessment
    → ParticipantTally
    → FollowUpDecision
unfolding decide_by_assessment
decide_for_tally lower answer budget elapsed_seconds assessment tally =
    if leb budget.max_follow_ups_per_participant tally.follow_ups_received
    then decision false (codes "follow_up_quota_reached")
    else if ltb budget.target_seconds elapsed_seconds
    then decision false (codes "time_budget_spent")
    else if word_count answer == 0
    then decision false (codes "empty_answer")
    else decide_by_assessment lower answer assessment

unfoldable pub decide_follow_up :
    (Text → Text)
    → Text
    → Tallies
    → Uuid
    → DiscussionBudget
    → ℕ
    → Option Assessment
    → FollowUpDecision
unfolding decide_for_tally
decide_follow_up lower answer ledger speaker_id budget elapsed_seconds assessment =
    elim (get speaker_id.value ledger) [
      | none ↦ decision false (codes "unknown_speaker")
      | some tally ↦ decide_for_tally lower answer budget elapsed_seconds assessment tally
    ]

-- The pair of a verdict and a reason: the reason is empty when the verdict is no, so it is an
-- option here.
unfoldable pub should_close : Tallies → DiscussionBudget → ℕ → ℕ → Option EndReason
unfolding eligible everyone_has_spoken
should_close ledger budget elapsed_seconds consecutive_silent_turns =
    if leb budget.max_seconds elapsed_seconds
    then some EndReason.time_limit
    else if ltb (length (eligible ledger)) 2
    then some EndReason.not_enough_participants
    else if leb budget.max_silent_turns consecutive_silent_turns
    then some EndReason.nobody_spoke
    else if everyone_has_spoken budget.min_turns_per_participant ledger
        && leb budget.target_seconds elapsed_seconds
    then some EndReason.completed
    else none

unfoldable pub turn_deadline_seconds : DiscussionBudget → Tallies → ℕ
unfolding min_turns
turn_deadline_seconds budget ledger =
    if leb budget.min_turns_per_participant (min_turns ledger)
    then max 30 (budget.turn_max_seconds / 2)
    else budget.turn_max_seconds
