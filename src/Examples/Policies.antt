-- ===== src/Examples/Policies.antt =====
-- Ledgers, state machines and texts (backend/app/domain) at which the theorems are applied.
use gd_classroom.Prelude.{
  ◌≤◌, ◌<◌, ◌≡◌, refl, inl, inr, false, none, some, [], ◌∷◌, ◌++◌, length, drop, get, All, IsIn,
  codes, Uuid, holds_id, arith,
}
use gd_classroom.Domain.Enums.{
  ClassroomStatus, ClassroomStatus-discrete, SessionStatus, SessionStatus-discrete,
}
use gd_classroom.Domain.Ledger.{
  ParticipantTally, Tallies, fresh_tally, eligible, key_lt, select_next_speaker,
}
use gd_classroom.Domain.Ledger.Fairness.{candidates, select_fair, select_no_repeat}
use gd_classroom.Domain.TurnPolicy.{default_budget, decide_follow_up, word_count}
use gd_classroom.Domain.TurnPolicy.Decisions.{follow_up_within_rules}
use gd_classroom.Domain.StateMachines.{
  next, ClassroomEvent, ClassroomEvent-discrete, classroom_fsm, SessionEvent, SessionEvent-discrete,
  session_fsm,
}
use gd_classroom.Domain.StateMachines.Lives.{Runs, here, step, session_life_bounded}
use gd_classroom.Domain.Privacy.{
  Matcher, Pattern, PersonalInfoKind, redaction, slice, find_all, find_personal_information, redact,
  is_accepted,
}
use gd_classroom.Domain.Privacy.Spans.{IsApart, find-IsApart}
use gd_classroom.Domain.Privacy.Redaction.{redact-overlap}
use gd_classroom.Examples.People.{alice, bob, matcher}

-- Alice has spoken for a minute, Bob has not.
abbrev tally_of_alice : ParticipantTally
tally_of_alice = record (fresh_tally alice (codes "Alice")) { spoken_ms = 60000; turns_taken = 1 }

abbrev tally_of_bob : ParticipantTally
tally_of_bob = fresh_tally bob (codes "Bob")

abbrev tallies : Tallies
tallies = (1, tally_of_alice) ∷ (2, tally_of_bob) ∷ []

select_fair_example :
    (t : ParticipantTally) × IsIn t (candidates (some alice) tallies)
    × (t.user_id ≡ bob)
    × All (λ o. key_lt o t ≡ false) (candidates (some alice) tallies)
    × All (λ o. t.spoken_ms ≤ o.spoken_ms) (candidates (some alice) tallies)
unfolding select_next_speaker
select_fair_example = select_fair tallies (some alice) refl

select_no_repeat_example :
    (u : Uuid) × (select_next_speaker tallies (some alice) ≡ some u)
    × (holds_id u (some alice) ≡ false)
unfolding eligible
select_no_repeat_example = select_no_repeat tallies (some alice) tally_of_bob (inr (inl refl)) refl

follow_up_within_rules_example :
    (t : ParticipantTally) × (get 2 tallies ≡ some t)
    × (t.follow_ups_received < default_budget.max_follow_ups_per_participant)
    × (100 ≤ default_budget.target_seconds)
    × (0 < word_count (codes "Tea."))
unfolding decide_follow_up
follow_up_within_rules_example =
    follow_up_within_rules (λ text. text) (codes "Tea.") tallies bob default_budget 100 none refl

session_runs :
    Runs session_fsm SessionStatus.pending
      (SessionEvent.participant_joining ∷ SessionEvent.all_connected ∷ SessionEvent.host_ended
        ∷ SessionEvent.summary_done ∷ [])
      SessionStatus.ended
unfolding next SessionStatus-discrete SessionEvent-discrete
session_runs = step SessionEvent.participant_joining refl (
    step SessionEvent.all_connected refl
      (step SessionEvent.host_ended refl (step SessionEvent.summary_done refl here)))

session_life_bounded_example :
    length (
      SessionEvent.participant_joining ∷ SessionEvent.all_connected ∷ SessionEvent.host_ended
      ∷ SessionEvent.summary_done ∷ [])
    ≤ 4
session_life_bounded_example = session_life_bounded SessionStatus.pending session_runs

classroom_runs :
    Runs classroom_fsm ClassroomStatus.draft
      (ClassroomEvent.invitations_sent ∷ ClassroomEvent.quorum_reached ∷ ClassroomEvent.started
        ∷ ClassroomEvent.session_ended ∷ [])
      ClassroomStatus.completed
unfolding next ClassroomStatus-discrete ClassroomEvent-discrete
classroom_runs = step ClassroomEvent.invitations_sent refl (
    step ClassroomEvent.quorum_reached refl
      (step ClassroomEvent.started refl (step ClassroomEvent.session_ended refl here)))

find-IsApart_example : IsApart 0 (find_personal_information matcher (codes "a@b.c"))
find-IsApart_example = find-IsApart matcher (codes "a@b.c")

-- An address and a telephone number that overlap.
abbrev overlapping : Matcher
overlapping = record {
  find_iter = λ p text. elim p [
    | Pattern.disclosed_id ↦ record { start = 0; end = 4 } ∷ []
    | Pattern.spoken_digits ↦ record { start = 2; end = 7 } ∷ []
    | _ ↦ []
  ];
  is_decimal_looking = λ text. false;
  is_digit = λ c. false;
}

redact-overlap_example :
    redact overlapping (codes "id 123 456 yes")
    ≡ slice 0 0 (codes "id 123 456 yes") ++ (redaction ++ drop 4 (codes "id 123 456 yes"))
unfolding find_all is_accepted
redact-overlap_example =
    redact-overlap overlapping (codes "id 123 456 yes")
      (record { kind = PersonalInfoKind.identifier; start = 0; end = 4 })
      (record { kind = PersonalInfoKind.phone; start = 2; end = 7 }) refl (omega arith)
      (omega arith) (omega arith)
