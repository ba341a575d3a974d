-- ===== src/Moderation/Soundness.antt =====
-- What holds of a live discussion between any two commands (the runner of
-- backend/app/modules/moderation/runner.py): its parts, kept by every method.
pub mod Handlers
pub mod Answers
pub mod Loop
use gd_classroom.Prelude.{
  ℕ, ◌≤◌, ◌≡◌, refl, inl, inr, Bool, true, false, Option, none, some, List, [], ◌∷◌, if◌then◌else◌,
  is_some, Bool-cases, Dict, length, length-append, Text, Uuid, strip, is_nonempty, ltb, tests,
}
use gd_classroom.Domain.Enums.{EndReason, TurnKind}
use gd_classroom.Domain.Ledger.{Tallies, add_speech, select_next_speaker}
use gd_classroom.Domain.Session.{
  ParticipantState, BufferedTurn, TurnRecord, record_turn, floor_held_ms,
}
use gd_classroom.Domain.Session.Roster.{Agree, Agree-modify_tally}
use gd_classroom.Domain.Session.Transcript.{Recorded, record_turn-IsRecorded}
use gd_classroom.Moderation.Commands.{Command}
use gd_classroom.Moderation.State.{Setup, World, Moment, Runner, queue_size, publish, submit}
use gd_classroom.Moderation.Turns.{
  is_active, is_closing, publish_release, release_floor, begin_closing, ask, close_or_ask,
  next_turn, grant_floor, record_answer, bank_turn, cancel_turn_timers, close_turn, close_nobody,
}

-- The voice plane forwards exactly the holder of the floor; the floor has a time of granting while
-- somebody holds it; the roster agrees with the ledger; the transcript is numbered from 1 and its end
-- is what the moderator is shown; the queue is bounded.
pub record Sound (plane holder : Option Uuid) (granted : Option ℕ) (roster : Dict ParticipantState)
    (ledger : Tallies) (buffered : List BufferedTurn) (recent : List TurnRecord) (index : ℕ)
    (queue : List Command) : Type 0 where
  pub floors : plane ≡ holder
  pub timed : is_some granted ≡ is_some holder
  pub aligned : Agree roster ledger
  pub recorded : Recorded buffered recent index
  pub bounded : length queue ≤ queue_size

abbrev pub IsSound : Runner → Type 0
IsSound r =
    Sound r.plane_floor r.session.floor_holder r.session.floor_granted_at r.session.participants
      r.session.ledger r.session.buffered_turns r.session.recent_turns r.session.turn_index r.queue

pub if-IsSound : (b : Bool) (x y : Runner) → IsSound x → IsSound y → IsSound (if b then x else y)
if-IsSound true x y h k = h
if-IsSound false x y h k = k

pub publish_release-IsSound :
    (o : Option Uuid) (r : Runner) → IsSound r → IsSound (publish_release o r)
unfolding publish
publish_release-IsSound none r h = h
publish_release-IsSound (some u) r h = h

pub release_floor-IsSound : (r : Runner) → IsSound r → IsSound (release_floor r)
unfolding release_floor
release_floor-IsSound r h = publish_release-IsSound r.session.floor_holder _ (record {
  floors = refl;
  timed = refl;
  aligned = h.aligned;
  recorded = h.recorded;
  bounded = h.bounded;
})

pub begin_closing-IsSound :
    (reason : EndReason) (r : Runner) → IsSound r → IsSound (begin_closing reason r)
unfolding begin_closing
begin_closing-IsSound reason r h = elim (Bool-cases (is_closing r.session.moderator_state)) [
  | inl e ↦ rw e h
  | inr e ↦ rw e (release_floor-IsSound _ h)
]

ask-IsSound : (o : Option Uuid) (r : Runner) → IsSound r → IsSound (ask o r)
unfolding ask
ask-IsSound none r h = begin_closing-IsSound EndReason.not_enough_participants r h
ask-IsSound (some u) r h = h

close_or_ask-IsSound : (o : Option EndReason) (r : Runner) → IsSound r → IsSound (close_or_ask o r)
unfolding close_or_ask
close_or_ask-IsSound (some reason) r h = begin_closing-IsSound reason r h
close_or_ask-IsSound none r h =
    ask-IsSound (select_next_speaker r.session.ledger r.session.last_speaker) r h

module _ (setup : Setup) (world : World) where
  pub next_turn-IsSound : (r : Runner) → IsSound r → IsSound (next_turn setup world r)
  unfolding next_turn
  next_turn-IsSound r h = elim (Bool-cases (is_active r.session.status)) [
    | inl e ↦ rw e (close_or_ask-IsSound _ r h)
    | inr e ↦ rw e h
  ]

  pub grant_floor-IsSound :
      (u : Uuid) (listen : Option ℕ) (r : Runner)
      → IsSound r
      → IsSound (grant_floor setup world u listen r)
  unfolding grant_floor
  grant_floor-IsSound u listen r h = record {
    floors = refl;
    timed = refl;
    aligned = h.aligned;
    recorded = h.recorded;
    bounded = h.bounded;
  }

  record_answer-IsSound :
      (u : Uuid) (clean : Text) (duration_ms : ℕ) (r : Runner)
      → IsSound r
      → IsSound (record_answer setup world u clean duration_ms r)
  unfolding record_answer record_turn
  record_answer-IsSound u clean duration_ms r h = record {
    floors = h.floors;
    timed = h.timed;
    aligned = h.aligned;
    recorded =
        record_turn-IsRecorded (world.now Moment.answering) TurnKind.answer clean (some u)
          duration_ms r.session h.recorded;
    bounded = h.bounded;
  }

  bank_turn-IsSound :
      (u : Uuid) (clean : Text) (duration_ms : ℕ) (r : Runner)
      → IsSound r
      → IsSound (bank_turn setup world u clean duration_ms r)
  unfolding bank_turn add_speech
  bank_turn-IsSound u clean duration_ms r h = record {
    floors = h.floors;
    timed = h.timed;
    aligned =
        Agree-modify_tally u.value _ r.session.participants r.session.ledger (λ t. refl) h.aligned;
    recorded = h.recorded;
    bounded = h.bounded;
  }

  pub close_turn-IsSound :
      (u : Uuid) (text : Text) (r : Runner) → IsSound r → IsSound (close_turn setup world u text r)
  unfolding close_turn
  close_turn-IsSound u text r h =
      let r' = cancel_turn_timers r in
      let ms = floor_held_ms (world.now Moment.holding) r'.session in
      let banked = bank_turn setup world u (strip text) ms r' in
      let sound = bank_turn-IsSound u (strip text) ms r' h in
      release_floor-IsSound
        (if is_nonempty (strip text)
          then record_answer setup world u (strip text) ms banked
          else banked)
        (if-IsSound (is_nonempty (strip text)) (record_answer setup world u (strip text) ms banked)
          banked (record_answer-IsSound u (strip text) ms banked sound) sound)

pub close_nobody-IsSound : (r : Runner) → IsSound r → IsSound (close_nobody r)
unfolding close_nobody
close_nobody-IsSound r h = release_floor-IsSound _ h

pub submit-IsSound : (c : Command) (r : Runner) → IsSound r → IsSound (submit c r)
unfolding submit
submit-IsSound c r h = elim (Bool-cases (ltb (length r.queue) queue_size)) [
  | inl e ↦ rw e (record {
    floors = h.floors;
    timed = h.timed;
    aligned = h.aligned;
    recorded = h.recorded;
    bounded = omega (tests, length-append r.queue (c ∷ []), e);
  })
  | inr e ↦ rw e h
]
