-- ===== src/Examples/Discussions.antt =====
-- Live discussions (backend/app/modules/moderation/runner.py) at which the theorems are applied.
use gd_classroom.Prelude.{◌≡◌, refl, true, false, none, some, List, [], ◌∷◌, codes, pos, strip}
use gd_classroom.Domain.Enums.{
  EndReason, ModeratorState, ParticipantConnection, SessionStatus, TurnKind,
}
use gd_classroom.Domain.Ledger.{add_speech, select_next_speaker}
use gd_classroom.Domain.TurnPolicy.{should_close}
use gd_classroom.Domain.Session.{
  ParticipantState, fresh_participant, add_participant, record_turn, mark_connected, mark_removed,
  elapsed_seconds,
}
use gd_classroom.Domain.Ledger.{eligible, everyone_has_spoken}
use gd_classroom.Domain.Session.Roster.{
  IsAligned, Mark, connect, disconnect, remove, add_participant-IsAligned,
}
use gd_classroom.Domain.Session.Removal.{IsOut, apply_marks, removal_is_final, mark_removed-IsOut}
use gd_classroom.Domain.Session.Transcript.{IsRecorded, record_turn-IsRecorded}
use gd_classroom.Domain.Privacy.{contains_personal_information}
use gd_classroom.Moderation.Commands.{Command}
use gd_classroom.Moderation.State.{Runner, TimerName, new_runner}
use gd_classroom.Moderation.Answers.{on_answer}
use gd_classroom.Moderation.Loop.{
  start, settle, handle, Step, rounds, fires, speech_ends, arrives, steps,
}
use gd_classroom.Moderation.Soundness.{IsSound}
use gd_classroom.Moderation.Soundness.Loop.{start-IsSound}
use gd_classroom.Moderation.Behaviour.Closing.{end_request_ends, Asks, stale_rules_undo_closing}
use gd_classroom.Moderation.Behaviour.Removal.{KeepsNothing, personal_information-KeepsNothing}
use gd_classroom.Moderation.Behaviour.Silence.{counts_of, two_silences_spend_the_turn}
use gd_classroom.Moderation.Behaviour.Stuck.{flush_failure_hangs}
use gd_classroom.Examples.People.{
  alice, bob, empty_session, seated, present, setup, working, failing, listening,
}

seated-IsAligned : IsAligned seated
seated-IsAligned =
    add_participant-IsAligned bob (codes "Bob") 2 _
      (add_participant-IsAligned alice (codes "Alice") 1 empty_session tt)

seated-IsRecorded : IsRecorded seated
unfolding add_participant
seated-IsRecorded = record { numbered = tt; counted = refl; recent = refl }

abbrev opening : List (Step setup)
opening =
    arrives (Command.participant_connected alice)
    ∷ arrives (Command.participant_connected bob)
    ∷ rounds working
    ∷ rounds working
    ∷ speech_ends (codes "Welcome.") 2000
    ∷ rounds working
    ∷ []

start-IsSound_example : IsSound (steps setup opening (start setup (new_runner seated)))
unfolding add_participant
start-IsSound_example =
    start-IsSound setup opening seated refl refl seated-IsAligned seated-IsRecorded

end_request_ends_example :
    let asked =
      settle
        (handle setup working (Command.end_session_requested EndReason.host_ended) listening) in
    let done = settle (
      handle setup working
        (Command.moderator_finished_speaking TurnKind.closing (codes "Goodbye.") 900)
        asked) in
    (done.finished ≡ true)
    × (done.session.status ≡ SessionStatus.ended)
    × (done.end_reason ≡ some EndReason.host_ended)
end_request_ends_example =
    end_request_ends setup working EndReason.host_ended (codes "Goodbye.") 900 listening refl refl
      refl

alice_next : Asks setup working alice listening.session
unfolding should_close select_next_speaker mark_connected add_participant elapsed_seconds eligible
    everyone_has_spoken
alice_next = (refl, refl, refl)

stale_rules_undo_closing_example :
    let asked =
      settle
        (handle setup working (Command.end_session_requested EndReason.host_ended) listening) in
    let after = settle (
      handle setup working
        (Command.moderator_finished_speaking TurnKind.rules (codes "One at a time.") 4000)
        asked) in
    (after.session.moderator_state ≡ ModeratorState.questioning)
    × (after.speech ≡ some (record { kind = TurnKind.question; script = none; done = false }))
    × (after.pending_target ≡ some alice)
stale_rules_undo_closing_example =
    stale_rules_undo_closing setup working alice EndReason.host_ended (codes "One at a time.") 4000
      listening alice_next

abbrev seat_of_alice : ParticipantState
seat_of_alice = record (fresh_participant alice (codes "Alice") 1) {
  connection = ParticipantConnection.connected;
  connected_at = some 1000000;
}

personal_information-KeepsNothing_example :
    KeepsNothing 1 listening (on_answer setup working alice (codes "a@b.c") false listening)
unfolding mark_connected add_participant contains_personal_information strip
personal_information-KeepsNothing_example =
    personal_information-KeepsNothing setup working alice (codes "a@b.c") false seat_of_alice
      listening refl refl refl refl refl

two_silences_spend_the_turn_example :
    let asked = settle (handle setup working (Command.silence_timeout 0) listening) in
    let heard = settle (
      handle setup working
        (Command.moderator_finished_speaking TurnKind.nudge (codes "Alice?") 700)
        asked) in
    let after =
      settle (handle setup working (Command.silence_timeout heard.session.turn_index) heard) in
    counts_of after
    ≡ record { ledger = add_speech alice (pos 0) listening.session.ledger; silent = 1 }
unfolding mark_connected add_participant new_runner
two_silences_spend_the_turn_example =
    two_silences_spend_the_turn setup working alice (codes "Alice?") 700 listening refl refl refl

abbrev closing_words : Runner
closing_words = record (new_runner present) {
  session = record present {
    status = SessionStatus.active;
    moderator_state = ModeratorState.closing;
  };
  speech = some (record { kind = TurnKind.closing; script = none; done = true });
}

abbrev attempts : List (Step setup)
attempts =
    arrives (Command.end_session_requested EndReason.host_ended)
    ∷ rounds working
    ∷ fires TimerName.cap
    ∷ arrives (Command.participant_disconnected bob)
    ∷ rounds working
    ∷ []

flush_failure_hangs_example :
    let stored = settle (
      handle setup failing
        (Command.moderator_finished_speaking TurnKind.closing (codes "Goodbye.") 900)
        closing_words) in
    (steps setup attempts stored).finished ≡ false
unfolding mark_connected add_participant new_runner
flush_failure_hangs_example =
    flush_failure_hangs setup failing (codes "Goodbye.") 900 closing_words attempts refl refl refl
      refl refl tt (refl, (tt, (tt, (refl, (tt, tt)))))

abbrev comings : List Mark
comings =
    connect 1000000 alice ∷ disconnect 2000000 alice ∷ remove 3000000 bob ∷ connect 4000000 bob ∷ []

seated_without_bob : IsOut 2 (mark_removed 500000 bob seated)
unfolding add_participant
seated_without_bob =
    mark_removed-IsOut 500000 bob (fresh_participant bob (codes "Bob") 2) seated refl

removal_is_final_example : IsOut 2 (apply_marks comings (mark_removed 500000 bob seated))
removal_is_final_example =
    removal_is_final comings 2 (mark_removed 500000 bob seated) seated_without_bob

record_turn-IsRecorded_example :
    IsRecorded (record_turn 5000000 TurnKind.answer (codes "Tea.") (some alice) 1200 seated).0
record_turn-IsRecorded_example =
    record_turn-IsRecorded 5000000 TurnKind.answer (codes "Tea.") (some alice) 1200 seated
      seated-IsRecorded
