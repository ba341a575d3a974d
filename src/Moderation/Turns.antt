-- ===== src/Moderation/Turns.antt =====
-- The turns of a discussion: granting and releasing the floor, banking a turn, the next question
-- and the closing words (backend/app/modules/moderation/runner.py).
use gd_classroom.Prelude.{
  ℕ, ◌+◌, ◌*◌, ◌/◌, Bool, true, false, Option, none, some, if◌then◌else◌, is_nonempty, Text, strip,
  Uuid, pos,
}
use gd_classroom.Domain.Enums.{EndReason, ModeratorState, SessionStatus, TurnKind}
use gd_classroom.Domain.Ledger.{add_speech, snapshot, select_next_speaker}
use gd_classroom.Domain.TurnPolicy.{should_close, turn_deadline_seconds}
use gd_classroom.Domain.Session.{BufferedTurn, name_of, elapsed_seconds, floor_held_ms, record_turn}
use gd_classroom.Moderation.Commands.{Command, Event}
use gd_classroom.Moderation.State.{
  Setup, World, Moment, Runner, TimerName, publish, cancel_timer, cancel_all_timers, arm, interrupt,
  speak, set_moderator,
}

abbrev pub is_active : SessionStatus → Bool
is_active SessionStatus.active = true
is_active _ = false

abbrev pub is_connecting : SessionStatus → Bool
is_connecting SessionStatus.connecting = true
is_connecting _ = false

-- `moderator_state in (CLOSING, SUMMARIZING)`
abbrev pub is_closing : ModeratorState → Bool
is_closing ModeratorState.closing = true
is_closing ModeratorState.summarizing = true
is_closing _ = false

-- The last lines of `_release_floor`, once it is known who held the floor.
abbrev pub publish_release : Option Uuid → Runner → Runner
publish_release none r = r
publish_release (some u) r = publish (Event.floor_released u.value) r

unfoldable pub release_floor : Runner → Runner
unfolding publish
release_floor r = publish_release r.session.floor_holder (record r {
  session = record (r.session) { floor_holder = none; floor_granted_at = none };
  plane_floor = none;
})

unfoldable pub begin_closing : EndReason → Runner → Runner
unfolding cancel_all_timers interrupt speak
begin_closing reason r =
    if is_closing r.session.moderator_state
    then r
    else speak TurnKind.closing (
        set_moderator ModeratorState.closing
          (release_floor (interrupt (cancel_all_timers (record r { end_reason = some reason })))))

-- What `_next_turn` does with the target that was selected.
unfoldable pub ask : Option Uuid → Runner → Runner
unfolding speak
ask none r = begin_closing EndReason.not_enough_participants r
ask (some target) r =
    speak TurnKind.question
      (set_moderator ModeratorState.questioning (record r { pending_target = some target }))

-- What it does with the verdict of `should_close`.
unfoldable pub close_or_ask : Option EndReason → Runner → Runner
close_or_ask (some reason) r = begin_closing reason r
close_or_ask none r = ask (select_next_speaker r.session.ledger r.session.last_speaker) r

-- The publication that follows a recorded turn.
abbrev pub final_line : Option Uuid → Text → BufferedTurn → Event
final_line speaker name turn = Event.transcript_final (record {
  turn_index = turn.turn_index;
  participant_id = elim speaker [ none ↦ none | some u ↦ some u.value ];
  display_name = name;
  text = turn.text;
  kind = turn.kind;
})

abbrev pub cancel_turn_timers : Runner → Runner
cancel_turn_timers r =
    cancel_timer TimerName.cap_grace (cancel_timer TimerName.cap (cancel_timer TimerName.silence r))

abbrev pub publish_times : Runner → Runner
publish_times r = publish (Event.speaking_time_updated (snapshot r.session.ledger)) r

-- `_close_turn(None, text="")`: the ledger knows nobody of that id.
unfoldable pub close_nobody : Runner → Runner
unfolding cancel_timer publish
close_nobody r =
    let r' = cancel_turn_timers r in
    publish_times (
      release_floor (record r' {
        session = record (r'.session) {
          last_speaker = none;
          moderator_state = ModeratorState.evaluating;
          consecutive_silent_turns = r'.session.consecutive_silent_turns + 1;
        };
      }))

module _ (setup : Setup) (world : World) where
  unfoldable pub next_turn : Runner → Runner
  next_turn r =
      if is_active r.session.status
      then close_or_ask
          (should_close r.session.ledger r.session.budget
            (elapsed_seconds (world.now Moment.choosing) r.session)
            r.session.consecutive_silent_turns)
          r
      else r

  -- `listen_seconds` is given after a nudge.
  unfoldable pub grant_floor : Uuid → Option ℕ → Runner → Runner
  unfolding publish arm
  grant_floor u listen_ms r =
      let seconds = turn_deadline_seconds r.session.budget r.session.ledger in
      let to_begin : ℕ = elim listen_ms [
        | none ↦ setup.silence_before_speaking_ms
        | some ms ↦ ms
      ] in
      let index = r.session.turn_index in
      let granted : Runner = record r {
        session = record (r.session) {
          floor_holder = some u;
          floor_granted_at = some (world.now Moment.granting);
          moderator_state = ModeratorState.listening;
        };
        plane_floor = some u;
      } in
      arm TimerName.cap (seconds * 1000) (Command.turn_hard_cap index) (
        arm TimerName.silence to_begin (Command.silence_timeout index) (
          publish
            (Event.floor_granted u.value (name_of (some u) r.session) seconds (to_begin / 1000)
              index)
            granted))

  -- A turn of a participant that had words.
  unfoldable pub record_answer : Uuid → Text → ℕ → Runner → Runner
  unfolding publish
  record_answer u clean duration_ms r =
      let (s, turn) =
        record_turn (world.now Moment.answering) TurnKind.answer clean (some u) duration_ms
          r.session in
      publish (final_line (some u) (name_of (some u) r.session) turn)
        (record r { session = s; nudged = none })

  -- The ledger, the last speaker and the count of silent turns, as `_close_turn` sets them.
  unfoldable pub bank_turn : Uuid → Text → ℕ → Runner → Runner
  bank_turn u clean duration_ms r = record r {
    session = record (r.session) {
      ledger = add_speech u (pos duration_ms) r.session.ledger;
      last_speaker = some u;
      moderator_state = ModeratorState.evaluating;
      consecutive_silent_turns =
          if is_nonempty clean then 0 else r.session.consecutive_silent_turns + 1;
    };
  }

  unfoldable pub close_turn : Uuid → Text → Runner → Runner
  unfolding cancel_timer publish
  close_turn u text r =
      let r' = cancel_turn_timers r in
      let duration_ms = floor_held_ms (world.now Moment.holding) r'.session in
      let banked = bank_turn u (strip text) duration_ms r' in
      publish_times (
        release_floor (
          if is_nonempty (strip text)
          then record_answer u (strip text) duration_ms banked
          else banked))
