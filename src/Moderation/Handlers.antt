-- ===== src/Moderation/Handlers.antt =====
-- Joining, leaving, starting, the moderator's lines and the summary
-- (backend/app/modules/moderation/runner.py).
use gd_classroom.Prelude.{
  ℕ, true, not, ◌&&◌, Option, none, some, [], ltb, leb, if◌then◌else◌, is_nonempty, is_some, Text,
  codes, Uuid, holds_id,
}
use gd_classroom.Domain.Enums.{EndReason, ModeratorState, SessionStatus, SummaryStatus, TurnKind}
use gd_classroom.Domain.Session.{
  DiscussionSession, mark_connected, mark_disconnected, connected_count, expected_count, name_of,
  record_turn, transcript,
}
use gd_classroom.Moderation.Commands.{Event}
use gd_classroom.Moderation.State.{
  Setup, World, Moment, Runner, TimerName, Write, publish, write, cancel_timer, speak, say,
  set_moderator,
}
use gd_classroom.Moderation.Turns.{
  is_active, is_connecting, begin_closing, next_turn, grant_floor, close_turn, final_line,
  publish_times,
}

abbrev pub set_session : DiscussionSession → Runner → Runner
set_session s r = record r { session = s }

-- How a handler ends: it returns, or it raises and leaves what it had done.
pub data Outcome : Type 0 where
  returned raised : Runner → Outcome

module _ (setup : Setup) (world : World) where
  -- `mark_active` may raise, after the status has changed.
  unfoldable pub begin_discussion : Runner → Outcome
  unfolding cancel_timer publish write speak
  begin_discussion r =
      let r' : Runner = record (cancel_timer TimerName.join r) {
        session = record (r.session) {
          status = SessionStatus.active;
          started_at = some (world.now Moment.beginning);
        };
      } in
      if world.mark_active_returns
      then returned (
          speak TurnKind.intro (
            set_moderator ModeratorState.introducing
              (publish (Event.session_state SessionStatus.active) (write Write.active r'))))
      else raised r'

  unfoldable pub on_connected : Uuid → Runner → Outcome
  unfolding publish mark_connected
  on_connected u r =
      let s = mark_connected (world.now Moment.connecting) u r.session in
      let r' =
        publish
          (Event.participant_connected u.value (name_of (some u) s) (connected_count s)
            (expected_count s))
          (set_session s r) in
      if is_connecting s.status && leb (expected_count s) (connected_count s)
      then begin_discussion r'
      else returned r'

  unfoldable pub on_disconnected : Uuid → Runner → Runner
  unfolding publish
  on_disconnected u r =
      let s = mark_disconnected (world.now Moment.leaving) u r.session in
      let r' = publish_times (
        publish (Event.participant_disconnected u.value (name_of (some u) s) (connected_count s))
          (set_session s r)) in
      if not (is_active s.status)
      then r'
      else if ltb (connected_count s) 2
      then begin_closing EndReason.not_enough_participants r'
      else if holds_id u s.floor_holder
      then next_turn setup world (close_turn setup world u [] r')
      else r'

  unfoldable pub on_join_expired : Runner → Outcome
  unfolding begin_discussion
  on_join_expired r =
      if not (is_connecting r.session.status)
      then returned r
      else if leb 2 (connected_count r.session)
      then begin_discussion r
      else returned (record r {
        session = record (r.session) { status = SessionStatus.aborted };
        end_reason = some EndReason.join_timeout;
        finished = true;
      })

  -- The transcript is flushed, the report is asked for, the summary is saved.
  unfoldable pub summarize : Runner → Outcome
  unfolding publish write transcript
  summarize r =
      let r' = publish (Event.session_state SessionStatus.summarizing) (record r {
        session = record (r.session) {
          moderator_state = ModeratorState.summarizing;
          status = SessionStatus.summarizing;
        };
      }) in
      let flushed = write (Write.transcript (transcript r.session)) r' in
      if not world.flush_returns
      then raised r'
      else if not world.save_returns
      then raised flushed
      else returned
          (record (publish
            (Event.session_summary_ready
              (if world.has_report then SummaryStatus.ready else SummaryStatus.failed))
            (write (Write.summary world.has_report) flushed)) {
              session = record (r.session) {
                moderator_state = ModeratorState.summarizing;
                status = SessionStatus.ended;
              };
              finished = true;
            })

  -- A moderator's line is recorded unless it is empty.
  unfoldable pub record_line : TurnKind → Text → ℕ → Runner → Runner
  unfolding publish
  record_line kind text duration_ms r =
      let (s, turn) =
        record_turn (world.now Moment.recording) kind text none duration_ms r.session in
      if is_nonempty text
      then publish (final_line none (codes "Moderator") turn) (set_session s r)
      else r

  abbrev pub grant_pending : Option Uuid → Option ℕ → Runner → Runner
  grant_pending none listen r = r
  grant_pending (some u) listen r = grant_floor setup world u listen r

  unfoldable pub after_line : TurnKind → Runner → Outcome
  unfolding say
  after_line TurnKind.intro r = returned (
      say TurnKind.rules (setup.ground_rules setup.turn_max_seconds)
        (set_moderator ModeratorState.explaining_rules r))
  after_line TurnKind.rules r = returned (next_turn setup world r)
  after_line TurnKind.question r = returned (grant_pending r.pending_target none r)
  after_line TurnKind.follow_up r = returned (grant_pending r.pending_target none r)
  after_line TurnKind.nudge r = returned (
      if is_some r.pending_target
      then grant_pending r.pending_target (some setup.silence_after_nudge_ms) r
      else next_turn setup world r)
  after_line TurnKind.closing r = summarize r
  after_line TurnKind.answer r = returned r

  unfoldable pub on_spoke : TurnKind → Text → ℕ → Runner → Outcome
  unfolding record_line after_line
  on_spoke kind text duration_ms r = after_line kind (record_line kind text duration_ms r)
