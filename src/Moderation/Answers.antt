-- ===== src/Moderation/Answers.antt =====
-- What participants say and do not say: partial and final transcripts, silence, the cap on a turn,
-- removal for privacy (backend/app/modules/moderation/runner.py).
use gd_classroom.Prelude.{
  ℕ, ◌+◌, ◌-◌, Bool, true, false, not, ◌&&◌, ◌||◌, Option, none, some, [], ◌∷◌, ◌++◌, leb, ◌==◌,
  if◌then◌else◌, is_nonempty, is_some, length, take, drop, Text, strip, Uuid, holds_id,
  holds_object, pos,
}
use gd_classroom.Domain.Enums.{ModeratorState, TurnKind}
use gd_classroom.Domain.Ledger.{add_speech, add_follow_up, snapshot}
use gd_classroom.Domain.TurnPolicy.{Assessment, decide_follow_up}
use gd_classroom.Domain.Session.{mark_removed, connected_count, name_of, elapsed_seconds}
use gd_classroom.Domain.Privacy.{contains_personal_information, redact, kinds_in}
use gd_classroom.Moderation.Commands.{Command, Event}
use gd_classroom.Moderation.State.{
  Setup, World, Moment, Runner, TimerName, publish, cancel_timer, arm, interrupt, speak, say,
  set_moderator,
}
use gd_classroom.Moderation.Turns.{
  is_active, release_floor, next_turn, grant_floor, close_turn, close_nobody,
}

abbrev pub is_speaking : ModeratorState → Bool
is_speaking ModeratorState.introducing = true
is_speaking ModeratorState.explaining_rules = true
is_speaking ModeratorState.questioning = true
is_speaking ModeratorState.following_up = true
is_speaking ModeratorState.closing = true
is_speaking _ = false

abbrev pub is_listening : ModeratorState → Bool
is_listening ModeratorState.listening = true
is_listening _ = false

abbrev pub cap_grace_ms : ℕ
cap_grace_ms = 2500

abbrev pub fold_after_turns : ℕ
fold_after_turns = 6

abbrev pub fold_batch : ℕ
fold_batch = 3

abbrev pub summary_cut : ℕ
summary_cut = 1800

unfoldable pub on_release : Uuid → Runner → Runner
unfolding arm
on_release u r =
    if holds_id u r.session.floor_holder
    then arm TimerName.cap_grace cap_grace_ms (Command.utterance_final u [] true) r
    else r

-- The guard that `_on_silence` and `_on_hard_cap` share.
abbrev pub is_stale : ℕ → Runner → Bool
is_stale index r =
    not (index == r.session.turn_index) || not (is_listening r.session.moderator_state)

abbrev pub forced_final : Option Uuid → Command
forced_final none = Command.nobody_final
forced_final (some u) = Command.utterance_final u [] true

unfoldable pub on_hard_cap : ℕ → Runner → Runner
unfolding arm
on_hard_cap index r =
    if is_stale index r
    then r
    else arm TimerName.cap_grace cap_grace_ms (forced_final r.session.floor_holder) r

module _ (setup : Setup) (world : World) where
  unfoldable pub on_speech_started : Uuid → Runner → Runner
  unfolding cancel_timer interrupt
  on_speech_started u r =
      if is_listening r.session.moderator_state
      then (if holds_id u r.session.floor_holder then cancel_timer TimerName.silence r else r)
      else if is_speaking r.session.moderator_state && holds_id u r.pending_target
      then grant_floor setup world u none (interrupt r)
      else r

  unfoldable pub on_partial : Uuid → Text → Runner → Runner
  unfolding publish
  on_partial u text r =
      if not (holds_id u r.session.floor_holder) || not (is_nonempty text)
      then r
      else publish
          (Event.transcript_partial u.value (name_of (some u) r.session)
            (redact setup.matcher text))
          r

  -- The first silence of `target`: are they still there?
  unfoldable pub nudge : Uuid → Runner → Runner
  unfolding speak
  nudge target r = speak TurnKind.nudge (
      set_moderator ModeratorState.following_up
        (record r { nudged = some target; pending_target = some target }))

  -- The second: the turn is spent, and the rotation moves on.
  unfoldable pub spend_turn : Uuid → Runner → Runner
  spend_turn target r = next_turn setup world (record r {
    nudged = none;
    pending_target = none;
    session = record (r.session) {
      consecutive_silent_turns = r.session.consecutive_silent_turns + 1;
      ledger = add_speech target (pos 0) r.session.ledger;
      last_speaker = some target;
    };
  })

  unfoldable pub silence_of : Option Uuid → Runner → Runner
  unfolding nudge spend_turn
  silence_of none r = r
  silence_of (some target) r =
      if holds_object target r.nudged
      then spend_turn target (release_floor r)
      else nudge target (release_floor r)

  unfoldable pub on_silence : ℕ → Runner → Runner
  unfolding silence_of
  on_silence index r = if is_stale index r then r else silence_of r.session.floor_holder r

  unfoldable pub remove_for_privacy : Uuid → Text → Runner → Runner
  unfolding cancel_timer publish say mark_removed
  remove_for_privacy u said r =
      let kinds = kinds_in setup.matcher said in
      let name = name_of (some u) r.session in
      let released = release_floor (
        cancel_timer TimerName.cap_grace
          (cancel_timer TimerName.cap (cancel_timer TimerName.silence r))) in
      let out : Runner = record released {
        session = record (mark_removed (world.now Moment.removing) u released.session) {
          last_speaker = some u;
        };
        nudged = none;
        pending_target = none;
      } in
      let told = publish (Event.speaking_time_updated (snapshot out.session.ledger)) (
        publish (Event.participant_removed u.value name kinds (connected_count out.session)) out) in
      if is_active told.session.status
      then say TurnKind.nudge (setup.removal_notice name)
          (set_moderator ModeratorState.following_up told)
      else told

  unfoldable pub consider : Runner → Runner
  unfolding publish
  consider r =
      if leb setup.moderator_think_ms 0
      then r
      else publish (Event.moderator_thinking setup.moderator_think_ms)
          (set_moderator ModeratorState.evaluating r)

  -- The verdict that `_assess` returns, and the list that keeps it.
  abbrev pub verdict : Option Assessment
  verdict = if setup.has_deep_lane && setup.llm_assessment_enabled then world.assessment else none

  abbrev pub keep_verdict : Option Assessment → Uuid → Runner → Runner
  keep_verdict none u r = r
  keep_verdict (some a) u r = record r {
    session = record (r.session) { assessments = r.session.assessments ++ (u, a) ∷ [] };
  }

  unfoldable pub maybe_fold_summary : Runner → Runner
  unfolding strip
  maybe_fold_summary r =
      let batch = take fold_batch (drop r.folded_upto r.session.buffered_turns) in
      if leb (length r.session.buffered_turns - r.folded_upto) fold_after_turns
      then r
      else record r {
        folded_upto = r.folded_upto + length batch;
        session = record (r.session) {
          rolling_summary = elim world.folded [
            | none ↦ r.session.rolling_summary
            | some text ↦ take summary_cut (strip text)
          ];
        };
      }

  -- The end of `_on_answer`, by the decision on a follow-up.
  unfoldable pub follow_up_or_move_on : Bool → Uuid → Runner → Runner
  unfolding speak
  follow_up_or_move_on true u r = speak TurnKind.follow_up (
      set_moderator ModeratorState.following_up (record r {
        session = record (r.session) { ledger = add_follow_up u r.session.ledger };
        pending_target = some u;
      }))
  follow_up_or_move_on false u r = next_turn setup world (maybe_fold_summary r)

  -- A turn that had words is judged; `r` has the verdict.
  unfoldable pub should_follow_up : Uuid → Text → Runner → Bool
  unfolding decide_follow_up
  should_follow_up u clean r =
      (decide_follow_up setup.lower clean r.session.ledger u r.session.budget
        (elapsed_seconds (world.now Moment.deciding) r.session) verdict).should_follow_up

  unfoldable pub accept_answer : Uuid → Text → Runner → Runner
  unfolding consider should_follow_up
  accept_answer u text r =
      let closed = consider (close_turn setup world u text r) in
      let judged = keep_verdict verdict u closed in
      if is_nonempty (strip text)
      then follow_up_or_move_on (should_follow_up u (strip text) judged) u judged
      else follow_up_or_move_on false u closed

  unfoldable pub on_answer : Uuid → Text → Bool → Runner → Runner
  unfolding arm strip
  on_answer u text forced r =
      if not (holds_id u r.session.floor_holder)
      then r
      else if not (is_nonempty (strip text)) && not forced
      then arm TimerName.silence setup.silence_after_nudge_ms
          (Command.silence_timeout r.session.turn_index) r
      else if setup.remove_on_personal_information
          && contains_personal_information setup.matcher text
      then remove_for_privacy u text r
      else accept_answer u text r

  -- `_on_answer(None, "", forced=True)`: it passes the test on the floor while nobody holds it.
  unfoldable pub on_nobody : Runner → Runner
  unfolding consider
  on_nobody r =
      if is_some r.session.floor_holder
      then r
      else next_turn setup world (maybe_fold_summary (consider (close_nobody r)))
