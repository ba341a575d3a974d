-- ===== src/Moderation/Soundness/Answers.antt =====
-- Transcripts, silence, the cap on a turn and removal for privacy keep a discussion sound.
use gd_classroom.Prelude.{
  ℕ, refl, Bool, true, false, not, ◌&&◌, ◌||◌, Option, none, some, is_some, is_nonempty, leb,
  length, ◌-◌, Text, strip, Uuid, holds_id, holds_object,
}
use gd_classroom.Domain.Ledger.{add_speech, add_follow_up}
use gd_classroom.Domain.TurnPolicy.{Assessment}
use gd_classroom.Domain.Session.{mark_removed}
use gd_classroom.Domain.Privacy.{contains_personal_information}
use gd_classroom.Domain.Session.Roster.{Agree-modify_tally, remove, apply_mark}
use gd_classroom.Moderation.State.{
  Setup, World, Moment, Runner, TimerName, publish, cancel_timer, interrupt,
}
use gd_classroom.Moderation.Turns.{is_active, release_floor, close_turn}
use gd_classroom.Moderation.Answers.{
  is_speaking, is_listening, is_stale, fold_after_turns, on_release, on_hard_cap, on_speech_started,
  on_partial, nudge, spend_turn, silence_of, on_silence, remove_for_privacy, consider, verdict,
  keep_verdict, maybe_fold_summary, follow_up_or_move_on, should_follow_up, accept_answer,
  on_answer, on_nobody,
}
use gd_classroom.Moderation.Soundness.{
  IsSound, if-IsSound, release_floor-IsSound, next_turn-IsSound, grant_floor-IsSound,
  close_turn-IsSound, close_nobody-IsSound,
}
use gd_classroom.Moderation.Soundness.Handlers.{marked-IsSound}

pub on_release-IsSound : (u : Uuid) (r : Runner) → IsSound r → IsSound (on_release u r)
unfolding on_release
on_release-IsSound u r h = if-IsSound (holds_id u r.session.floor_holder) _ r h h

pub on_hard_cap-IsSound : (index : ℕ) (r : Runner) → IsSound r → IsSound (on_hard_cap index r)
unfolding on_hard_cap
on_hard_cap-IsSound index r h = if-IsSound (is_stale index r) r _ h h

module _ (setup : Setup) (world : World) where
  pub on_speech_started-IsSound :
      (u : Uuid) (r : Runner) → IsSound r → IsSound (on_speech_started setup world u r)
  unfolding on_speech_started interrupt cancel_timer
  on_speech_started-IsSound u r h =
      let quiet = cancel_timer TimerName.silence r in
      let barged = interrupt r in
      if-IsSound (is_listening r.session.moderator_state) _ _
        (if-IsSound (holds_id u r.session.floor_holder) quiet r h h)
        (if-IsSound (is_speaking r.session.moderator_state && holds_id u r.pending_target) _ r
          (grant_floor-IsSound setup world u none barged h) h)

  pub on_partial-IsSound :
      (u : Uuid) (text : Text) (r : Runner) → IsSound r → IsSound (on_partial setup world u text r)
  unfolding on_partial publish
  on_partial-IsSound u text r h =
      if-IsSound (not (holds_id u r.session.floor_holder) || not (is_nonempty text)) r _ h h

  spend_turn-IsSound : (u : Uuid) (r : Runner) → IsSound r → IsSound (spend_turn setup world u r)
  unfolding spend_turn add_speech
  spend_turn-IsSound u r h = next_turn-IsSound setup world _ (record {
    floors = h.floors;
    timed = h.timed;
    aligned =
        Agree-modify_tally u.value _ r.session.participants r.session.ledger (λ t. refl) h.aligned;
    recorded = h.recorded;
    bounded = h.bounded;
  })

  silence_of-IsSound :
      (o : Option Uuid) (r : Runner) → IsSound r → IsSound (silence_of setup world o r)
  unfolding silence_of nudge
  silence_of-IsSound none r h = h
  silence_of-IsSound (some u) r h =
      let free = release_floor-IsSound r h in
      if-IsSound (holds_object u r.nudged) _ _ (spend_turn-IsSound u (release_floor r) free) free

  pub on_silence-IsSound :
      (index : ℕ) (r : Runner) → IsSound r → IsSound (on_silence setup world index r)
  unfolding on_silence
  on_silence-IsSound index r h =
      if-IsSound (is_stale index r) r _ h (silence_of-IsSound r.session.floor_holder r h)

  remove_for_privacy-IsSound :
      (u : Uuid) (said : Text) (r : Runner)
      → IsSound r
      → IsSound (remove_for_privacy setup world u said r)
  unfolding remove_for_privacy cancel_timer publish apply_mark
  remove_for_privacy-IsSound u said r h =
      let quiet =
        cancel_timer TimerName.cap_grace
          (cancel_timer TimerName.cap (cancel_timer TimerName.silence r)) in
      let sound =
        marked-IsSound (remove (world.now Moment.removing) u) (release_floor quiet)
          (release_floor-IsSound quiet h) in
      if-IsSound
        (is_active
          (mark_removed (world.now Moment.removing) u (release_floor quiet).session).status)
        _ _ sound sound

  consider-IsSound : (r : Runner) → IsSound r → IsSound (consider setup world r)
  unfolding consider publish
  consider-IsSound r h = if-IsSound (leb setup.moderator_think_ms 0) r _ h h

  keep_verdict-IsSound :
      (o : Option Assessment) (u : Uuid) (r : Runner)
      → IsSound r
      → IsSound (keep_verdict setup world o u r)
  keep_verdict-IsSound none u r h = h
  keep_verdict-IsSound (some a) u r h = h

  maybe_fold_summary-IsSound : (r : Runner) → IsSound r → IsSound (maybe_fold_summary setup world r)
  unfolding maybe_fold_summary
  maybe_fold_summary-IsSound r h =
      if-IsSound (leb (length r.session.buffered_turns - r.folded_upto) fold_after_turns) r _ h h

  follow_up_or_move_on-IsSound :
      (b : Bool) (u : Uuid) (r : Runner)
      → IsSound r
      → IsSound (follow_up_or_move_on setup world b u r)
  unfolding follow_up_or_move_on add_follow_up
  follow_up_or_move_on-IsSound true u r h = record {
    floors = h.floors;
    timed = h.timed;
    aligned =
        Agree-modify_tally u.value _ r.session.participants r.session.ledger (λ t. refl) h.aligned;
    recorded = h.recorded;
    bounded = h.bounded;
  }
  follow_up_or_move_on-IsSound false u r h =
      next_turn-IsSound setup world _ (maybe_fold_summary-IsSound r h)

  accept_answer-IsSound :
      (u : Uuid) (text : Text) (r : Runner)
      → IsSound r
      → IsSound (accept_answer setup world u text r)
  unfolding accept_answer
  accept_answer-IsSound u text r h =
      let closed = consider setup world (close_turn setup world u text r) in
      let sound = consider-IsSound _ (close_turn-IsSound setup world u text r h) in
      let judged = keep_verdict setup world (verdict setup world) u closed in
      if-IsSound (is_nonempty (strip text)) _ _
        (follow_up_or_move_on-IsSound (should_follow_up setup world u (strip text) judged) u judged
          (keep_verdict-IsSound (verdict setup world) u closed sound))
        (follow_up_or_move_on-IsSound false u closed sound)

  pub on_answer-IsSound :
      (u : Uuid) (text : Text) (forced : Bool) (r : Runner)
      → IsSound r
      → IsSound (on_answer setup world u text forced r)
  unfolding on_answer
  on_answer-IsSound u text forced r h = if-IsSound (not (holds_id u r.session.floor_holder)) r _ h (
      if-IsSound (not (is_nonempty (strip text)) && not forced) _ _ h (
        if-IsSound
          (setup.remove_on_personal_information && contains_personal_information setup.matcher text)
          _ _ (remove_for_privacy-IsSound u text r h) (accept_answer-IsSound u text r h)))

  pub on_nobody-IsSound : (r : Runner) → IsSound r → IsSound (on_nobody setup world r)
  unfolding on_nobody
  on_nobody-IsSound r h = if-IsSound (is_some r.session.floor_holder) r _ h (
      next_turn-IsSound setup world _
        (maybe_fold_summary-IsSound _ (consider-IsSound _ (close_nobody-IsSound r h))))
