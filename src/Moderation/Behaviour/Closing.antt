-- ===== src/Moderation/Behaviour/Closing.antt =====
-- How a discussion ends, and two ways in which it does not.
use gd_classroom.Prelude.{
  ℕ, ◌≡◌, refl, ◌∙◌, inl, inr, true, false, Option, none, some, is_nonempty, Bool-cases, Text, Uuid,
  ok,
}
use gd_classroom.Domain.Enums.{
  EndReason, ModeratorState, SessionStatus, SessionStatus-discrete, TurnKind,
}
use gd_classroom.Domain.Ledger.{select_next_speaker}
use gd_classroom.Domain.TurnPolicy.{should_close}
use gd_classroom.Domain.Session.{DiscussionSession, elapsed_seconds, record_turn}
use gd_classroom.Domain.StateMachines.{SessionEvent, SessionEvent-discrete, session_fsm, next}
use gd_classroom.Moderation.Commands.{Command}
use gd_classroom.Moderation.State.{Setup, World, Moment, Runner, publish, interrupt, speak, write}
use gd_classroom.Moderation.Turns.{
  is_active, is_closing, publish_release, release_floor, begin_closing, ask, close_or_ask,
  next_turn,
}
use gd_classroom.Moderation.Handlers.{summarize, record_line, after_line, on_spoke}
use gd_classroom.Moderation.Loop.{settle, handle}

-- A second reason to close changes nothing: the closing words are begun once, for the first reason.
pub begin_closing_once :
    (first later : EndReason) (r : Runner)
    → begin_closing later (begin_closing first r) ≡ begin_closing first r
unfolding begin_closing speak interrupt
begin_closing_once first later r = elim (Bool-cases (is_closing r.session.moderator_state)) [
  | inl e ↦ rw (e, e)
  | inr e ↦ rw e
]

-- A release of the floor keeps the reason to end and the status.
publish_release-end_reason :
    (o : Option Uuid) (r : Runner) → (publish_release o r).end_reason ≡ r.end_reason
unfolding publish
publish_release-end_reason none r = refl
publish_release-end_reason (some u) r = refl

pub publish_release-session :
    (o : Option Uuid) (r : Runner) → (publish_release o r).session ≡ r.session
unfolding publish
publish_release-session none r = refl
publish_release-session (some u) r = refl

begin_closing-end_reason :
    (reason : EndReason) (r : Runner)
    → is_closing r.session.moderator_state ≡ false
    → (begin_closing reason r).end_reason ≡ some reason
unfolding begin_closing speak interrupt release_floor
begin_closing-end_reason reason r e = rw (e, publish_release-end_reason)

module _ (setup : Setup) (world : World) where
  record_line-end_reason :
      (kind : TurnKind) (text : Text) (duration_ms : ℕ) (r : Runner)
      → (record_line setup world kind text duration_ms r).end_reason ≡ r.end_reason
  unfolding record_line publish
  record_line-end_reason kind text duration_ms r = elim (Bool-cases (is_nonempty text)) [
    | inl e ↦ rw e
    | inr e ↦ rw e
  ]

  summarize-finishes :
      (r : Runner)
      → world.flush_returns ≡ true
      → world.save_returns ≡ true
      → let done = settle (summarize setup world r) in
        (done.finished ≡ true)
        × (done.session.status ≡ SessionStatus.ended)
        × (done.end_reason ≡ r.end_reason)
  unfolding summarize settle publish write
  summarize-finishes r f g = rw (f, g) (refl, refl, refl)

  -- When nobody has asked to close yet, a request to end the discussion is handled, and the closing
  -- words that it starts end while the transcript and the summary are stored, the discussion is over:
  -- the runner has finished, the status is `ended` and the reason is the one of the request.
  pub end_request_ends :
      (reason : EndReason) (text : Text) (duration_ms : ℕ) (r : Runner)
      → is_closing r.session.moderator_state ≡ false
      → world.flush_returns ≡ true
      → world.save_returns ≡ true
      → let asked = settle (handle setup world (Command.end_session_requested reason) r) in
        let done = settle (
          handle setup world
            (Command.moderator_finished_speaking TurnKind.closing text duration_ms)
            asked) in
        (done.finished ≡ true)
        × (done.session.status ≡ SessionStatus.ended)
        × (done.end_reason ≡ some reason)
  unfolding settle handle on_spoke after_line
  end_request_ends reason text duration_ms r e f g =
      let asked = begin_closing reason r in
      let (over, status, why) =
        summarize-finishes (record_line setup world TurnKind.closing text duration_ms asked) f g in
      (
        over,
        status,
        why
            ∙ record_line-end_reason TurnKind.closing text duration_ms asked
            ∙ begin_closing-end_reason reason r e,
      )

  -- A host who ends the discussion while people are still joining gets an ended session with a
  -- summary, whereas the transition table of a session says `aborted`.
  pub host_end_while_connecting :
      (text : Text) (duration_ms : ℕ) (r : Runner)
      → r.session.status ≡ SessionStatus.connecting
      → is_closing r.session.moderator_state ≡ false
      → world.flush_returns ≡ true
      → world.save_returns ≡ true
      → let asked =
          settle (handle setup world (Command.end_session_requested EndReason.host_ended) r) in
        let done = settle (
          handle setup world
            (Command.moderator_finished_speaking TurnKind.closing text duration_ms)
            asked) in
        (done.session.status ≡ SessionStatus.ended)
        × (next session_fsm r.session.status SessionEvent.host_ended ≡ ok SessionStatus.aborted)
  unfolding next SessionStatus-discrete SessionEvent-discrete
  host_end_while_connecting text duration_ms r c e f g =
      ((end_request_ends EndReason.host_ended text duration_ms r e f g).1, rw c)

  -- With this session `next_turn` asks `u` a question.
  abbrev pub Asks : Uuid → DiscussionSession → Type 0
  Asks u s =
      (is_active s.status ≡ true)
      × (should_close s.ledger s.budget (elapsed_seconds (world.now Moment.choosing) s)
            s.consecutive_silent_turns
          ≡ none)
      × (select_next_speaker s.ledger s.last_speaker ≡ some u)

  record_line-Asks :
      (u : Uuid) (kind : TurnKind) (text : Text) (duration_ms : ℕ) (r : Runner)
      → Asks u r.session
      → Asks u (record_line setup world kind text duration_ms r).session
  unfolding record_line publish record_turn elapsed_seconds
  record_line-Asks u kind text duration_ms r h = elim (Bool-cases (is_nonempty text)) [
    | inl e ↦ rw e h
    | inr e ↦ rw e h
  ]

  begin_closing-Asks :
      (u : Uuid) (reason : EndReason) (r : Runner)
      → Asks u r.session
      → Asks u (begin_closing reason r).session
  unfolding begin_closing release_floor speak interrupt elapsed_seconds
  begin_closing-Asks u reason r h = elim (Bool-cases (is_closing r.session.moderator_state)) [
    | inl e ↦ rw e h
    | inr e ↦ rw (e, publish_release-session) h
  ]

  next_turn-Asks :
      (u : Uuid) (r : Runner) → Asks u r.session → next_turn setup world r ≡ ask (some u) r
  unfolding next_turn close_or_ask
  next_turn-Asks u r (active, free, picked) = rw (active, free, picked)

  -- The end of the rules' announcement that is already in the queue when the host ends the discussion
  -- takes the closing back: as long as the policy would still ask `u`, the moderator ends up asking
  -- `u` a question instead of speaking the closing words.
  pub stale_rules_undo_closing :
      (u : Uuid) (reason : EndReason) (text : Text) (duration_ms : ℕ) (r : Runner)
      → Asks u r.session
      → let asked = settle (handle setup world (Command.end_session_requested reason) r) in
        let after = settle (
          handle setup world
            (Command.moderator_finished_speaking TurnKind.rules text duration_ms)
            asked) in
        (after.session.moderator_state ≡ ModeratorState.questioning)
        × (after.speech ≡ some (record { kind = TurnKind.question; script = none; done = false }))
        × (after.pending_target ≡ some u)
  unfolding settle handle on_spoke after_line ask speak
  stale_rules_undo_closing u reason text duration_ms r h =
      let asked = begin_closing reason r in
      let line = record_line setup world TurnKind.rules text duration_ms asked in
      rw
        (next_turn-Asks u line (
          record_line-Asks u TurnKind.rules text duration_ms asked
            (begin_closing-Asks u reason r h)))
        (refl, refl, refl)
