-- ===== src/Moderation/Soundness/Handlers.antt =====
-- Joining, leaving, starting, the moderator's lines and the summary keep a discussion sound.
use mathlib.Core.Path.{subst}
use gd_classroom.Prelude.{
  ℕ, sym, Bool, true, false, not, ◌&&◌, Option, none, some, [], if◌then◌else◌, is_some, is_nonempty,
  Bool-cases, ltb, leb, inl, inr, Text, Uuid, holds_id,
}
use gd_classroom.Domain.Enums.{EndReason, TurnKind}
use gd_classroom.Domain.Session.{
  mark_connected, mark_disconnected, connected_count, expected_count, record_turn, name_of,
}
use gd_classroom.Domain.Session.Roster.{
  Mark, connect, disconnect, apply_mark, apply_mark-IsAligned, apply_mark_frame,
}
use gd_classroom.Domain.Session.Transcript.{record_turn-IsRecorded}
use gd_classroom.Moderation.Commands.{Event}
use gd_classroom.Moderation.State.{Setup, World, Moment, Runner, publish}
use gd_classroom.Moderation.Turns.{
  is_active, is_connecting, begin_closing, next_turn, close_turn, publish_times,
}
use gd_classroom.Moderation.Handlers.{
  Outcome, returned, raised, begin_discussion, on_connected, on_disconnected, on_join_expired,
  summarize, record_line, grant_pending, after_line, on_spoke, set_session,
}
use gd_classroom.Moderation.Soundness.{
  IsSound, if-IsSound, begin_closing-IsSound, next_turn-IsSound, grant_floor-IsSound,
  close_turn-IsSound,
}

-- However a handler ends, what it leaves is sound.
abbrev pub LeavesSound : Outcome → Type 0
LeavesSound (returned r) = IsSound r
LeavesSound (raised r) = IsSound r

if-LeavesSound :
    (b : Bool) (x y : Outcome) → LeavesSound x → LeavesSound y → LeavesSound (if b then x else y)
if-LeavesSound true x y h k = h
if-LeavesSound false x y h k = k

-- A change of the roster keeps the rest of the session.
pub marked-IsSound :
    (m : Mark) (r : Runner) → IsSound r → IsSound (set_session (apply_mark m r.session) r)
marked-IsSound m r h =
    subst (λ s. IsSound (set_session s r)) (sym (apply_mark_frame m r.session))
      (record {
        floors = h.floors;
        timed = h.timed;
        aligned = apply_mark-IsAligned m r.session h.aligned;
        recorded = h.recorded;
        bounded = h.bounded;
      })

module _ (setup : Setup) (world : World) where
  begin_discussion-LeavesSound :
      (r : Runner) → IsSound r → LeavesSound (begin_discussion setup world r)
  unfolding begin_discussion
  begin_discussion-LeavesSound r h = elim (Bool-cases world.mark_active_returns) [
    | inl e ↦ rw e h
    | inr e ↦ rw e h
  ]

  pub on_connected-LeavesSound :
      (u : Uuid) (r : Runner) → IsSound r → LeavesSound (on_connected setup world u r)
  unfolding on_connected apply_mark
  on_connected-LeavesSound u r h =
      let sound = marked-IsSound (connect (world.now Moment.connecting) u) r h in
      let s = mark_connected (world.now Moment.connecting) u r.session in
      if-LeavesSound (is_connecting s.status && leb (expected_count s) (connected_count s)) _ _
        (begin_discussion-LeavesSound _ sound) sound

  pub on_disconnected-IsSound :
      (u : Uuid) (r : Runner) → IsSound r → IsSound (on_disconnected setup world u r)
  unfolding on_disconnected apply_mark publish
  on_disconnected-IsSound u r h =
      let sound = marked-IsSound (disconnect (world.now Moment.leaving) u) r h in
      let s = mark_disconnected (world.now Moment.leaving) u r.session in
      let r' = publish_times (
        publish (Event.participant_disconnected u.value (name_of (some u) s) (connected_count s))
          (set_session s r)) in
      let closing = begin_closing EndReason.not_enough_participants r' in
      let moved = next_turn setup world (close_turn setup world u [] r') in
      let held = if holds_id u s.floor_holder then moved else r' in
      if-IsSound (not (is_active s.status)) r' (if ltb (connected_count s) 2 then closing else held)
        sound
        (if-IsSound (ltb (connected_count s) 2) closing held
          (begin_closing-IsSound EndReason.not_enough_participants r' sound)
          (if-IsSound (holds_id u s.floor_holder) moved r'
            (next_turn-IsSound setup world _ (close_turn-IsSound setup world u [] r' sound)) sound))

  pub on_join_expired-LeavesSound :
      (r : Runner) → IsSound r → LeavesSound (on_join_expired setup world r)
  unfolding on_join_expired
  on_join_expired-LeavesSound r h =
      if-LeavesSound (not (is_connecting r.session.status)) _ _ h (
        if-LeavesSound (leb 2 (connected_count r.session)) _ _ (begin_discussion-LeavesSound r h) h)

  summarize-LeavesSound : (r : Runner) → IsSound r → LeavesSound (summarize setup world r)
  unfolding summarize
  summarize-LeavesSound r h =
      if-LeavesSound (not world.flush_returns) _ _ h
        (if-LeavesSound (not world.save_returns) _ _ h h)

  record_line-IsSound :
      (kind : TurnKind) (text : Text) (duration_ms : ℕ) (r : Runner)
      → IsSound r
      → IsSound (record_line setup world kind text duration_ms r)
  unfolding record_line record_turn
  record_line-IsSound kind text duration_ms r h =
      if-IsSound (is_nonempty text) _ r
        (record {
          floors = h.floors;
          timed = h.timed;
          aligned = h.aligned;
          recorded =
              record_turn-IsRecorded (world.now Moment.recording) kind text none duration_ms
                r.session h.recorded;
          bounded = h.bounded;
        })
        h

  grant_pending-IsSound :
      (o : Option Uuid) (listen : Option ℕ) (r : Runner)
      → IsSound r
      → IsSound (grant_pending setup world o listen r)
  grant_pending-IsSound none listen r h = h
  grant_pending-IsSound (some u) listen r h = grant_floor-IsSound setup world u listen r h

  after_line-LeavesSound :
      (kind : TurnKind) (r : Runner) → IsSound r → LeavesSound (after_line setup world kind r)
  unfolding after_line
  after_line-LeavesSound TurnKind.intro r h = h
  after_line-LeavesSound TurnKind.rules r h = next_turn-IsSound setup world r h
  after_line-LeavesSound TurnKind.question r h = grant_pending-IsSound r.pending_target none r h
  after_line-LeavesSound TurnKind.follow_up r h = grant_pending-IsSound r.pending_target none r h
  after_line-LeavesSound TurnKind.nudge r h =
      if-IsSound (is_some r.pending_target) _ _
        (grant_pending-IsSound r.pending_target (some setup.silence_after_nudge_ms) r h)
        (next_turn-IsSound setup world r h)
  after_line-LeavesSound TurnKind.closing r h = summarize-LeavesSound r h
  after_line-LeavesSound TurnKind.answer r h = h

  pub on_spoke-LeavesSound :
      (kind : TurnKind) (text : Text) (duration_ms : ℕ) (r : Runner)
      → IsSound r
      → LeavesSound (on_spoke setup world kind text duration_ms r)
  unfolding on_spoke
  on_spoke-LeavesSound kind text duration_ms r h =
      after_line-LeavesSound kind (record_line setup world kind text duration_ms r)
        (record_line-IsSound kind text duration_ms r h)
