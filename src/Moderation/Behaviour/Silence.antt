-- ===== src/Moderation/Behaviour/Silence.antt =====
-- Two silences in a row of the same person spend the turn.
use gd_classroom.Prelude.{
  ℕ, ◌+◌, ◌≡◌, refl, ap, ◌∙◌, inl, inr, false, Option, none, some, is_nonempty, Bool-cases, Text,
  Uuid, pos, ==_refl,
}
use gd_classroom.Domain.Enums.{EndReason, ModeratorState, TurnKind}
use gd_classroom.Domain.Ledger.{Tallies, add_speech, select_next_speaker}
use gd_classroom.Domain.Session.{record_turn}
use gd_classroom.Moderation.Commands.{Command}
use gd_classroom.Moderation.State.{Setup, World, Runner, publish, arm, interrupt, speak}
use gd_classroom.Moderation.Turns.{
  is_active, is_closing, publish_release, release_floor, begin_closing, ask, close_or_ask,
  next_turn, grant_floor,
}
use gd_classroom.Moderation.Handlers.{record_line, after_line, on_spoke}
use gd_classroom.Moderation.Answers.{is_stale, nudge, spend_turn, silence_of, on_silence}
use gd_classroom.Moderation.Loop.{settle, handle}

-- The counts that a silent turn changes.
pub record Counts : Type 0 where
  pub ledger : Tallies
  pub silent : ℕ

abbrev pub counts_of : Runner → Counts
counts_of r = record { ledger = r.session.ledger; silent = r.session.consecutive_silent_turns }

counts-publish_release :
    (o : Option Uuid) (r : Runner) → counts_of (publish_release o r) ≡ counts_of r
unfolding publish
counts-publish_release none r = refl
counts-publish_release (some u) r = refl

counts-begin_closing :
    (reason : EndReason) (r : Runner) → counts_of (begin_closing reason r) ≡ counts_of r
unfolding begin_closing release_floor speak interrupt
counts-begin_closing reason r = elim (Bool-cases (is_closing r.session.moderator_state)) [
  | inl e ↦ rw e
  | inr e ↦ rw e (counts-publish_release r.session.floor_holder _)
]

counts-ask : (o : Option Uuid) (r : Runner) → counts_of (ask o r) ≡ counts_of r
unfolding ask speak interrupt
counts-ask none r = counts-begin_closing EndReason.not_enough_participants r
counts-ask (some u) r = refl

counts-close_or_ask :
    (o : Option EndReason) (r : Runner) → counts_of (close_or_ask o r) ≡ counts_of r
unfolding close_or_ask
counts-close_or_ask (some reason) r = counts-begin_closing reason r
counts-close_or_ask none r =
    counts-ask (select_next_speaker r.session.ledger r.session.last_speaker) r

counts-release_floor : (r : Runner) → counts_of (release_floor r) ≡ counts_of r
unfolding release_floor
counts-release_floor r = counts-publish_release r.session.floor_holder _

-- The counts after a silent turn of `u`.
abbrev pub spent : Uuid → Counts → Counts
spent u c = record { ledger = add_speech u (pos 0) c.ledger; silent = c.silent + 1 }

current_is_fresh :
    (r : Runner)
    → r.session.moderator_state ≡ ModeratorState.listening
    → is_stale r.session.turn_index r ≡ false
current_is_fresh r e = rw (==_refl r.session.turn_index, e)

module _ (setup : Setup) (world : World) where
  counts-next_turn : (r : Runner) → counts_of (next_turn setup world r) ≡ counts_of r
  unfolding next_turn
  counts-next_turn r = elim (Bool-cases (is_active r.session.status)) [
    | inl e ↦ rw e (counts-close_or_ask _ r)
    | inr e ↦ rw e
  ]

  counts-spend_turn :
      (u : Uuid) (r : Runner) → counts_of (spend_turn setup world u r) ≡ spent u (counts_of r)
  unfolding spend_turn
  counts-spend_turn u r = counts-next_turn _

  counts-record_line :
      (kind : TurnKind) (text : Text) (duration_ms : ℕ) (r : Runner)
      → counts_of (record_line setup world kind text duration_ms r) ≡ counts_of r
  unfolding record_line publish record_turn
  counts-record_line kind text duration_ms r = elim (Bool-cases (is_nonempty text)) [
    | inl e ↦ rw e
    | inr e ↦ rw e
  ]

  record_line-targets :
      (kind : TurnKind) (text : Text) (duration_ms : ℕ) (r : Runner)
      → let line = record_line setup world kind text duration_ms r in
        (line.nudged ≡ r.nudged) × (line.pending_target ≡ r.pending_target)
  unfolding record_line publish
  record_line-targets kind text duration_ms r = elim (Bool-cases (is_nonempty text)) [
    | inl e ↦ rw e (refl, refl)
    | inr e ↦ rw e (refl, refl)
  ]

  -- The first silence of `u`.
  on_silence-nudge :
      (u : Uuid) (r : Runner)
      → r.session.moderator_state ≡ ModeratorState.listening
      → r.session.floor_holder ≡ some u
      → r.nudged ≡ none
      → on_silence setup world r.session.turn_index r ≡ nudge setup world u (release_floor r)
  unfolding on_silence silence_of
  on_silence-nudge u r e f g = simp (current_is_fresh r e, f, g)

  -- The floor that the end of a nudge gives back to `u`.
  after_line-nudge :
      (u : Uuid) (r : Runner)
      → r.pending_target ≡ some u
      → settle (after_line setup world TurnKind.nudge r)
        ≡ grant_floor setup world u (some setup.silence_after_nudge_ms) r
  unfolding settle after_line
  after_line-nudge u r e = simp e

  -- A silence of `u`, who got the floor after a nudge.
  on_silence-spend :
      (u : Uuid) (listen : Option ℕ) (r : Runner)
      → r.nudged ≡ some u
      → let g = grant_floor setup world u listen r in
        on_silence setup world g.session.turn_index g ≡ spend_turn setup world u (release_floor g)
  unfolding on_silence silence_of grant_floor publish arm
  on_silence-spend u listen r e =
      simp (==_refl r.session.turn_index, e, ==_refl u.value, ==_refl u.object)

  -- Somebody who has the floor and was not nudged yet stays silent, hears the nudge, and stays silent
  -- again: the ledger counts one more turn of zero milliseconds for them, and the session one more
  -- silent turn. The three commands are handled one after the other, and the timers of the floor are
  -- those of the current turn.
  pub two_silences_spend_the_turn :
      (u : Uuid) (text : Text) (duration_ms : ℕ) (r : Runner)
      → r.session.moderator_state ≡ ModeratorState.listening
      → r.session.floor_holder ≡ some u
      → r.nudged ≡ none
      → let asked = settle (handle setup world (Command.silence_timeout r.session.turn_index) r) in
        let heard = settle (
          handle setup world
            (Command.moderator_finished_speaking TurnKind.nudge text duration_ms)
            asked) in
        let after =
          settle (handle setup world (Command.silence_timeout heard.session.turn_index) heard) in
        counts_of after ≡ record {
          ledger = add_speech u (pos 0) r.session.ledger;
          silent = r.session.consecutive_silent_turns + 1;
        }
  unfolding settle handle on_spoke nudge speak interrupt grant_floor publish arm
  two_silences_spend_the_turn u text duration_ms r e f g =
      let again : Runner → Runner =
        λ heard. on_silence setup world heard.session.turn_index heard in
      let hear : Runner → Runner = λ asked. settle (
        after_line setup world TurnKind.nudge
          (record_line setup world TurnKind.nudge text duration_ms asked)) in
      let asked = nudge setup world u (release_floor r) in
      let line = record_line setup world TurnKind.nudge text duration_ms asked in
      let listen : Option ℕ = some setup.silence_after_nudge_ms in
      let heard = grant_floor setup world u listen line in
      let (nudged, target) = record_line-targets TurnKind.nudge text duration_ms asked in
      ap (λ x. counts_of (again (hear x))) (on_silence-nudge u r e f g)
      ∙ ap (λ x. counts_of (again x)) (after_line-nudge u line target)
      ∙ ap counts_of (on_silence-spend u listen line nudged)
      ∙ counts-spend_turn u (release_floor heard)
      ∙ ap (spent u) (
          counts-release_floor heard
          ∙ counts-record_line TurnKind.nudge text duration_ms asked
          ∙ counts-release_floor r)
