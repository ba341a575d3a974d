-- ===== src/Moderation/Behaviour/Removal.antt =====
-- A turn with personal information: nothing of it is kept or shown, and the speaker is out.
use gd_classroom.Prelude.{
  ℕ, ◌≡◌, refl, sym, ap, ◌∙◌, inl, inr, Bool, true, false, not, ◌&&◌, Option, none, some, List, [],
  ◌∷◌, ◌++◌, if◌then◌else◌, is_nonempty, filter_by, Bool-cases, Text, strip, Uuid, holds_id, get,
}
use mathlib.Core.Path.{subst}
use gd_classroom.Domain.Ledger.{snapshot}
use gd_classroom.Domain.Session.{ParticipantState, mark_removed, connected_count, name_of}
use gd_classroom.Domain.Session.Roster.{remove, apply_mark, apply_mark_frame}
use gd_classroom.Domain.Session.Removal.{IsOut, mark_removed-IsOut}
use gd_classroom.Domain.Privacy.{contains_personal_information, kinds_in}
use gd_classroom.Moderation.Commands.{Event}
use gd_classroom.Moderation.State.{
  Setup, World, Moment, Runner, TimerName, publish, cancel_timer, interrupt, say,
}
use gd_classroom.Moderation.Turns.{is_active, publish_release, release_floor}
use gd_classroom.Moderation.Answers.{remove_for_privacy, accept_answer, on_answer}

-- The lines of the transcript, partial and final, that were published.
abbrev pub is_line : Event → Bool
is_line (Event.transcript_partial u name text) = true
is_line (Event.transcript_final line) = true
is_line _ = false

abbrev pub lines_of : List Event → List Event
lines_of es = filter_by is_line es

lines_of-append :
    (es : List Event) (e : Event) → is_line e ≡ false → lines_of (es ++ e ∷ []) ≡ lines_of es
lines_of-append [] e h = rw h
lines_of-append (x ∷ es) e h = elim (Bool-cases (is_line x)) [
  | inl t ↦ rw t (ap (x ∷◌) (lines_of-append es e h))
  | inr t ↦ rw t (lines_of-append es e h)
]

-- What a removal leaves: the transcript is the one before, nobody has the floor or is heard, the
-- speaker is out, and no line was published.
abbrev pub KeepsNothing : ℕ → Runner → Runner → Type 0
KeepsNothing k before after =
    (after.session.buffered_turns ≡ before.session.buffered_turns)
    × (after.session.recent_turns ≡ before.session.recent_turns)
    × (after.session.floor_holder ≡ none)
    × (after.plane_floor ≡ none)
    × IsOut k after.session
    × (lines_of after.published ≡ lines_of before.published)

if-KeepsNothing :
    (b : Bool) (k : ℕ) (r x y : Runner)
    → KeepsNothing k r x
    → KeepsNothing k r y
    → KeepsNothing k r (if b then x else y)
if-KeepsNothing true k r x y h g = h
if-KeepsNothing false k r x y h g = g

release_floor-kept :
    (k : ℕ) (r : Runner)
    → let after = release_floor r in
      (after.session.buffered_turns ≡ r.session.buffered_turns)
      × (after.session.recent_turns ≡ r.session.recent_turns)
      × (after.session.floor_holder ≡ none)
      × (after.plane_floor ≡ none)
      × (after.session.participants ≡ r.session.participants)
      × (lines_of after.published ≡ lines_of r.published)
unfolding release_floor publish
release_floor-kept k r = go r.session.floor_holder
  where
    go :
        (o : Option Uuid)
        → let after = publish_release o (record r {
          session = record (r.session) { floor_holder = none; floor_granted_at = none };
          plane_floor = none;
        }) in
          (after.session.buffered_turns ≡ r.session.buffered_turns)
          × (after.session.recent_turns ≡ r.session.recent_turns)
          × (after.session.floor_holder ≡ none)
          × (after.plane_floor ≡ none)
          × (after.session.participants ≡ r.session.participants)
          × (lines_of after.published ≡ lines_of r.published)
    go none = (refl, refl, refl, refl, refl, refl)
    go (some u) = (
      refl,
      refl,
      refl,
      refl,
      refl,
      lines_of-append r.published (Event.floor_released u.value) refl,
    )

third_branch :
    (b c d : Bool) (w x y z : Runner)
    → b ≡ false
    → c ≡ false
    → d ≡ true
    → (if b then w else if c then x else if d then y else z) ≡ y
third_branch b c d w x y z e f g = rw (e, f, g)

module _ (setup : Setup) (world : World) where
  remove_for_privacy-KeepsNothing :
      (u : Uuid) (said : Text) (p : ParticipantState) (r : Runner)
      → get u.value r.session.participants ≡ some p
      → KeepsNothing u.value r (remove_for_privacy setup world u said r)
  unfolding remove_for_privacy cancel_timer publish say apply_mark interrupt connected_count
  remove_for_privacy-KeepsNothing u said p r e =
      let quiet =
        cancel_timer TimerName.cap_grace
          (cancel_timer TimerName.cap (cancel_timer TimerName.silence r)) in
      let free = release_floor quiet in
      let frame = apply_mark_frame (remove (world.now Moment.removing) u) free.session in
      let s = mark_removed (world.now Moment.removing) u free.session in
      let (buffered, recent, holder, plane, people, lines) = release_floor-kept 0 quiet in
      let gone =
        Event.participant_removed u.value (name_of (some u) r.session) (kinds_in setup.matcher said)
          (connected_count s) in
      let kept : KeepsNothing u.value r (record free {
        session = record s { last_speaker = some u };
        nudged = none;
        pending_target = none;
        published =
            (free.published ++ gone ∷ []) ++ Event.speaking_time_updated (snapshot s.ledger) ∷ [];
      }) =
        (
          ap (λ t. t.buffered_turns) frame ∙ buffered,
          ap (λ t. t.recent_turns) frame ∙ recent,
          ap (λ t. t.floor_holder) frame ∙ holder,
          plane,
          mark_removed-IsOut (world.now Moment.removing) u p free.session
              (ap (get u.value) people ∙ e),
          lines_of-append (free.published ++ gone ∷ [])
                (Event.speaking_time_updated (snapshot s.ledger)) refl
              ∙ lines_of-append free.published gone refl
              ∙ lines,
        ) in
      if-KeepsNothing (is_active s.status) u.value r _ _ kept kept

  -- When the holder of the floor, who has a seat, ends a turn with words that contain personal
  -- information and the setting to remove is on, the transcript is the one before, nobody has the
  -- floor or is forwarded by the voice plane, the speaker is out, and no line was published.
  pub personal_information-KeepsNothing :
      (u : Uuid) (text : Text) (forced : Bool) (p : ParticipantState) (r : Runner)
      → holds_id u r.session.floor_holder ≡ true
      → get u.value r.session.participants ≡ some p
      → is_nonempty (strip text) ≡ true
      → setup.remove_on_personal_information ≡ true
      → contains_personal_information setup.matcher text ≡ true
      → KeepsNothing u.value r (on_answer setup world u text forced r)
  unfolding on_answer
  personal_information-KeepsNothing u text forced p r holds seated worded on personal =
      subst (KeepsNothing u.value r)
        (sym (
          third_branch (not (holds_id u r.session.floor_holder))
            (not (is_nonempty (strip text)) && not forced)
            (setup.remove_on_personal_information
              && contains_personal_information setup.matcher text)
            r _ (remove_for_privacy setup world u text r) (accept_answer setup world u text r)
            (rw holds) (rw worded) (rw (on, personal))))
        (remove_for_privacy-KeepsNothing u text p r seated)
