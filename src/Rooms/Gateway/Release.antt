-- ===== src/Rooms/Gateway/Release.antt =====
-- Whom the end of a session sets free (backend/app/application/session_gateway.py).
use mathlib.Core.Option
use gd_classroom.Prelude.{
  ℕ, ◌≡◌, refl, ap, arith, Bool, not, ◌&&◌, Option, List, [], ◌∷◌, map, any_of, if◌then◌else◌, ◌==◌,
  is_some,
}
use gd_classroom.Domain.Enums.{EndReason, SessionStatus}
use gd_classroom.Store.{SessionParticipant, SessionRecord, Db}
use gd_classroom.Store.Rows.{first_of-map}
use gd_classroom.Rooms.Sessions.{is_over, release, busy, by_classroom}
use gd_classroom.Rooms.Gateway.{mark_status, status_row}

-- A seat of one of these people that they have not left, in another session than this.
abbrev pub holds_elsewhere : List ℕ → ℕ → SessionParticipant → Bool
holds_elsewhere ids session p =
    any_of (p.user_id ==◌) ids && not (is_some p.left_at) && not (p.session_id == session)

released_busy :
    (now session : ℕ) (ids : List ℕ) (seats : List SessionParticipant)
    → any_of
        (λ p. any_of (p.user_id ==◌) ids && not (is_some p.left_at))
        (map (release now session) seats)
      ≡ any_of (holds_elsewhere ids session) seats
released_busy now session ids [] = refl
released_busy now session ids (p ∷ ps) = ground (arith, released_busy now session ids ps)

-- Once the final status of a session is written, of any people only a seat in another session still
-- counts as a discussion that they are in; a status that is not final changes nothing about it.
pub mark_status-busy :
    (now session : ℕ) (status : SessionStatus) (reason : Option EndReason) (ids : List ℕ) (db : Db)
    → busy ids (mark_status now session status reason db) ≡ (
        if is_over status
        then any_of (holds_elsewhere ids session) db.session_participants
        else busy ids db)
unfolding mark_status busy
mark_status-busy now session status reason ids db =
    ground (arith, released_busy now session ids db.session_participants)

pub status_row-classroom :
    (now session : ℕ) (status : SessionStatus) (reason : Option EndReason) (s : SessionRecord)
    → (status_row now session status reason s).classroom_id ≡ s.classroom_id
status_row-classroom now session status reason s = ground arith

-- The session of a classroom is still found after its status is written.
pub by_classroom-mark_status :
    (now session room : ℕ) (status : SessionStatus) (reason : Option EndReason) (db : Db)
    → by_classroom room (mark_status now session status reason db)
      ≡ Option.map (status_row now session status reason) (by_classroom room db)
unfolding mark_status
by_classroom-mark_status now session room status reason db =
    first_of-map (λ s. s.classroom_id == room) (status_row now session status reason) db.sessions
      (λ s. ap (λ c. c == room) (status_row-classroom now session status reason s))
