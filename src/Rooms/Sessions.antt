-- ===== src/Rooms/Sessions.antt =====
-- Session rows: `SessionService` of backend/app/modules/session/service.py over the repositories of
-- backend/app/modules/session/repository.py. Turns, summaries and tickets are other parts.
use gd_classroom.Prelude.{
  ℕ, Bool, true, false, not, ◌&&◌, Option, none, some, List, [], ◌∷◌, ◌++◌, map, any_of,
  if◌then◌else◌, ◌==◌, is_some, Text,
}
use gd_classroom.Domain.Enums.{SessionStatus}
use gd_classroom.Store.{
  AppError, Action, pure, gets, modifies, raise_if, ◌>>◌, Classroom, ClassroomParticipant,
  SessionRecord, SessionParticipant, Notice, Db, ◌>>=◌,
}
use gd_classroom.Store.Rows.{first_of, change_first}
use gd_classroom.Identity.Accounts.{fresh_id}

-- `ENDED` or `ABORTED`
abbrev pub is_over : SessionStatus → Bool
is_over SessionStatus.ended = true
is_over SessionStatus.aborted = true
is_over _ = false

abbrev pub by_classroom : ℕ → Db → Option SessionRecord
by_classroom room db = first_of (λ s. s.classroom_id == room) db.sessions

-- Whoever sits in a session that they have not left is in a discussion.
unfoldable pub busy : List ℕ → Db → Bool
busy ids db =
    any_of (λ p. any_of (p.user_id ==◌) ids && not (is_some p.left_at)) db.session_participants

abbrev pub session_seat : ℕ → ClassroomParticipant → SessionParticipant
session_seat session p = record {
  session_id = session;
  user_id = p.user_id;
  seat_no = p.seat_no;
  connected_at = none;
  left_at = none;
}

unfoldable pub provision_new : Classroom → List ClassroomParticipant → Action Db SessionRecord
provision_new classroom roster = do
  taken ← gets (busy (map (λ p. p.user_id) roster))
  raise_if taken AppError.conflict
  id ← fresh_id
  let session : SessionRecord = record {
    id = id;
    classroom_id = classroom.id;
    status = SessionStatus.pending;
    started_at = none;
    ended_at = none;
    end_reason = none;
  }
  modifies (λ db. record db {
    sessions = db.sessions ++ session ∷ [];
    session_participants = db.session_participants ++ map (session_seat id) roster;
    events =
        db.events
        ++ map (λ p. Notice.session_ready p.user_id id) roster
        ++ Notice.session_ready classroom.created_by id ∷ [];
  })
  pure session

abbrev pub provision_over :
    Classroom → List ClassroomParticipant → Option SessionRecord → Action Db SessionRecord
provision_over classroom roster (some s) = raise_if (is_over s.status) AppError.conflict >> pure s
provision_over classroom roster none = provision_new classroom roster

unfoldable pub provision : Classroom → List ClassroomParticipant → Action Db SessionRecord
provision classroom roster = do
  existing ← gets (by_classroom classroom.id)
  provision_over classroom roster existing

abbrev pub is_session_seat : ℕ → ℕ → SessionParticipant → Bool
is_session_seat session user_id p = p.session_id == session && p.user_id == user_id

unfoldable pub mark_connected : ℕ → ℕ → ℕ → Db → Db
mark_connected now session user_id db = record db {
  session_participants =
      change_first (is_session_seat session user_id)
        (λ p. if is_some p.connected_at then p else record p { connected_at = some now })
        db.session_participants;
}

-- Who has not left leaves.
abbrev pub release : ℕ → ℕ → SessionParticipant → SessionParticipant
release now session p =
    if p.session_id == session && not (is_some p.left_at)
    then record p { left_at = some now }
    else p

abbrev pub abort_row : ℕ → SessionRecord → SessionRecord
abort_row now s = record s { status = SessionStatus.aborted; ended_at = some now }

unfoldable pub abort : ℕ → ℕ → Text → Db → Db
abort now session reason db = elim (first_of (λ s. s.id == session) db.sessions) [
  | none ↦ db
  | some s ↦ if is_over s.status then db else record db {
    sessions = change_first (λ r. r.id == session) (abort_row now) db.sessions;
    session_participants = map (release now session) db.session_participants;
    events = db.events ++ Notice.session_ended session reason ∷ [];
  }
]
