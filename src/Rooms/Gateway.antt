-- ===== src/Rooms/Gateway.antt =====
-- What a runner writes about its session: `SessionDataGateway` of
-- backend/app/application/session_gateway.py. Each method is a transaction of its own. The transcript, the
-- summary and the load of a session are not modelled.
pub mod Release
pub mod Restart
use gd_classroom.Prelude.{ℕ, Bool, Option, none, some, map, if◌then◌else◌, ◌==◌, is_some}
use gd_classroom.Domain.Enums.{ClassroomStatus, EndReason, SessionStatus}
use gd_classroom.Store.{SessionRecord, Db}
use gd_classroom.Store.Rows.{first_of}
use gd_classroom.Rooms.Classrooms.{set_status}
use gd_classroom.Rooms.Sessions.{is_over, release}

abbrev pub start_row : ℕ → ℕ → SessionRecord → SessionRecord
start_row now session s =
    if s.id == session then record s { status = SessionStatus.active; started_at = some now } else s

unfoldable pub mark_active : ℕ → ℕ → Db → Db
mark_active now session db = record db { sessions = map (start_row now session) db.sessions }

abbrev pub status_row : ℕ → ℕ → SessionStatus → Option EndReason → SessionRecord → SessionRecord
status_row now session status reason s =
    if s.id == session
    then record s {
      status = status;
      end_reason = if is_some reason then reason else s.end_reason;
      ended_at = if is_over status then some now else s.ended_at;
    }
    else s

unfoldable pub mark_status : ℕ → ℕ → SessionStatus → Option EndReason → Db → Db
mark_status now session status reason db = record db {
  sessions = map (status_row now session status reason) db.sessions;
  session_participants =
      if is_over status
      then map (release now session) db.session_participants
      else db.session_participants;
}

unfoldable pub complete_classroom : ℕ → Bool → Db → Db
complete_classroom session aborted db = elim (first_of (λ s. s.id == session) db.sessions) [
  | none ↦ db
  | some s ↦
      set_status s.classroom_id
        (if aborted then ClassroomStatus.ready else ClassroomStatus.completed) db
]
