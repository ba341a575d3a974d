-- ===== src/Examples/Gateways.antt =====
-- A classroom whose session is given up (backend/app/application/session_gateway.py), at which the
-- theorems are applied.
use gd_classroom.Prelude.{ℕ, ◌≡◌, refl, true, none, some, [], ◌∷◌, ok, false}
use gd_classroom.Domain.Enums.{ClassroomStatus, SessionStatus}
use gd_classroom.Store.{Db, Classroom, ClassroomParticipant, SessionParticipant, SessionRecord}
use gd_classroom.Rooms.Classrooms.{classroom_row}
use gd_classroom.Rooms.Sessions.{busy}
use gd_classroom.Rooms.Enrollment.{start}
use gd_classroom.Rooms.Gateway.{mark_status, status_row, complete_classroom}
use gd_classroom.Rooms.Gateway.Release.{mark_status-busy}
use gd_classroom.Rooms.Gateway.Restart.{with_status, gone_live, start_hands_out_aborted}
use gd_classroom.Examples.Hosts.{kit, settings, host, classroom, db}

abbrev session : SessionRecord
session = record {
  id = 15;
  classroom_id = 1;
  status = SessionStatus.pending;
  started_at = none;
  ended_at = none;
  end_reason = none;
}

abbrev sits_in : ℕ → SessionParticipant
sits_in user = record {
  session_id = 15;
  user_id = user;
  seat_no = 1;
  connected_at = none;
  left_at = none;
}

abbrev seat : ℕ → ℕ → ClassroomParticipant
seat user n = record { classroom_id = 1; user_id = user; seat_no = n; joined_at = 500 }

abbrev provisioned : Db
provisioned = record db {
  classrooms = record classroom { status = ClassroomStatus.live } ∷ [];
  participants = seat 7 1 ∷ seat 8 2 ∷ [];
  sessions = session ∷ [];
  session_participants = sits_in 7 ∷ sits_in 8 ∷ [];
}

mark_status-busy_example :
    busy (7 ∷ []) (mark_status 900 15 SessionStatus.aborted none provisioned) ≡ false
mark_status-busy_example = mark_status-busy 900 15 SessionStatus.aborted none (7 ∷ []) provisioned

abbrev left : Db
left = complete_classroom 15 true (mark_status 900 15 SessionStatus.aborted none provisioned)

start_hands_out_aborted_example :
    let live : Classroom = record classroom { status = ClassroomStatus.live } in
    let aborted = status_row 900 15 SessionStatus.aborted none session in
    (classroom_row 1 left ≡ some (with_status ClassroomStatus.ready live))
    × (aborted.status ≡ SessionStatus.aborted)
    × (start kit settings 1000 1 host left ≡ (ok aborted, gone_live 1 left))
    × (classroom_row 1 (gone_live 1 left) ≡ some (with_status ClassroomStatus.live live))
start_hands_out_aborted_example =
    start_hands_out_aborted 900 1 none session provisioned kit settings 1000 host
      (record classroom { status = ClassroomStatus.live }) refl refl refl refl refl
