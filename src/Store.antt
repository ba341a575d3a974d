-- ===== src/Store.antt =====
-- The rows that the services of backend/app/modules share, and the unit of work of backend/app/db/uow.py
-- with the dependency `unit_of_work` of backend/app/api/deps.py. Tables are lists of rows in the order of
-- their insertion. Identifiers are numbers, drawn from one counter in place of `uuid4`; times are seconds.
-- One request runs at a time, and its clock stands still.
pub mod Actions
pub mod Rollback
pub mod Rows
pub mod Binds
unfoldable pub use Actions.*
use gd_classroom.Prelude.{ℕ, Bool, Option, List, [], Text, Result, ok, err}
use gd_classroom.Domain.Enums.{
  Role, Gender, ClassroomStatus, InvitationStatus, SessionStatus, EndReason,
}

-- backend/app/modules/identity/models.py
pub record User : Type 0 where
  pub id : ℕ
  pub email : Text
  pub password_hash : Text
  pub display_name : Text
  pub role : Role
  pub gender : Gender
  pub is_active : Bool
  pub last_seen_at : Option ℕ
  pub last_invited_at : Option ℕ

pub record RefreshToken : Type 0 where
  pub user_id : ℕ
  pub family_id : ℕ
  pub token_hash : Text
  pub expires_at : ℕ
  pub revoked_at : Option ℕ

-- backend/app/modules/classroom/models.py
pub record Topic : Type 0 where
  pub id : ℕ
  pub title : Text
  pub is_active : Bool

pub record Classroom : Type 0 where
  pub id : ℕ
  pub topic_id : ℕ
  pub created_by : ℕ
  pub title : Text
  pub status : ClassroomStatus
  pub seat_count : ℕ
  pub persist_transcript : Bool
  pub expires_at : ℕ

pub record ClassroomParticipant : Type 0 where
  pub classroom_id : ℕ
  pub user_id : ℕ
  pub seat_no : ℕ
  pub joined_at : ℕ

-- backend/app/modules/invitation/models.py
pub record Invitation : Type 0 where
  pub id : ℕ
  pub classroom_id : ℕ
  pub user_id : ℕ
  pub attempt_no : ℕ
  pub status : InvitationStatus
  pub token_hash : Text
  pub expires_at : ℕ
  pub responded_at : Option ℕ
  pub reject_reason : Option Text
  pub invited_email : Text

-- backend/app/modules/session/models.py
pub record SessionRecord : Type 0 where
  pub id : ℕ
  pub classroom_id : ℕ
  pub status : SessionStatus
  pub started_at : Option ℕ
  pub ended_at : Option ℕ
  pub end_reason : Option EndReason

pub record SessionParticipant : Type 0 where
  pub session_id : ℕ
  pub user_id : ℕ
  pub seat_no : ℕ
  pub connected_at : Option ℕ
  pub left_at : Option ℕ

-- The events that the services collect: whom they are for, and what they name.
pub data Notice : Type 0 where
  invitation_sent : ℕ → ℕ → Notice
  invitation_responded : ℕ → ℕ → InvitationStatus → Notice
  classroom_updated : ℕ → ClassroomStatus → Notice
  session_ready : ℕ → ℕ → Notice
  session_ended : ℕ → Text → Notice

-- An invitation carries the token, a notice that the room is open the session.
pub data Mail : Type 0 where
  invitation_mail : Text → Text → Mail
  ready_mail : Text → ℕ → Mail

-- What one transaction sees, with the events and the mail that it has collected.
pub record Db : Type 0 where
  pub users : List User
  pub refresh_tokens : List RefreshToken
  pub topics : List Topic
  pub classrooms : List Classroom
  pub participants : List ClassroomParticipant
  pub invitations : List Invitation
  pub sessions : List SessionRecord
  pub session_participants : List SessionParticipant
  pub events : List Notice
  pub mail : List Mail
  pub next_id : ℕ

-- How a request ends: its result, what the database then holds, and what was published and sent.
pub record Served (A : Type 0) : Type 0 where
  pub result : Result AppError A
  pub db : Db
  pub published : List Notice
  pub sent : List Mail

-- `unit_of_work`: what an action wrote is committed if it returns, and rolled back if it raises.
unfoldable pub unit_of_work : {A : Type 0} → Action Db A → Db → Served A
unit_of_work action db =
    let (result, db') = action db in
    elim result [
      | ok a ↦ record {
        result = ok a;
        db = record db' { events = []; mail = [] };
        published = db'.events;
        sent = db'.mail;
      }
      | err e ↦ record { result = err e; db = db; published = []; sent = [] }
    ]
