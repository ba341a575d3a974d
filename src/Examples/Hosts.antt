-- ===== src/Examples/Hosts.antt =====
-- A classroom with two invitations (backend/app/application/enrollment.py) at which the theorems are
-- applied.
use gd_classroom.Prelude.{
  ℕ, ◌≤◌, ◌≡◌, refl, arith, true, false, none, [], ◌∷◌, codes, strip, text_eq, is_space,
}
use gd_classroom.Domain.Enums.{Role, ClassroomStatus, InvitationStatus}
use gd_classroom.Store.{◌>>=◌, Classroom, ClassroomParticipant, Invitation, Db}
use gd_classroom.Rooms.Classrooms.{Settings, SessionUser, get_classroom, publish_update, seat_count}
use gd_classroom.Rooms.Invitations.{mark, get_invitation, assert_open, load_open}
use gd_classroom.Rooms.Enrollment.{
  Kit, holds_text, clean_onto, clean_emails, notify_response, after_reject, apply_response, respond,
}
use gd_classroom.Rooms.Seats.{IsSeated, occupied, respond-IsSeated}
use gd_classroom.Rooms.Ways.{answer, in_app, by_link}
use gd_classroom.Rooms.Answers.Once.{answered_once}
use gd_classroom.Rooms.Guests.{is_distinct, clean_emails-is_distinct}
use gd_classroom.Examples.Accounts.{ciphers, ann}

abbrev pub kit : Kit
kit = record {
  ciphers = ciphers;
  random_token = λ n. n ∷ [];
  capitalize = λ t. t;
  unusable_password = λ n. 0x21 ∷ n ∷ [];
}

abbrev pub settings : Settings
settings = record {
  participants_per_classroom = 4;
  min_participants_to_start = 2;
  invitation_ttl = 86400;
  mail_enabled = false;
}

abbrev pub classroom : Classroom
classroom = record {
  id = 1;
  topic_id = 2;
  created_by = 9;
  title = codes "Parks";
  status = ClassroomStatus.inviting;
  seat_count = 4;
  persist_transcript = true;
  expires_at = 172800;
}

abbrev invitation : Invitation
invitation = record {
  id = 11;
  classroom_id = 1;
  user_id = 7;
  attempt_no = 1;
  status = InvitationStatus.pending;
  token_hash = codes "t";
  expires_at = 86400;
  responded_at = none;
  reject_reason = none;
  invited_email = codes "ann@x";
}

abbrev bob_sits : ClassroomParticipant
bob_sits = record { classroom_id = 1; user_id = 8; seat_no = 1; joined_at = 500 }

abbrev pub db : Db
db = record {
  users = ann ∷ [];
  refresh_tokens = [];
  topics = record { id = 2; title = codes "Parks"; is_active = true } ∷ [];
  classrooms = classroom ∷ [];
  participants = bob_sits ∷ [];
  invitations =
      invitation ∷ record invitation { id = 12; user_id = 6; token_hash = codes "u" } ∷ [];
  sessions = [];
  session_participants = [];
  events = [];
  mail = [];
  next_id = 20;
}

one_seat : (room k : ℕ) → occupied room k db.participants ≤ 1
one_seat room k = ground arith

respond-IsSeated_example :
    let db' = (answer kit settings 1000 (by_link (codes "t")) true none db).1 in
    IsSeated db'.participants × ((room : ℕ) → seat_count room db' ≤ 4)
respond-IsSeated_example =
    respond-IsSeated kit settings 1000 (by_link (codes "t")) true none db
      (one_seat, ((omega arith, omega arith), tt))

-- Ann declines in the application, and then follows the link.
answered_once_example :
    (answer kit settings 2000
      (by_link (codes "t"))
      true
      none
      (answer kit settings 1000 (in_app 11 7) false none db).1).0
    ≡ false
unfolding respond load_open get_invitation assert_open apply_response get_classroom mark
    after_reject notify_response publish_update text_eq ◌>>=◌
answered_once_example =
    answered_once kit settings 1000 2000 (in_app 11 7) (by_link (codes "t")) false true none none
      invitation db refl refl refl refl

abbrev pub host : SessionUser
host = record { id = 9; email = codes "host@x"; role = Role.super_user }

-- The second address repeats the first.
clean_emails-is_distinct_example :
    let out = codes "ann@x" ∷ codes "bob@x" ∷ [] in
    (is_distinct out ≡ true) × (holds_text (codes "host@x") out ≡ false)
unfolding clean_emails clean_onto strip is_space text_eq
clean_emails-is_distinct_example =
    clean_emails-is_distinct kit settings 1000 (codes "ann@x" ∷ codes " ann@x" ∷ codes "bob@x" ∷ [])
      (codes "ann@x" ∷ codes "bob@x" ∷ []) host refl
