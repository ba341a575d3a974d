-- ===== src/Rooms/Ways.antt =====
-- The two ways to answer an invitation: `respond` and `respond_by_token` of
-- backend/app/application/enrollment.py.
use gd_classroom.Prelude.{ℕ, Bool, Option, Text, ◌==◌, is_ok}
use gd_classroom.Store.{Invitation, Db}
use gd_classroom.Rooms.Classrooms.{Settings}
use gd_classroom.Rooms.Enrollment.{Kit, respond, respond_by_token}
use gd_classroom.Rooms.Loading.{has_token}

-- How an answer is given: in the application, by a user for an invitation, or by the link of a mail.
pub data Way : Type 0 where
  in_app : ℕ → ℕ → Way
  by_link : Text → Way

-- The rows that it is about.
abbrev pub names : Kit → Way → Invitation → Bool
names kit (in_app id user_id) i = i.id == id
names kit (by_link raw) i = has_token kit.ciphers raw i

-- Whether an answer is taken, and what it leaves.
abbrev pub answer : Kit → Settings → ℕ → Way → Bool → Option Text → Db → Bool × Db
answer kit settings now (in_app id user_id) accept reason db =
    let r = respond kit settings now id user_id accept reason db in (is_ok r.0, r.1)
answer kit settings now (by_link raw) accept reason db =
    let r = respond_by_token kit settings now raw accept reason db in (is_ok r.0, r.1)
