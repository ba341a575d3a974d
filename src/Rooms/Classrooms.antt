-- ===== src/Rooms/Classrooms.antt =====
-- Classrooms and their seats: `ClassroomService` of backend/app/modules/classroom/service.py over the
-- repositories of backend/app/modules/classroom/repository.py. A classroom is read from its row wherever
-- the code reads the shared object. The log is not modelled.
use gd_classroom.Prelude.{
  ℕ, ◌+◌, ◌*◌, Bool, true, false, not, ◌&&◌, Option, none, some, List, [], ◌∷◌, ◌++◌, take,
  filter_by, any_of, length, ltb, ◌==◌, Text, codes, strip, sorted, Result, ok, err,
}
use gd_classroom.Domain.Enums.{ClassroomStatus, Role}
use gd_classroom.Domain.StateMachines.{
  ClassroomEvent, classroom_fsm, next, is_terminal, IllegalTransition,
}
use gd_classroom.Store.{
  AppError, Action, pure, gets, modifies, or_raise, raise_if, Topic, Classroom,
  ClassroomParticipant, Notice, Db, ◌>>=◌, ◌>>◌,
}
use gd_classroom.Store.Rows.{first_of, change_first}
use gd_classroom.Identity.Accounts.{fresh_id}

-- The settings that the services read (backend/app/core/config.py).
pub record Settings : Type 0 where
  pub participants_per_classroom : ℕ
  pub min_participants_to_start : ℕ
  pub invitation_ttl : ℕ
  pub mail_enabled : Bool

-- The caller: `SessionUser`.
pub record SessionUser : Type 0 where
  pub id : ℕ
  pub email : Text
  pub role : Role

abbrev pub is_super_user : Role → Bool
is_super_user Role.super_user = true
is_super_user Role.participant = false

abbrev pub sits_in : ℕ → ClassroomParticipant → Bool
sits_in room p = p.classroom_id == room

abbrev pub is_seat_of : ℕ → ℕ → ClassroomParticipant → Bool
is_seat_of room user_id p = sits_in room p && p.user_id == user_id

abbrev pub seats_in : ℕ → List ClassroomParticipant → List ClassroomParticipant
seats_in room seats = filter_by (sits_in room) seats

abbrev pub classroom_row : ℕ → Db → Option Classroom
classroom_row room db = first_of (λ c. c.id == room) db.classrooms

abbrev pub set_status : ℕ → ClassroomStatus → Db → Db
set_status room status db = record db {
  classrooms = change_first (λ c. c.id == room) (λ c. record c { status = status }) db.classrooms;
}

unfoldable pub get_classroom : ℕ → Action Db Classroom
get_classroom room = do or_raise (← gets (classroom_row room)) AppError.not_found

unfoldable pub get_topic : ℕ → Action Db Topic
get_topic id = do or_raise (← gets (λ db. first_of (λ t. t.id == id) db.topics)) AppError.not_found

-- `assert_owner`
abbrev pub assert_owner : Classroom → SessionUser → Action Db (Unit {0})
assert_owner classroom user =
    raise_if (not (classroom.created_by == user.id)) AppError.authorization

-- `assert_member`: the host is not a participant, and is let in all the same.
unfoldable pub assert_member : Classroom → SessionUser → Action Db (Unit {0})
assert_member classroom user = do
  member ← gets (λ db. any_of (is_seat_of classroom.id user.id) db.participants)
  raise_if (not (classroom.created_by == user.id) && not member) AppError.authorization

-- A result of the state machine as one of the service: `IllegalTransitionError`.
abbrev pub or_illegal :
    Result (IllegalTransition ClassroomStatus ClassroomEvent) ClassroomStatus
    → Result AppError ClassroomStatus
or_illegal (ok status) = ok status
or_illegal (err e) = err AppError.illegal_transition

unfoldable pub transition : ℕ → ClassroomEvent → Action Db (Unit {0})
unfolding next
transition room event = do
  classroom ← get_classroom room
  status ← (λ db. (or_illegal (next classroom_fsm classroom.status event), db))
  modifies (set_status room status)

-- `publish_update`, to the classroom's topic and to its host.
unfoldable pub publish_update : ℕ → Action Db (Unit {0})
publish_update room = do
  classroom ← get_classroom room
  let notice = Notice.classroom_updated room classroom.status
  modifies (λ db. record db { events = db.events ++ notice ∷ notice ∷ [] })

-- `create`; the configuration is only stored.
unfoldable pub create : Settings → ℕ → SessionUser → ℕ → Option Text → Bool → Action Db Classroom
unfolding strip
create settings now creator topic_id title persist = do
  raise_if (not (is_super_user creator.role)) AppError.authorization
  found ← gets (λ db. first_of (λ t. t.id == topic_id) db.topics)
  topic ← or_raise found AppError.not_found
  raise_if (not topic.is_active) AppError.not_found
  id ← fresh_id
  let classroom : Classroom = record {
    id = id;
    topic_id = topic.id;
    created_by = creator.id;
    title = take 160 (strip (title_or title (topic.title ++ codes " — group discussion")));
    status = ClassroomStatus.draft;
    seat_count = settings.participants_per_classroom;
    persist_transcript = persist;
    expires_at = now + settings.invitation_ttl * 2;
  }
  modifies (λ db. record db { classrooms = db.classrooms ++ classroom ∷ [] })
  pure classroom
  where
    title_or : Option Text → Text → Text
    title_or none default = default
    title_or (some []) default = default
    title_or (some (c ∷ cs)) default = c ∷ cs

-- `next((seat for seat in range(1, 5) if seat not in taken), None)`
abbrev pub is_taken : ℕ → List ClassroomParticipant → Bool
is_taken seat seats = any_of (λ p. p.seat_no == seat) seats

unfoldable pub next_free_seat : List ClassroomParticipant → Option ℕ
next_free_seat seats = first_of (λ seat. not (is_taken seat seats)) (1 ∷ 2 ∷ 3 ∷ 4 ∷ [])

unfoldable pub take_seat : ℕ → ℕ → ℕ → Action Db ClassroomParticipant
take_seat now room user_id = do
  free ← gets (λ db. next_free_seat (seats_in room db.participants))
  seat_no ← or_raise free AppError.seats_full
  let p : ClassroomParticipant = record {
    classroom_id = room;
    user_id = user_id;
    seat_no = seat_no;
    joined_at = now;
  }
  modifies (λ db. record db { participants = db.participants ++ p ∷ [] })
  pure p

abbrev pub seat_or_take : ℕ → ℕ → ℕ → Option ClassroomParticipant → Action Db ClassroomParticipant
seat_or_take now room user_id (some p) = pure p
seat_or_take now room user_id none = take_seat now room user_id

unfoldable pub seat : ℕ → ℕ → ℕ → Action Db ClassroomParticipant
seat now room user_id = do
  existing ← gets (λ db. first_of (is_seat_of room user_id) db.participants)
  seat_or_take now room user_id existing

abbrev pub seat_count : ℕ → Db → ℕ
seat_count room db = length (seats_in room db.participants)

-- `for_classroom`, in the order of the seats
unfoldable pub roster : ℕ → Db → List ClassroomParticipant
unfolding sorted
roster room db = sorted (λ p q. ltb p.seat_no q.seat_no) (seats_in room db.participants)

-- `ClassroomService.cancel`
unfoldable pub close_classroom : ℕ → SessionUser → Action Db (Unit {0})
unfolding is_terminal
close_classroom room user = do
  classroom ← get_classroom room
  assert_owner classroom user
  raise_if (is_terminal classroom_fsm classroom.status) AppError.conflict
  transition room ClassroomEvent.cancelled
  publish_update room
