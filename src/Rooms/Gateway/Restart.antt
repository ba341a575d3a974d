-- ===== src/Rooms/Gateway/Restart.antt =====
-- The start of a classroom whose session was aborted: `start` of backend/app/application/enrollment.py
-- after the writes of backend/app/application/session_gateway.py.
use mathlib.Core.Option
use gd_classroom.Prelude.{
  ℕ, ◌≡◌, refl, ap, ◌∙◌, arith, true, false, Option, none, some, [], ◌∷◌, ◌++◌, ltb, ok,
  if◌then◌else◌, ◌==◌,
}
use gd_classroom.Domain.Enums.{ClassroomStatus, ClassroomStatus-discrete, EndReason, SessionStatus}
use gd_classroom.Domain.StateMachines.{
  next, can, classroom_fsm, ClassroomEvent, ClassroomEvent-discrete,
}
use gd_classroom.Store.{◌>>=◌, ◌>>◌, Action, pure, gets, SessionRecord, Db, Classroom, Notice}
use gd_classroom.Store.Rows.{first_of, first_of-change_first, first_of-map, first_of-test}
use gd_classroom.Store.Binds.{>>=-ok}
use gd_classroom.Rooms.Classrooms.{
  Settings, SessionUser, assert_owner, classroom_row, get_classroom, publish_update, set_status,
  transition, seat_count,
}
use gd_classroom.Rooms.Sessions.{by_classroom}
use gd_classroom.Rooms.Enrollment.{Kit, start}
use gd_classroom.Rooms.Gateway.{mark_status, status_row, complete_classroom}
use gd_classroom.Rooms.Gateway.Release.{by_classroom-mark_status, status_row-classroom}

abbrev pub with_status : ClassroomStatus → Classroom → Classroom
with_status status c = record c { status = status }

set_status-row :
    (room : ℕ) (status : ClassroomStatus) (c : Classroom) (db : Db)
    → classroom_row room db ≡ some c
    → classroom_row room (set_status room status db) ≡ some (with_status status c)
set_status-row room status c db h =
    first_of-change_first (λ c. c.id == room) (with_status status) db.classrooms c (λ c. refl) h

can-started : can classroom_fsm ClassroomStatus.ready ClassroomEvent.started ≡ true
unfolding can next ClassroomStatus-discrete ClassroomEvent-discrete
can-started = refl

next-started :
    next classroom_fsm ClassroomStatus.ready ClassroomEvent.started ≡ ok ClassroomStatus.live
unfolding can next ClassroomStatus-discrete ClassroomEvent-discrete
next-started = refl

transition-started :
    (room : ℕ) (c : Classroom) (db : Db)
    → classroom_row room db ≡ some c
    → c.status ≡ ClassroomStatus.ready
    → transition room ClassroomEvent.started db ≡ (ok tt, set_status room ClassroomStatus.live db)
unfolding transition get_classroom ◌>>=◌
transition-started room c db h ready =
    let legal : next classroom_fsm c.status ClassroomEvent.started ≡ ok ClassroomStatus.live =
      rw ready next-started in
    rw (h, legal, transition, get_classroom, ◌>>=◌) refl

-- The classroom goes live, and twice it is said so: to those in it and to its host.
abbrev pub gone_live : ℕ → Db → Db
gone_live room db =
    let notice = Notice.classroom_updated room ClassroomStatus.live in
    let db' = set_status room ClassroomStatus.live db in
    record db' { events = db'.events ++ notice ∷ notice ∷ [] }

announced :
    (room : ℕ) (c : Classroom) (db : Db)
    → classroom_row room db ≡ some c
    → c.status ≡ ClassroomStatus.ready
    → (transition room ClassroomEvent.started >> publish_update room) db
      ≡ (ok tt, gone_live room db)
unfolding publish_update get_classroom ◌>>=◌
announced room c db h ready =
    let live = set_status-row room ClassroomStatus.live c db h in
    >>=-ok (transition room ClassroomEvent.started) (λ _. publish_update room) db tt
      (set_status room ClassroomStatus.live db) (transition-started room c db h ready)
    ∙ rw (live, publish_update, get_classroom, ◌>>=◌) refl

get_classroom-found :
    (room : ℕ) (c : Classroom) (db : Db)
    → classroom_row room db ≡ some c
    → get_classroom room db ≡ (ok c, db)
unfolding get_classroom ◌>>=◌
get_classroom-found room c db h = rw h refl

-- The end of `start`.
abbrev go_live : ℕ → SessionRecord → Action Db SessionRecord
go_live room s = do
  classroom ← get_classroom room
  if can classroom_fsm classroom.status ClassroomEvent.started
      then transition room ClassroomEvent.started >> publish_update room
      else pure tt
  pure s

went_live :
    (room : ℕ) (c : Classroom) (s : SessionRecord) (db : Db)
    → classroom_row room db ≡ some c
    → c.status ≡ ClassroomStatus.ready
    → go_live room s db ≡ (ok s, gone_live room db)
went_live room c s db h ready =
    let allowed : can classroom_fsm c.status ClassroomEvent.started ≡ true = rw ready can-started in
    let done =
      >>=-ok (transition room ClassroomEvent.started >> publish_update room) (λ _. pure s) db tt
        (gone_live room db) (announced room c db h ready) in
    >>=-ok (get_classroom room) _ db c db (get_classroom-found room c db h) ∙ rw allowed done

start-existing :
    (kit : Kit) (settings : Settings) (now room : ℕ) (user : SessionUser) (c : Classroom)
    (s : SessionRecord) (db : Db)
    → classroom_row room db ≡ some c
    → c.status ≡ ClassroomStatus.ready
    → (c.created_by == user.id) ≡ true
    → ltb (seat_count room db) settings.min_participants_to_start ≡ false
    → by_classroom room db ≡ some s
    → start kit settings now room user db ≡ (ok s, gone_live room db)
unfolding start
start-existing kit settings now room user c s db h ready owner enough found =
    >>=-ok (get_classroom room) _ db c db (get_classroom-found room c db h)
    ∙ >>=-ok (assert_owner c user) _ db tt db (rw owner refl)
    ∙ >>=-ok (gets (seat_count room)) _ db (seat_count room db) db refl
    ∙ >>=-ok _ _ db tt db (rw enough refl)
    ∙ >>=-ok (gets (by_classroom room)) _ db (some s) db (rw found refl)
    ∙ >>=-ok _ _ db s db refl
    ∙ went_live room c s db h ready

status_row-id :
    (at session : ℕ) (status : SessionStatus) (reason : Option EndReason) (s : SessionRecord)
    → (status_row at session status reason s).id ≡ s.id
status_row-id at session status reason s = ground arith

status_row-status :
    (at session : ℕ) (reason : Option EndReason) (s : SessionRecord)
    → s.id ≡ session
    → (status_row at session SessionStatus.aborted reason s).status ≡ SessionStatus.aborted
status_row-status at session reason s h = ground (arith, h)

module _ (at room : ℕ) (reason : Option EndReason) (s : SessionRecord) (db : Db) where
  -- The database once the session is given up.
  abbrev pub marked : Db
  marked = mark_status at s.id SessionStatus.aborted reason db

  abbrev pub aborted : SessionRecord
  aborted = status_row at s.id SessionStatus.aborted reason s

  given_up :
      by_classroom room db ≡ some s
      → first_of (λ r. r.id == s.id) db.sessions ≡ some s
      → complete_classroom s.id true marked ≡ set_status room ClassroomStatus.ready marked
  unfolding complete_classroom mark_status
  given_up found own =
      let test = first_of-test (λ r. r.classroom_id == room) db.sessions s found in
      let same : s.classroom_id ≡ room = ground (arith, test) in
      let still =
        first_of-map (λ r. r.id == s.id) (status_row at s.id SessionStatus.aborted reason)
          db.sessions
          (λ r. ap (λ i. i == s.id) (status_row-id at s.id SessionStatus.aborted reason r)) in
      let row = still ∙ ap (Option.map (status_row at s.id SessionStatus.aborted reason)) own in
      ap
        (λ o. elim o [
          | none ↦ marked
          | some r ↦ set_status r.classroom_id ClassroomStatus.ready marked
        ])
        row
      ∙ ap (λ i. set_status i ClassroomStatus.ready marked)
          (status_row-classroom at s.id SessionStatus.aborted reason s ∙ same)

  -- A session is given up: its row becomes ABORTED, and its classroom READY. When the host then starts the
  -- classroom, which still has enough seats taken, `start` returns the aborted session, makes the
  -- classroom LIVE and announces that to it and to the host; nothing else is written, so there is no new
  -- session.
  pub start_hands_out_aborted :
      (kit : Kit) (settings : Settings) (now : ℕ) (user : SessionUser) (c : Classroom)
      → classroom_row room db ≡ some c
      → (c.created_by == user.id) ≡ true
      → ltb (seat_count room db) settings.min_participants_to_start ≡ false
      → by_classroom room db ≡ some s
      → first_of (λ r. r.id == s.id) db.sessions ≡ some s
      → let left = complete_classroom s.id true marked in
        (classroom_row room left ≡ some (with_status ClassroomStatus.ready c))
        × (aborted.status ≡ SessionStatus.aborted)
        × (start kit settings now room user left ≡ (ok aborted, gone_live room left))
        × (classroom_row room (gone_live room left) ≡ some (with_status ClassroomStatus.live c))
  unfolding mark_status
  start_hands_out_aborted kit settings now user c h owner enough found own =
      let ready = set_status-row room ClassroomStatus.ready c marked h in
      let live =
        set_status-row room ClassroomStatus.live (with_status ClassroomStatus.ready c)
          (set_status room ClassroomStatus.ready marked) ready in
      let listed =
        by_classroom-mark_status at s.id room SessionStatus.aborted reason db
        ∙ ap (Option.map (status_row at s.id SessionStatus.aborted reason)) found in
      rw (given_up found own) (
        ready,
        status_row-status at s.id reason s refl,
        start-existing kit settings now room user (with_status ClassroomStatus.ready c) aborted
            (set_status room ClassroomStatus.ready marked) ready refl owner enough listed,
        live,
      )
