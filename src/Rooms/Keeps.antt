-- ===== src/Rooms/Keeps.antt =====
-- Properties of the seats and the invitations that the services keep: each method of
-- backend/app/application/enrollment.py runs to its end or its raise within one such property.
use gd_classroom.Prelude.{
  ℕ, inl, inr, Bool, true, false, not, ◌&&◌, Option, none, some, List, if◌then◌else◌, ltb, Result,
  Result-cases, ◌==◌,
}
use gd_classroom.Domain.Enums.{InvitationStatus}
use gd_classroom.Domain.StateMachines.{ClassroomEvent}
use gd_classroom.Store.{
  AppError, Action, gets, modifies, ◌>>=◌, Classroom, ClassroomParticipant, Invitation,
  SessionRecord, Db,
}
use gd_classroom.Rooms.Classrooms.{
  Settings, get_classroom, get_topic, transition, publish_update, seat,
}
use gd_classroom.Rooms.Invitations.{revoke_all, get_invitation}
use gd_classroom.Rooms.Sessions.{provision_new, provision_over, provision}
use gd_classroom.Rooms.Enrollment.{
  Kit, announce_ready, notify_response, open_room, maybe_reach_quorum, after_accept, after_reject,
  mail_ready, is_ready,
}

module _ (P : List ClassroomParticipant → List Invitation → Type 0) where
  abbrev pub Holds : Db → Type 0
  Holds db = P db.participants db.invitations

  -- Whatever the action does, it leaves the property as it finds it.
  pub record Keeps {A : Type 0} (m : Action Db A) : Type 0 where
    pub keep : (db : Db) → Holds db → Holds (m db).1

  pub >>=-Keeps :
      {A B : Type 0} {m : Action Db A} {f : A → Action Db B}
      → Keeps m
      → ((a : A) → Keeps (f a))
      → Keeps (m >>= f)
  unfolding ◌>>=◌
  >>=-Keeps {m = m} {f = f} hm hf = record {
    keep = λ db h. elim (Result-cases (m db).0) [
      | inl (a, e) ↦ rw (e, ◌>>=◌) ((hf a).keep (m db).1 (hm.keep db h))
      | inr (x, e) ↦ rw (e, ◌>>=◌) (hm.keep db h)
    ];
  }

  pub pure-Keeps : {A : Type 0} {r : Result AppError A} → Keeps (λ db. (r, db))
  pure-Keeps = record { keep = λ db h. h }

  pub gets-Keeps : {A : Type 0} {f : Db → A} → Keeps (gets f)
  gets-Keeps = record { keep = λ db h. h }

  pub get_classroom-Keeps : (room : ℕ) → Keeps (get_classroom room)
  unfolding get_classroom
  get_classroom-Keeps room = >>=-Keeps gets-Keeps (λ _. pure-Keeps)

  pub get_invitation-Keeps : (id : ℕ) → Keeps (get_invitation id)
  unfolding get_invitation
  get_invitation-Keeps id = >>=-Keeps gets-Keeps (λ _. pure-Keeps)

  get_topic-Keeps : (id : ℕ) → Keeps (get_topic id)
  unfolding get_topic
  get_topic-Keeps id = >>=-Keeps gets-Keeps (λ _. pure-Keeps)

  pub transition-Keeps : (room : ℕ) (event : ClassroomEvent) → Keeps (transition room event)
  unfolding transition
  transition-Keeps room event =
      >>=-Keeps (get_classroom-Keeps room)
        (λ c. >>=-Keeps pure-Keeps (λ s. record { keep = λ db h. h }))

  pub publish_update-Keeps : (room : ℕ) → Keeps (publish_update room)
  unfolding publish_update
  publish_update-Keeps room =
      >>=-Keeps (get_classroom-Keeps room) (λ c. record { keep = λ db h. h })

  pub if-Keeps :
      {A : Type 0} {m n : Action Db A} (b : Bool) → Keeps m → Keeps n → Keeps (if b then m else n)
  if-Keeps true hm hn = hm
  if-Keeps false hm hn = hn

  provision_new-Keeps :
      (c : Classroom) (roster : List ClassroomParticipant) → Keeps (provision_new c roster)
  unfolding provision_new
  provision_new-Keeps c roster = >>=-Keeps gets-Keeps (λ taken. >>=-Keeps pure-Keeps (λ _.
      >>=-Keeps (record { keep = λ db h. h })
        (λ id. >>=-Keeps (record { keep = λ db h. h }) (λ _. pure-Keeps))))

  provision_over-Keeps :
      (c : Classroom) (roster : List ClassroomParticipant) (existing : Option SessionRecord)
      → Keeps (provision_over c roster existing)
  provision_over-Keeps c roster (some s) = >>=-Keeps pure-Keeps (λ _. pure-Keeps)
  provision_over-Keeps c roster none = provision_new-Keeps c roster

  provision-Keeps :
      (c : Classroom) (roster : List ClassroomParticipant) → Keeps (provision c roster)
  unfolding provision
  provision-Keeps c roster = >>=-Keeps gets-Keeps (provision_over-Keeps c roster)

  module _ (kit : Kit) (settings : Settings) (now : ℕ) where
    mail_ready-Keeps :
        (room : ℕ) (s : SessionRecord) (seats : List ClassroomParticipant)
        → Keeps (mail_ready kit settings now room s seats)
    unfolding mail_ready
    mail_ready-Keeps room s seats =
        >>=-Keeps (get_classroom-Keeps room)
          (λ c. >>=-Keeps (get_topic-Keeps c.topic_id) (λ _. record { keep = λ db h. h }))

    announce_ready-Keeps :
        (room : ℕ) (s : SessionRecord) (seats : List ClassroomParticipant)
        → Keeps (announce_ready kit settings now room s seats)
    announce_ready-Keeps room s seats =
        if-Keeps settings.mail_enabled (mail_ready-Keeps room s seats) pure-Keeps

    notify_response-Keeps :
        (room user_id : ℕ) (status : InvitationStatus)
        → Keeps (notify_response kit settings now room user_id status)
    unfolding notify_response
    notify_response-Keeps room user_id status =
        >>=-Keeps (get_classroom-Keeps room) (λ c. record { keep = λ db h. h })

    pub after_reject-Keeps : (room user_id : ℕ) → Keeps (after_reject kit settings now room user_id)
    unfolding after_reject
    after_reject-Keeps room user_id =
        >>=-Keeps (notify_response-Keeps room user_id InvitationStatus.rejected)
          (λ _. >>=-Keeps (publish_update-Keeps room) (λ _. pure-Keeps))

    module _ (revoked : (room : ℕ) → Keeps (modifies (revoke_all now room)))
        (seated : (room user_id : ℕ) → Keeps (seat now room user_id)) where
      open_room-Keeps : (room : ℕ) → Keeps (open_room kit settings now room)
      unfolding open_room
      open_room-Keeps room = >>=-Keeps (transition-Keeps room ClassroomEvent.quorum_reached) (λ _.
          >>=-Keeps (revoked room) (λ _. >>=-Keeps gets-Keeps (λ seats.
            >>=-Keeps (get_classroom-Keeps room) (λ c.
              >>=-Keeps (provision-Keeps c seats)
                (λ s. >>=-Keeps (announce_ready-Keeps room s seats) (λ _. pure-Keeps))))))

      maybe_reach_quorum-Keeps : (room : ℕ) → Keeps (maybe_reach_quorum kit settings now room)
      unfolding maybe_reach_quorum
      maybe_reach_quorum-Keeps room = >>=-Keeps (get_classroom-Keeps room) (λ c.
          >>=-Keeps gets-Keeps (λ seats. >>=-Keeps gets-Keeps (λ deciding.
            if-Keeps (ltb seats settings.min_participants_to_start) pure-Keeps (
              if-Keeps (is_ready c.status) gets-Keeps (
                if-Keeps (not (deciding == 0) && ltb seats c.seat_count) pure-Keeps
                  (>>=-Keeps (open_room-Keeps room) (λ _. pure-Keeps)))))))

      pub after_accept-Keeps :
          (room user_id : ℕ) → Keeps (after_accept kit settings now room user_id)
      unfolding after_accept
      after_accept-Keeps room user_id = >>=-Keeps (seated room user_id) (λ _.
          >>=-Keeps (notify_response-Keeps room user_id InvitationStatus.accepted) (λ _.
            >>=-Keeps (maybe_reach_quorum-Keeps room)
              (λ s. >>=-Keeps (publish_update-Keeps room) (λ _. pure-Keeps))))
