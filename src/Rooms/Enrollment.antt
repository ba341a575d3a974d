-- ===== src/Rooms/Enrollment.antt =====
-- `EnrollmentService` of backend/app/application/enrollment.py, which composes the services of users,
-- classrooms, invitations and sessions. The libraries' parts are the record `Kit`: the ciphers, the
-- random tokens and the letters of names. The text of a mail is its address and its link.
use gd_classroom.Prelude.{
  ℕ, ◌+◌, ◌-◌, Bool, true, false, not, ◌&&◌, ◌||◌, Option, none, some, List, [], ◌∷◌, ◌++◌, map,
  filter_by, any_of, length, if◌then◌else◌, ltb, leb, ◌==◌, is_some, is_nonempty, Text, codes,
  strip, text_eq, Result, ok, err,
}
use gd_classroom.Domain.Enums.{ClassroomStatus, InvitationStatus}
use gd_classroom.Domain.StateMachines.{ClassroomEvent, classroom_fsm, can}
use gd_classroom.Store.{
  AppError, Action, pure, gets, modifies, raise_if, ◌>>=◌, ◌>>◌, User, Classroom,
  ClassroomParticipant, Invitation, SessionRecord, Notice, Mail, Db,
}
use gd_classroom.Identity.Accounts.{Ciphers}
use gd_classroom.Identity.People.{ensure_invitees, session_user}
use gd_classroom.Rooms.Classrooms.{
  Settings, SessionUser, get_classroom, get_topic, assert_owner, transition, publish_update, create,
  seat, seat_count, roster, close_classroom,
}
use gd_classroom.Rooms.Invitations.{
  IssuedInvitation, open_for, count_status, accepted_user_ids, mark, revoke_all, revoke_invitation,
  get_invitation, load_open, load_open_by_token, issue,
}
use gd_classroom.Rooms.Sessions.{by_classroom, provision, abort}

pub record Kit : Type 0 where
  pub ciphers : Ciphers
  pub random_token : ℕ → Text
  pub capitalize : Text → Text
  pub unusable_password : ℕ → Text

-- `INVITING` or `READY`
abbrev pub is_gathering : ClassroomStatus → Bool
is_gathering ClassroomStatus.inviting = true
is_gathering ClassroomStatus.ready = true
is_gathering _ = false

abbrev pub is_ready : ClassroomStatus → Bool
is_ready ClassroomStatus.ready = true
is_ready _ = false

abbrev pub is_resendable : InvitationStatus → Bool
is_resendable InvitationStatus.pending = true
is_resendable InvitationStatus.expired = true
is_resendable _ = false

abbrev pub caller : User → SessionUser
caller u = record { id = u.id; email = u.email; role = u.role }

abbrev pub holds_text : Text → List Text → Bool
holds_text t ts = any_of (text_eq t) ts

module _ (kit : Kit) (settings : Settings) (now : ℕ) where
  -- The loop of `_clean_emails`; `seen` are the addresses so far.
  unfoldable pub clean_onto : Text → List Text → List Text → Result AppError (List Text)
  unfolding strip text_eq
  clean_onto host seen [] = ok seen
  clean_onto host seen (raw ∷ raws) =
      let email = strip (kit.ciphers.lower raw) in
      elim (is_nonempty email) [
        | false ↦ clean_onto host seen raws
        | true ↦ elim (text_eq email host) [
          | true ↦ err AppError.validation
          | false ↦
              clean_onto host (if holds_text email seen then seen else seen ++ email ∷ []) raws
        ]
      ]

  unfoldable pub clean_emails : List Text → SessionUser → Result AppError (List Text)
  clean_emails emails host = clean_onto (kit.ciphers.lower host.email) [] emails

  abbrev pub clean : List Text → SessionUser → Action Db (List Text)
  clean emails host db = (clean_emails emails host, db)

  unfoldable pub held_seats : ℕ → Db → ℕ
  held_seats room db =
      count_status room InvitationStatus.accepted db + count_status room InvitationStatus.pending db

  unfoldable pub reinvitable : ℕ → Db → User → Bool
  reinvitable room db person =
      not (is_some (open_for room person.id db))
      && not (any_of (person.id ==◌) (accepted_user_ids room db))

  abbrev pub invitation_mail_of : IssuedInvitation → Mail
  invitation_mail_of item = Mail.invitation_mail item.email item.token

  unfoldable pub invite_fresh : ℕ → List User → Action Db (List IssuedInvitation)
  invite_fresh room fresh = do
    classroom ← get_classroom room
    get_topic classroom.topic_id
    items ← issue kit.ciphers kit.random_token settings now room (map (λ p. p.id) fresh)
    modifies (λ db.
        if settings.mail_enabled
        then record db { mail = db.mail ++ map invitation_mail_of items }
        else db)
    pure items

  unfoldable pub invite : ℕ → List Text → Action Db (List IssuedInvitation)
  invite room emails = do
    people ←
        ensure_invitees kit.ciphers kit.capitalize kit.unusable_password settings.mail_enabled
          emails
    fresh ← gets (λ db. filter_by (reinvitable room db) people)
    if is_nonempty fresh then invite_fresh room fresh else pure []

  unfoldable pub create_classroom :
      SessionUser → ℕ → Option Text → Bool → List Text → Action Db Classroom
  create_classroom creator topic_id title persist invitees = do
    emails ← clean invitees creator
    raise_if
        (ltb (length emails) settings.min_participants_to_start
          || ltb settings.participants_per_classroom (length emails))
        AppError.validation
    classroom ← create settings now creator topic_id title persist
    invite classroom.id emails
    transition classroom.id ClassroomEvent.invitations_sent
    publish_update classroom.id
    get_classroom classroom.id

  unfoldable pub invite_more : ℕ → SessionUser → List Text → Action Db ℕ
  invite_more room user emails = do
    classroom ← get_classroom room
    assert_owner classroom user
    raise_if (not (is_gathering classroom.status)) AppError.conflict
    cleaned ← clean emails user
    held ← gets (held_seats room)
    raise_if (leb classroom.seat_count held) AppError.conflict
    raise_if (ltb (classroom.seat_count - held) (length cleaned)) AppError.validation
    items ← invite room cleaned
    if is_nonempty items then publish_update room else pure tt
    pure (length items)

  unfoldable pub resend : ℕ → SessionUser → ℕ → Action Db Text
  resend room user id = do
    classroom ← get_classroom room
    assert_owner classroom user
    invitation ← get_invitation id
    raise_if (not (invitation.classroom_id == room)) AppError.not_found
    raise_if (not (is_resendable invitation.status)) AppError.conflict
    modifies (revoke_invitation now id)
    items ← invite room (invitation.invited_email ∷ [])
    raise_if (not (is_nonempty items)) AppError.conflict
    publish_update room
    pure invitation.invited_email

  abbrev pub ready_mails : ℕ → List ClassroomParticipant → Db → List Mail
  ready_mails session seats db =
      map (λ u. Mail.ready_mail u.email session)
        (filter_by (λ u. any_of (λ p. p.user_id == u.id) seats) db.users)

  unfoldable pub mail_ready : ℕ → SessionRecord → List ClassroomParticipant → Action Db (Unit {0})
  mail_ready room session seats = do
    classroom ← get_classroom room
    get_topic classroom.topic_id
    modifies (λ db. record db { mail = db.mail ++ ready_mails session.id seats db })

  abbrev pub announce_ready : ℕ → SessionRecord → List ClassroomParticipant → Action Db (Unit {0})
  announce_ready room session seats =
      if settings.mail_enabled then mail_ready room session seats else pure tt

  unfoldable pub notify_response : ℕ → ℕ → InvitationStatus → Action Db (Unit {0})
  notify_response room user_id status = do
    classroom ← get_classroom room
    let notice = Notice.invitation_responded classroom.created_by user_id status
    modifies (λ db. record db { events = db.events ++ notice ∷ [] })

  -- Everybody has decided, or the room is full: the session is made.
  unfoldable pub open_room : ℕ → Action Db SessionRecord
  open_room room = do
    transition room ClassroomEvent.quorum_reached
    modifies (revoke_all now room)
    seats ← gets (roster room)
    classroom ← get_classroom room
    session ← provision classroom seats
    announce_ready room session seats
    pure session

  unfoldable pub maybe_reach_quorum : ℕ → Action Db (Option SessionRecord)
  maybe_reach_quorum room = do
    classroom ← get_classroom room
    seated ← gets (seat_count room)
    deciding ← gets (count_status room InvitationStatus.pending)
    if ltb seated settings.min_participants_to_start
        then pure none
        else if is_ready classroom.status
        then gets (by_classroom room)
        else if not (deciding == 0) && ltb seated classroom.seat_count
        then pure none
        else open_room room >>= λ session. pure (some session)

  -- What follows the answer.
  unfoldable pub after_reject : ℕ → ℕ → Action Db (ℕ × Option SessionRecord)
  after_reject room user_id = do
    notify_response room user_id InvitationStatus.rejected
    publish_update room
    pure (room, none)

  unfoldable pub after_accept : ℕ → ℕ → Action Db (ℕ × Option SessionRecord)
  after_accept room user_id = do
    seat now room user_id
    notify_response room user_id InvitationStatus.accepted
    session ← maybe_reach_quorum room
    publish_update room
    pure (room, session)

  -- `_apply_response`, of whoever the invitation is for.
  unfoldable pub apply_response :
      Invitation → ℕ → Bool → Option Text → Action Db (ℕ × Option SessionRecord)
  apply_response invitation user_id accept reason = do
    classroom ← get_classroom invitation.classroom_id
    raise_if (not (is_gathering classroom.status)) AppError.conflict
    let status = if accept then InvitationStatus.accepted else InvitationStatus.rejected
    modifies (mark now invitation.id status (if accept then none else reason))
    if accept then after_accept classroom.id user_id else after_reject classroom.id user_id

  unfoldable pub respond : ℕ → ℕ → Bool → Option Text → Action Db (ℕ × Option SessionRecord)
  respond id user_id accept reason = do
    invitation ← load_open now id user_id
    apply_response invitation user_id accept reason

  unfoldable pub respond_by_token :
      Text → Bool → Option Text → Action Db (ℕ × Option SessionRecord × ℕ)
  respond_by_token raw accept reason = do
    invitation ← load_open_by_token kit.ciphers kit.random_token now raw
    user ← session_user kit.ciphers kit.capitalize kit.unusable_password invitation.user_id
    answer ← apply_response invitation user.id accept reason
    pure (answer.0, answer.1, invitation.user_id)

  -- A session for whoever has accepted, with the door closed behind them.
  unfoldable pub begin_session : ℕ → Action Db SessionRecord
  begin_session room = do
    modifies (revoke_all now room)
    classroom ← get_classroom room
    if can classroom_fsm classroom.status ClassroomEvent.quorum_reached
        then transition room ClassroomEvent.quorum_reached
        else pure tt
    seats ← gets (roster room)
    session ← provision classroom seats
    announce_ready room session seats
    pure session

  abbrev pub session_or_begin : ℕ → Option SessionRecord → Action Db SessionRecord
  session_or_begin room (some s) = pure s
  session_or_begin room none = begin_session room

  unfoldable pub start : ℕ → SessionUser → Action Db SessionRecord
  start room user = do
    classroom ← get_classroom room
    assert_owner classroom user
    seated ← gets (seat_count room)
    raise_if (ltb seated settings.min_participants_to_start) AppError.classroom_not_ready
    existing ← gets (by_classroom room)
    session ← session_or_begin room existing
    classroom' ← get_classroom room
    if can classroom_fsm classroom'.status ClassroomEvent.started
        then transition room ClassroomEvent.started >> publish_update room
        else pure tt
    pure session

  -- A session of the classroom is aborted, for the host's reason or `CLASSROOM_CANCELLED`.
  abbrev pub reason_or : Option Text → Text
  reason_or none = codes "CLASSROOM_CANCELLED"
  reason_or (some []) = codes "CLASSROOM_CANCELLED"
  reason_or (some (c ∷ cs)) = c ∷ cs

  abbrev pub abort_session : Option SessionRecord → Text → Db → Db
  abort_session none reason db = db
  abort_session (some s) reason db = abort now s.id reason db

  unfoldable pub cancel : ℕ → SessionUser → Option Text → Action Db (Unit {0})
  cancel room user reason = do
    close_classroom room user
    modifies (revoke_all now room)
    session ← gets (by_classroom room)
    modifies (abort_session session (reason_or reason))
