-- ===== src/Rooms/Invitations.antt =====
-- Invitations: `InvitationService` of backend/app/modules/invitation/service.py over the repository of
-- backend/app/modules/invitation/repository.py. `random_token` draws from the counter of identifiers;
-- what the mail dispatcher writes back is not modelled.
use gd_classroom.Prelude.{
  ℕ, ◌+◌, max, Bool, true, false, not, ◌&&◌, Option, none, some, List, [], ◌∷◌, ◌++◌, map, take,
  filter_by, any_of, length, if◌then◌else◌, ltb, ◌==◌, Text, text_eq,
}
use mathlib.Core.Logic.{ite}
use gd_classroom.Domain.Enums.{InvitationStatus, InvitationStatus-discrete}
use gd_classroom.Store.{
  AppError, Action, pure, gets, modifies, or_raise, raise_if, User, Invitation, Notice, Db, ◌>>=◌,
  ◌>>◌,
}
use gd_classroom.Store.Rows.{first_of, change_first}
use gd_classroom.Identity.Accounts.{Ciphers, fresh_id, user_by_id}
use gd_classroom.Rooms.Classrooms.{Settings}

-- An invitation with its raw token, and the address for the mail.
pub record IssuedInvitation : Type 0 where
  pub invitation : Invitation
  pub token : Text
  pub email : Text

abbrev pub has_status : InvitationStatus → Invitation → Bool
unfolding InvitationStatus-discrete
has_status s i = ite (InvitationStatus-discrete i.status s) true false

abbrev pub is_pending : InvitationStatus → Bool
is_pending InvitationStatus.pending = true
is_pending _ = false

abbrev pub is_for : ℕ → ℕ → Invitation → Bool
is_for room user_id i = i.classroom_id == room && i.user_id == user_id

abbrev pub invitation_row : ℕ → Db → Option Invitation
invitation_row id db = first_of (λ i. i.id == id) db.invitations

abbrev pub change_invitation : ℕ → (Invitation → Invitation) → Db → Db
change_invitation id f db = record db {
  invitations = change_first (λ i. i.id == id) f db.invitations;
}

-- `open_for`
abbrev pub open_for : ℕ → ℕ → Db → Option Invitation
open_for room user_id db =
    first_of (λ i. is_for room user_id i && is_pending i.status) db.invitations

-- `count_by_status`, of one status
unfoldable pub count_status : ℕ → InvitationStatus → Db → ℕ
unfolding InvitationStatus-discrete
count_status room s db =
    length (filter_by (λ i. i.classroom_id == room && has_status s i) db.invitations)

unfoldable pub accepted_user_ids : ℕ → Db → List ℕ
unfolding InvitationStatus-discrete
accepted_user_ids room db =
    map (λ i. i.user_id)
      (filter_by (λ i. i.classroom_id == room && has_status InvitationStatus.accepted i)
        db.invitations)

abbrev pub last_attempt : List Invitation → ℕ
last_attempt [] = 0
last_attempt (i ∷ is) = max i.attempt_no (last_attempt is)

unfoldable pub next_attempt_no : ℕ → ℕ → Db → ℕ
next_attempt_no room user_id db = last_attempt (filter_by (is_for room user_id) db.invitations) + 1

-- `UPDATE … SET status, responded_at`
abbrev pub answered : ℕ → InvitationStatus → Invitation → Invitation
answered now s i = record i { status = s; responded_at = some now }

abbrev pub answer_where :
    (Invitation → Bool) → ℕ → InvitationStatus → List Invitation → List Invitation
answer_where p now s is = map (λ i. if p i then answered now s i else i) is

-- `revoke_pending`, by `revoke_all`
unfoldable pub revoke_all : ℕ → ℕ → Db → Db
revoke_all now room db = record db {
  invitations =
      answer_where (λ i. i.classroom_id == room && is_pending i.status) now InvitationStatus.revoked
        db.invitations;
}

abbrev pub is_overdue : ℕ → Invitation → Bool
is_overdue now i = is_pending i.status && ltb i.expires_at now

-- `expire_overdue`: at most `limit` rows, the first ones.
unfoldable pub expire_overdue : ℕ → ℕ → Db → Db × List Invitation
expire_overdue now limit db =
    let overdue = take limit (filter_by (is_overdue now) db.invitations) in
    (
      record db {
        invitations =
            answer_where (λ i. any_of (λ o. o.id == i.id) overdue) now InvitationStatus.expired
              db.invitations;
      },
      overdue,
    )

-- `mark`; a reason that is missing or empty leaves the row's.
abbrev pub with_reason : Option Text → Invitation → Invitation
with_reason (some (c ∷ cs)) i = record i { reject_reason = some (take 280 (c ∷ cs)) }
with_reason _ i = i

unfoldable pub mark : ℕ → ℕ → InvitationStatus → Option Text → Db → Db
mark now id s reason db = change_invitation id (λ i. with_reason reason (answered now s i)) db

unfoldable pub revoke_invitation : ℕ → ℕ → Db → Db
revoke_invitation now id db = change_invitation id (answered now InvitationStatus.revoked) db

-- `_assert_open`: what is overdue is written as expired before the raise.
unfoldable pub assert_open : ℕ → Invitation → Action Db Invitation
assert_open now i = do
  raise_if (not (is_pending i.status)) AppError.invitation_closed
  let late = ltb i.expires_at now
  modifies
      (λ db. if late then change_invitation i.id (answered now InvitationStatus.expired) db else db)
  raise_if late AppError.invitation_closed
  pure i

unfoldable pub get_invitation : ℕ → Action Db Invitation
get_invitation id = do or_raise (← gets (invitation_row id)) AppError.not_found

unfoldable pub load_open : ℕ → ℕ → ℕ → Action Db Invitation
load_open now id user_id = do
  i ← get_invitation id
  raise_if (not (i.user_id == user_id)) AppError.authorization
  assert_open now i

module _ (c : Ciphers) (random_token : ℕ → Text) where
  unfoldable pub load_by_token : Text → Action Db Invitation
  unfolding text_eq
  load_by_token raw = do
    found ← gets (λ db. first_of (λ i. text_eq i.token_hash (c.hash_token raw)) db.invitations)
    or_raise found AppError.not_found

  unfoldable pub load_open_by_token : ℕ → Text → Action Db Invitation
  load_open_by_token now raw = do i ← load_by_token raw; assert_open now i

  -- The row that `issue` adds for a person, with its token.
  unfoldable pub issue_one : Settings → ℕ → ℕ → User → Action Db IssuedInvitation
  issue_one settings now room person = do
    id ← fresh_id
    drawn ← fresh_id
    attempt ← gets (next_attempt_no room person.id)
    let token = random_token drawn
    let invitation : Invitation = record {
      id = id;
      classroom_id = room;
      user_id = person.id;
      attempt_no = attempt;
      status = InvitationStatus.pending;
      token_hash = c.hash_token token;
      expires_at = now + settings.invitation_ttl;
      responded_at = none;
      reject_reason = none;
      invited_email = person.email;
    }
    modifies (λ db. record db { invitations = db.invitations ++ invitation ∷ [] })
    pure (record { invitation = invitation; token = token; email = person.email })

  -- The loop of `issue`: who has an open invitation already is passed over.
  unfoldable pub issue_rows : Settings → ℕ → ℕ → List ℕ → Action Db (List IssuedInvitation)
  issue_rows settings now room [] = pure []
  issue_rows settings now room (user_id ∷ user_ids) = do
    person ← or_raise (← gets (user_by_id user_id)) AppError.not_found
    open_one ← gets (open_for room user_id)
    elim open_one [
      | some _ ↦ issue_rows settings now room user_ids
      | none ↦ do
        item ← issue_one settings now room person
        items ← issue_rows settings now room user_ids
        pure (item ∷ items)
    ]

  abbrev pub touch_invited : ℕ → List ℕ → Db → Db
  touch_invited now ids db = record db {
    users =
        map (λ u. if any_of (u.id ==◌) ids then record u { last_invited_at = some now } else u)
          db.users;
  }

  abbrev pub sent_notice : ℕ → IssuedInvitation → Notice
  sent_notice room item = Notice.invitation_sent item.invitation.user_id item.invitation.id

  unfoldable pub issue : Settings → ℕ → ℕ → List ℕ → Action Db (List IssuedInvitation)
  issue settings now room user_ids = do
    items ← issue_rows settings now room user_ids
    modifies (touch_invited now (map (λ item. item.invitation.user_id) items))
    modifies (λ db. record db { events = db.events ++ map (sent_notice room) items })
    pure items
