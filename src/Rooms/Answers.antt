-- ===== src/Rooms/Answers.antt =====
-- What an answer leaves of its invitation (backend/app/application/enrollment.py,
-- backend/app/modules/invitation/service.py).
pub mod Once
use gd_classroom.Prelude.{
  ℕ, ◌≡◌, refl, ◌&&◌, sym, ap, ◌∙◌, inl, inr, Bool, true, false, Option, none, some, List, [], ◌∷◌,
  ◌==◌, if◌then◌else◌, Bool-cases, Option-cases, Text, Result, is_ok,
}
use mathlib.Core.Option
use mathlib.Core.Path.{subst}
use gd_classroom.Domain.Enums.{InvitationStatus}
use gd_classroom.Store.{
  AppError, ◌>>=◌, modifies, Classroom, ClassroomParticipant, Invitation, SessionRecord, Db,
}
use gd_classroom.Store.Rows.{first_of, change_first, first_of-map, first_of-test}
use gd_classroom.Rooms.Classrooms.{
  Settings, classroom_row, get_classroom, seat_or_take, take_seat, seat,
}
use gd_classroom.Rooms.Invitations.{
  is_pending, invitation_row, answered, with_reason, mark, revoke_all,
}
use gd_classroom.Rooms.Enrollment.{Kit, is_gathering, after_accept, after_reject, apply_response}
use gd_classroom.Rooms.Keeps.{
  Keeps, >>=-Keeps, if-Keeps, pure-Keeps, gets-Keeps, after_accept-Keeps, after_reject-Keeps,
}
use gd_classroom.Rooms.Loading.{IsClosed}

-- A test that reads nothing that an answer writes.
pub record Blind (p : Invitation → Bool) : Type 0 where
  pub status_free : (now : ℕ) (s : InvitationStatus) (j : Invitation) → p (answered now s j) ≡ p j
  pub reason_free : (reason : Option Text) (j : Invitation) → p (with_reason reason j) ≡ p j

revoke_all-status :
    (b : Bool) (now : ℕ) (i : Invitation)
    → is_pending i.status ≡ false
    → is_pending (if b then answered now InvitationStatus.revoked i else i).status ≡ false
revoke_all-status true now i h = refl
revoke_all-status false now i h = h

with_reason-status :
    (reason : Option Text) (i : Invitation) → (with_reason reason i).status ≡ i.status
with_reason-status none i = refl
with_reason-status (some []) i = refl
with_reason-status (some (c ∷ cs)) i = refl

pub with_reason-id : (reason : Option Text) (i : Invitation) → (with_reason reason i).id ≡ i.id
with_reason-id none i = refl
with_reason-id (some []) i = refl
with_reason-id (some (c ∷ cs)) i = refl

pub with_reason-token_hash :
    (reason : Option Text) (i : Invitation) → (with_reason reason i).token_hash ≡ i.token_hash
with_reason-token_hash none i = refl
with_reason-token_hash (some []) i = refl
with_reason-token_hash (some (c ∷ cs)) i = refl

-- What two tests both find first, they still both find once it is changed.
first_of-changed :
    (p q : Invitation → Bool) (f : Invitation → Invitation) (rows : List Invitation)
    (i : Invitation)
    → ((j : Invitation) → q (f j) ≡ q j)
    → first_of p rows ≡ some i
    → first_of q rows ≡ some i
    → first_of q (change_first p f rows) ≡ some (f i)
first_of-changed p q f [] i keeps h k = cc
first_of-changed p q f (j ∷ rows) i keeps h k = elim (Bool-cases (p j)) [
  | inl e ↦
      let here : some j ≡ some i = rw e at h in
      let same : j ≡ i = cc in
      let hit : q j ≡ true = ap q same ∙ first_of-test q (j ∷ rows) i k in
      rw (e, keeps j, hit) (ap (λ a. some (f a)) same)
  | inr e ↦ elim (Bool-cases (q j)) [
    | inl g ↦
        let here : some j ≡ some i = rw g at k in
        let same : j ≡ i = cc in
        let hit : p j ≡ true = ap p same ∙ first_of-test p (j ∷ rows) i h in absurd cc
    | inr g ↦
        let h' : first_of p rows ≡ some i = rw e at h in
        let k' : first_of q rows ≡ some i = rw g at k in
        rw (e, g) (first_of-changed p q f rows i keeps h' k')
  ]
]

module _ (p : Invitation → Bool) (blind : Blind p) where
  abbrev ClosedOnly : List ClassroomParticipant → List Invitation → Type 0
  ClosedOnly seats rows = IsClosed p rows

  revoke_all-blind :
      (b : Bool) (now : ℕ) (i : Invitation)
      → p (if b then answered now InvitationStatus.revoked i else i) ≡ p i
  revoke_all-blind true now i = blind.status_free now InvitationStatus.revoked i
  revoke_all-blind false now i = refl

  revoke_all-Keeps : (now room : ℕ) → Keeps ClosedOnly (modifies (revoke_all now room))
  unfolding revoke_all
  revoke_all-Keeps now room = record {
    keep = λ db h.
        let (i, e, g) = h in
        let hit = λ (j : Invitation). j.classroom_id == room && is_pending j.status in
        let change =
          λ (j : Invitation). if hit j then answered now InvitationStatus.revoked j else j in
        (
          change i,
          first_of-map p change db.invitations (λ j. revoke_all-blind (hit j) now j)
              ∙ ap (λ o. Option.map change o) e,
          revoke_all-status (hit i) now i g,
        );
  }

  take_seat-Keeps : (now room user_id : ℕ) → Keeps ClosedOnly (take_seat now room user_id)
  unfolding take_seat
  take_seat-Keeps now room user_id = >>=-Keeps ClosedOnly (gets-Keeps ClosedOnly) (λ k.
      >>=-Keeps ClosedOnly (pure-Keeps ClosedOnly) (λ seat_no.
        >>=-Keeps ClosedOnly (record { keep = λ db h. h }) (λ _. pure-Keeps ClosedOnly)))

  seat_or_take-Keeps :
      (now room user_id : ℕ) (existing : Option ClassroomParticipant)
      → Keeps ClosedOnly (seat_or_take now room user_id existing)
  seat_or_take-Keeps now room user_id (some p) = pure-Keeps ClosedOnly
  seat_or_take-Keeps now room user_id none = take_seat-Keeps now room user_id

  seat-Keeps : (now room user_id : ℕ) → Keeps ClosedOnly (seat now room user_id)
  unfolding seat
  seat-Keeps now room user_id =
      >>=-Keeps ClosedOnly (gets-Keeps ClosedOnly) (seat_or_take-Keeps now room user_id)

  -- To answer an invitation is to close it.
  mark-IsClosed :
      (now : ℕ) (s : InvitationStatus) (reason : Option Text) (db : Db) (i : Invitation)
      → is_pending s ≡ false
      → invitation_row i.id db ≡ some i
      → first_of p db.invitations ≡ some i
      → IsClosed p (mark now i.id s reason db).invitations
  unfolding mark
  mark-IsClosed now s reason db i closed e f =
      let change = λ (j : Invitation). with_reason reason (answered now s j) in
      (
        change i,
        first_of-changed (λ j. j.id == i.id) p change db.invitations i
            (λ j. blind.reason_free reason (answered now s j) ∙ blind.status_free now s j) e f,
        ap is_pending (with_reason-status reason (answered now s i)) ∙ closed,
      )

module _ (kit : Kit) (settings : Settings) (now : ℕ) where
  module _ (i : Invitation) (user_id : ℕ) (accept : Bool) (reason : Option Text) (db : Db) where
    abbrev replied : Result AppError (ℕ × Option SessionRecord) × Db
    replied = apply_response kit settings now i user_id accept reason db

    apply_response-missing : classroom_row i.classroom_id db ≡ none → is_ok replied.0 ≡ false
    unfolding apply_response get_classroom ◌>>=◌
    apply_response-missing e = rw (e, apply_response, get_classroom, ◌>>=◌) refl

    module _ (c : Classroom) (e : classroom_row i.classroom_id db ≡ some c) where
      apply_response-shut : is_gathering c.status ≡ false → is_ok replied.0 ≡ false
      unfolding apply_response get_classroom ◌>>=◌
      apply_response-shut f = rw (e, f, apply_response, get_classroom, ◌>>=◌) refl

      abbrev marked : Db
      marked =
          mark now i.id (if accept then InvitationStatus.accepted else InvitationStatus.rejected)
            (if accept then none else reason) db

      apply_response-marked :
          is_gathering c.status ≡ true
          → replied
            ≡ (if accept
                  then after_accept kit settings now c.id user_id
                  else after_reject kit settings now c.id user_id)
                marked
      unfolding apply_response get_classroom ◌>>=◌
      apply_response-marked f = rw (e, f, apply_response, get_classroom, ◌>>=◌) refl

      module _ (p : Invitation → Bool) (blind : Blind p) where
        after-Keeps : Keeps (ClosedOnly p blind) (
            if accept
            then after_accept kit settings now c.id user_id
            else after_reject kit settings now c.id user_id)
        after-Keeps =
            if-Keeps (ClosedOnly p blind) accept
              (after_accept-Keeps (ClosedOnly p blind) kit settings now
                (revoke_all-Keeps p blind now) (seat-Keeps p blind now) c.id user_id)
              (after_reject-Keeps (ClosedOnly p blind) kit settings now c.id user_id)

        marked-IsClosed :
            invitation_row i.id db ≡ some i
            → first_of p db.invitations ≡ some i
            → IsClosed p marked.invitations
        marked-IsClosed row found =
            mark-IsClosed p blind now _ (if accept then none else reason) db i (chosen accept) row
              found
          where
            chosen :
                (b : Bool)
                → is_pending (if b then InvitationStatus.accepted else InvitationStatus.rejected)
                  ≡ false
            chosen true = refl
            chosen false = refl

    pub apply_response-IsClosed :
        (p : Invitation → Bool) (blind : Blind p)
        → invitation_row i.id db ≡ some i
        → first_of p db.invitations ≡ some i
        → is_ok replied.0 ≡ true
        → IsClosed p replied.1.invitations
    apply_response-IsClosed p blind row found well =
        elim (Option-cases (classroom_row i.classroom_id db)) [
          | inl e ↦ let failed = apply_response-missing e in absurd cc
          | inr (c, e) ↦ elim (Bool-cases (is_gathering c.status)) [
            | inr f ↦ let failed = apply_response-shut c e f in absurd cc
            | inl f ↦
                subst (λ r. IsClosed p r.1.invitations) (sym (apply_response-marked c e f))
                  ((after-Keeps c e p blind).keep (marked c e)
                    (marked-IsClosed c e p blind row found))
          ]
        ]
