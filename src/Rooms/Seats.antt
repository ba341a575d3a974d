-- ===== src/Rooms/Seats.antt =====
-- Nobody shares a seat, and no classroom has a fifth one (backend/app/modules/classroom/service.py,
-- backend/app/application/enrollment.py).
use gd_classroom.Prelude.{
  ℕ, ◌+◌, ◌≤◌, ◌≡◌, refl, sym, ap, ◌∙◌, arith, Bool, true, false, not, ◌&&◌, Option, none, some,
  List, [], ◌∷◌, ◌++◌, ◌==◌, filter_by, length, length-append, All, Bool-cases, Option-cases, inl,
  inr, Text, if◌then◌else◌, ltb,
}
use gd_classroom.Domain.Enums.{InvitationStatus}
use gd_classroom.Store.{modifies, ◌>>=◌, ClassroomParticipant, Invitation, Db}
use gd_classroom.Store.Rows.{first_of-test}
use gd_classroom.Rooms.Classrooms.{
  Settings, sits_in, seats_in, is_taken, next_free_seat, seat_or_take, take_seat, seat, seat_count,
}
use gd_classroom.Rooms.Invitations.{
  change_invitation, answered, mark, revoke_all, assert_open, load_open, load_by_token,
  load_open_by_token,
}
use gd_classroom.Rooms.Ways.{Way, in_app, by_link, answer}
use gd_classroom.Identity.People.{session_user}
use gd_classroom.Rooms.Enrollment.{Kit, apply_response, respond, respond_by_token}
use gd_classroom.Rooms.Keeps.{
  Keeps, >>=-Keeps, get_classroom-Keeps, get_invitation-Keeps, pure-Keeps, gets-Keeps, if-Keeps,
  after_accept-Keeps, after_reject-Keeps,
}

-- The rows that hold a seat of a classroom.
abbrev pub occupied : ℕ → ℕ → List ClassroomParticipant → ℕ
occupied room k seats = length (filter_by (λ p. sits_in room p && p.seat_no == k) seats)

abbrev pub InRange : ClassroomParticipant → Type 0
InRange p = (1 ≤ p.seat_no) × (p.seat_no ≤ 4)

-- The seats are numbered from 1 to 4, and a seat is held once.
abbrev pub IsSeated : List ClassroomParticipant → Type 0
IsSeated seats = ((room k : ℕ) → occupied room k seats ≤ 1) × All InRange seats

filter_by-append :
    {A : Type 0} (p : A → Bool) (xs ys : List A)
    → filter_by p (xs ++ ys) ≡ filter_by p xs ++ filter_by p ys
filter_by-append p [] ys = refl
filter_by-append p (x ∷ xs) ys = elim (Bool-cases (p x)) [
  | inl e ↦ rw e (ap (x ∷◌) (filter_by-append p xs ys))
  | inr e ↦ rw e (filter_by-append p xs ys)
]

occupied-append :
    (room k : ℕ) (xs ys : List ClassroomParticipant)
    → occupied room k (xs ++ ys) ≡ occupied room k xs + occupied room k ys
occupied-append room k xs ys =
    let p = λ (q : ClassroomParticipant). sits_in room q && q.seat_no == k in
    ap length (filter_by-append p xs ys) ∙ length-append (filter_by p xs) (filter_by p ys)

-- Who is seated in a classroom holds one of its four seats.
seat_count-occupied :
    (room : ℕ) (seats : List ClassroomParticipant)
    → All InRange seats
    → length (seats_in room seats)
      ≡ occupied room 1 seats
        + occupied room 2 seats
        + occupied room 3 seats
        + occupied room 4 seats
seat_count-occupied room [] h = omega arith
seat_count-occupied room (p ∷ ps) h =
    let later = seat_count-occupied room ps h.1 in
    let low = h.0.0 in let high = h.0.1 in ground arith

pub seat_count-le : (room : ℕ) (db : Db) → IsSeated db.participants → seat_count room db ≤ 4
seat_count-le room db h =
    let sum = seat_count-occupied room db.participants h.1 in
    let one = h.0 room 1 in
    let two = h.0 room 2 in let three = h.0 room 3 in let four = h.0 room 4 in omega arith

free_seat-occupied :
    (room k : ℕ) (seats : List ClassroomParticipant)
    → is_taken k (seats_in room seats) ≡ false
    → occupied room k seats ≡ 0
free_seat-occupied room k [] h = refl
free_seat-occupied room k (p ∷ ps) h = ground (arith, free_seat-occupied room k ps)

next_free_seat-range :
    (seats : List ClassroomParticipant) (k : ℕ) → next_free_seat seats ≡ some k → (1 ≤ k) × (k ≤ 4)
unfolding next_free_seat
next_free_seat-range seats k h = ground arith

free_seat-is_taken :
    (seats : List ClassroomParticipant) (k : ℕ)
    → next_free_seat seats ≡ some k
    → is_taken k seats ≡ false
unfolding next_free_seat
free_seat-is_taken seats k h =
    let free = first_of-test (λ seat. not (is_taken seat seats)) (1 ∷ 2 ∷ 3 ∷ 4 ∷ []) k h in
    ground arith

All-append :
    {A : Type 0} (Q : A → Type 0) (xs : List A) (y : A) → All Q xs → Q y → All Q (xs ++ y ∷ [])
All-append Q [] y h q = (q, tt)
All-append Q (x ∷ xs) y h q = (h.0, All-append Q xs y h.1 q)

new_seat-occupied :
    (p : ClassroomParticipant) (seats : List ClassroomParticipant) (room k : ℕ)
    → occupied p.classroom_id p.seat_no seats ≡ 0
    → occupied room k seats ≤ 1
    → occupied room k seats + occupied room k (p ∷ []) ≤ 1
new_seat-occupied p seats room k free h =
    elim (Bool-cases (p.classroom_id == room && p.seat_no == k)) [
      | inl e ↦
          let here : p.classroom_id ≡ room = ground arith in
          let there : p.seat_no ≡ k = ground arith in
          let same : occupied room k seats ≡ 0 =
            sym (ap (λ r. occupied r p.seat_no seats) here ∙ ap (λ j. occupied room j seats) there)
            ∙ free in
          rw e (omega arith)
      | inr e ↦ rw e (omega arith)
    ]

-- The row that `seat` adds keeps what it found.
IsSeated-append :
    (p : ClassroomParticipant) (seats : List ClassroomParticipant)
    → next_free_seat (seats_in p.classroom_id seats) ≡ some p.seat_no
    → IsSeated seats
    → IsSeated (seats ++ p ∷ [])
IsSeated-append p seats h s = (
  λ room k.
      let free =
        free_seat-occupied p.classroom_id p.seat_no seats
          (free_seat-is_taken (seats_in p.classroom_id seats) p.seat_no h) in
      let fits = new_seat-occupied p seats room k free (s.0 room k) in
      let sum = occupied-append room k seats (p ∷ []) in omega arith,
  All-append InRange seats p s.1 (next_free_seat-range (seats_in p.classroom_id seats) p.seat_no h),
)

abbrev SeatedOnly : List ClassroomParticipant → List Invitation → Type 0
SeatedOnly seats invitations = IsSeated seats

take_seat-Keeps : (now room user_id : ℕ) → Keeps SeatedOnly (take_seat now room user_id)
unfolding take_seat ◌>>=◌
take_seat-Keeps now room user_id = record {
  keep = λ db h. elim (Option-cases (next_free_seat (seats_in room db.participants))) [
    | inl e ↦ rw (e, ◌>>=◌) h
    | inr (k, e) ↦ rw (e, ◌>>=◌) (IsSeated-append _ db.participants e h)
  ];
}

seat_or_take-Keeps :
    (now room user_id : ℕ) (existing : Option ClassroomParticipant)
    → Keeps SeatedOnly (seat_or_take now room user_id existing)
seat_or_take-Keeps now room user_id (some p) = pure-Keeps SeatedOnly
seat_or_take-Keeps now room user_id none = take_seat-Keeps now room user_id

seat-Keeps : (now room user_id : ℕ) → Keeps SeatedOnly (seat now room user_id)
unfolding seat
seat-Keeps now room user_id =
    >>=-Keeps SeatedOnly (gets-Keeps SeatedOnly) (seat_or_take-Keeps now room user_id)

module _ (kit : Kit) (settings : Settings) (now : ℕ) where
  apply_response-Keeps :
      (i : Invitation) (user_id : ℕ) (accept : Bool) (reason : Option Text)
      → Keeps SeatedOnly (apply_response kit settings now i user_id accept reason)
  unfolding apply_response mark revoke_all
  apply_response-Keeps i user_id accept reason =
      >>=-Keeps SeatedOnly (get_classroom-Keeps SeatedOnly i.classroom_id) (λ c.
        >>=-Keeps SeatedOnly (pure-Keeps SeatedOnly) (λ _.
          >>=-Keeps SeatedOnly (record { keep = λ db h. h })
            (λ _.
              if-Keeps SeatedOnly accept
                (after_accept-Keeps SeatedOnly kit settings now
                  (λ room. record { keep = λ db h. h }) (seat-Keeps now) c.id user_id)
                (after_reject-Keeps SeatedOnly kit settings now c.id user_id))))

  expire_if-Keeps :
      (late : Bool) (i : Invitation)
      → Keeps SeatedOnly (
          modifies (λ db.
            if late then change_invitation i.id (answered now InvitationStatus.expired) db else db))
  expire_if-Keeps true i = record { keep = λ db h. h }
  expire_if-Keeps false i = record { keep = λ db h. h }

  assert_open-Keeps : (i : Invitation) → Keeps SeatedOnly (assert_open now i)
  unfolding assert_open
  assert_open-Keeps i = >>=-Keeps SeatedOnly (pure-Keeps SeatedOnly) (λ _.
      >>=-Keeps SeatedOnly (expire_if-Keeps (ltb i.expires_at now) i)
        (λ _. >>=-Keeps SeatedOnly (pure-Keeps SeatedOnly) (λ _. pure-Keeps SeatedOnly)))

  load_open-Keeps : (id user_id : ℕ) → Keeps SeatedOnly (load_open now id user_id)
  unfolding load_open
  load_open-Keeps id user_id =
      >>=-Keeps SeatedOnly (get_invitation-Keeps SeatedOnly id)
        (λ i. >>=-Keeps SeatedOnly (pure-Keeps SeatedOnly) (λ _. assert_open-Keeps i))

  respond-Keeps :
      (id user_id : ℕ) (accept : Bool) (reason : Option Text)
      → Keeps SeatedOnly (respond kit settings now id user_id accept reason)
  unfolding respond
  respond-Keeps id user_id accept reason =
      >>=-Keeps SeatedOnly (load_open-Keeps id user_id)
        (λ i. apply_response-Keeps i user_id accept reason)

  load_open_by_token-Keeps :
      (raw : Text) → Keeps SeatedOnly (load_open_by_token kit.ciphers kit.random_token now raw)
  unfolding load_open_by_token load_by_token
  load_open_by_token-Keeps raw =
      >>=-Keeps SeatedOnly
        (>>=-Keeps SeatedOnly (gets-Keeps SeatedOnly) (λ _. pure-Keeps SeatedOnly))
        assert_open-Keeps

  session_user-Keeps :
      (user_id : ℕ)
      → Keeps SeatedOnly (session_user kit.ciphers kit.capitalize kit.unusable_password user_id)
  unfolding session_user
  session_user-Keeps user_id =
      >>=-Keeps SeatedOnly (gets-Keeps SeatedOnly) (λ _. pure-Keeps SeatedOnly)

  respond_by_token-Keeps :
      (raw : Text) (accept : Bool) (reason : Option Text)
      → Keeps SeatedOnly (respond_by_token kit settings now raw accept reason)
  unfolding respond_by_token
  respond_by_token-Keeps raw accept reason =
      >>=-Keeps SeatedOnly (load_open_by_token-Keeps raw) (λ i.
        >>=-Keeps SeatedOnly (session_user-Keeps i.user_id) (λ user.
          >>=-Keeps SeatedOnly (apply_response-Keeps i user.id accept reason)
            (λ _. pure-Keeps SeatedOnly)))

  answer-IsSeated :
      (w : Way) (accept : Bool) (reason : Option Text) (db : Db)
      → IsSeated db.participants
      → IsSeated (answer kit settings now w accept reason db).1.participants
  answer-IsSeated (in_app id user_id) accept reason db h =
      (respond-Keeps id user_id accept reason).keep db h
  answer-IsSeated (by_link raw) accept reason db h =
      (respond_by_token-Keeps raw accept reason).keep db h

  -- However somebody answers an invitation, in the application or by the link of the mail, and whatever
  -- goes wrong on the way: where the seats were numbered from 1 to 4 and held once each, they still
  -- are, so no classroom seats more than four.
  pub respond-IsSeated :
      (w : Way) (accept : Bool) (reason : Option Text) (db : Db)
      → IsSeated db.participants
      → let db' = (answer kit settings now w accept reason db).1 in
        IsSeated db'.participants × ((room : ℕ) → seat_count room db' ≤ 4)
  respond-IsSeated w accept reason db h =
      let seated = answer-IsSeated w accept reason db h in
      (seated, λ room. seat_count-le room (answer kit settings now w accept reason db).1 seated)
