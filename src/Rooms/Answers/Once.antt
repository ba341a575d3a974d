-- ===== src/Rooms/Answers/Once.antt =====
-- An invitation is answered once (backend/app/application/enrollment.py,
-- backend/app/modules/invitation/service.py).
use gd_classroom.Prelude.{
  ℕ, ◌≡◌, refl, sym, ap, ◌∙◌, inl, inr, Bool, true, false, Option, some, ◌==◌, Bool-cases, Text,
  text_eq, Result, Result-cases, ok, is_ok,
}
use mathlib.Core.Path.{subst}
use gd_classroom.Store.Binds.{>>=-ok, >>=-is_ok}
use gd_classroom.Store.{AppError, ◌>>=◌, Action, Invitation, SessionRecord, User, Db, pure}
use gd_classroom.Store.Rows.{first_of}
use gd_classroom.Identity.People.{session_user}
use gd_classroom.Rooms.Classrooms.{Settings}
use gd_classroom.Rooms.Invitations.{invitation_row, load_open, load_open_by_token}
use gd_classroom.Rooms.Enrollment.{Kit, apply_response, respond, respond_by_token}
use gd_classroom.Rooms.Loading.{
  IsClosed, load_open-inv, answered_is_closed, load_open_by_token-inv, closed_link,
}
use gd_classroom.Rooms.Ways.{Way, in_app, by_link, names, answer}
use gd_classroom.Rooms.Answers.{
  Blind, with_reason-id, with_reason-token_hash, apply_response-IsClosed,
}

names-Blind : (kit : Kit) (w : Way) → Blind (names kit w)
names-Blind kit (in_app id user_id) = record {
  status_free = λ now s j. refl;
  reason_free = λ reason j. ap (λ n. n == id) (with_reason-id reason j);
}
names-Blind kit (by_link raw) = record {
  status_free = λ now s j. refl;
  reason_free = λ reason j.
      ap (λ t. text_eq t (kit.ciphers.hash_token raw)) (with_reason-token_hash reason j);
}

module _ (kit : Kit) (settings : Settings) (now : ℕ) (accept : Bool) (reason : Option Text)
    (db : Db) where
  -- A closed invitation takes no answer.
  closed_refuses :
      (w : Way)
      → IsClosed (names kit w) db.invitations
      → (answer kit settings now w accept reason db).0 ≡ false
  unfolding respond respond_by_token
  closed_refuses (in_app id user_id) h =
      >>=-is_ok (load_open now id user_id) _ db (answered_is_closed now id user_id db h)
  closed_refuses (by_link raw) h =
      >>=-is_ok (load_open_by_token kit.ciphers kit.random_token now raw) _ db
        (closed_link kit.ciphers kit.random_token now raw db h)

  abbrev applied : Invitation → ℕ → Result AppError (ℕ × Option SessionRecord) × Db
  applied i user_id = apply_response kit settings now i user_id accept reason db

  abbrev IsApplied : Way → Invitation → Type 0
  IsApplied w i =
      (user_id : ℕ) × (is_ok (applied i user_id).0 ≡ true)
      × ((answer kit settings now w accept reason db).1 ≡ (applied i user_id).1)

  in_app_applies :
      (id user_id : ℕ) (i : Invitation)
      → first_of (names kit (in_app id user_id)) db.invitations ≡ some i
      → (answer kit settings now (in_app id user_id) accept reason db).0 ≡ true
      → IsApplied (in_app id user_id) i
  unfolding respond
  in_app_applies id user_id i found well =
      elim (Bool-cases (is_ok (load_open now id user_id db).0)) [
        | inr f ↦
            let failed =
              >>=-is_ok (load_open now id user_id)
                (λ j. apply_response kit settings now j user_id accept reason) db f in
            absurd cc
        | inl f ↦
            let (j, row, h) = load_open-inv now id user_id db f in
            let one : some j ≡ some i = sym row ∙ found in
            let same : j ≡ i = cc in
            let whole =
              >>=-ok (load_open now id user_id)
                (λ j. apply_response kit settings now j user_id accept reason) db j db h
              ∙ ap (λ a. applied a user_id) same in
            (user_id, ap (λ r. is_ok r.0) (sym whole) ∙ well, ap (λ r. r.1) whole)
      ]

  abbrev with_user : Invitation → User → Action Db (ℕ × Option SessionRecord × ℕ)
  with_user i user =
      apply_response kit settings now i user.id accept reason >>= λ a. pure (a.0, a.1, i.user_id)

  abbrev find_user : Invitation → Action Db User
  find_user i = session_user kit.ciphers kit.capitalize kit.unusable_password i.user_id

  abbrev linked : Invitation → Action Db (ℕ × Option SessionRecord × ℕ)
  linked i = find_user i >>= with_user i

  find_user-ok :
      (i : Invitation) (u : User) → (find_user i db).0 ≡ ok u → find_user i db ≡ (ok u, db)
  unfolding session_user ◌>>=◌
  find_user-ok i u e = ap (λ r. (r, db)) e

  linked_applies :
      (i : Invitation)
      → is_ok (linked i db).0 ≡ true
      → (user_id : ℕ) × (is_ok (applied i user_id).0 ≡ true)
        × ((linked i db).1 ≡ (applied i user_id).1)
  linked_applies i well = elim (Result-cases (find_user i db).0) [
    | inr (x, e) ↦ let failed = >>=-is_ok (find_user i) (with_user i) db (ap is_ok e) in absurd cc
    | inl (u, e) ↦
        let found = >>=-ok (find_user i) (with_user i) db u db (find_user-ok i u e) in
        elim (Result-cases (applied i u.id).0) [
          | inr (x, f) ↦
              let failed =
                ap (λ r. is_ok r.0) found
                ∙ >>=-is_ok (apply_response kit settings now i u.id accept reason) _ db
                    (ap is_ok f) in
              absurd cc
          | inl (a, f) ↦
              let left =
                found
                ∙ >>=-ok (apply_response kit settings now i u.id accept reason) _ db a
                    (applied i u.id).1 (ap (λ r. (r, (applied i u.id).1)) f) in
              (u.id, ap is_ok f, ap (λ r. r.1) left)
        ]
  ]

  by_link_applies :
      (raw : Text) (i : Invitation)
      → first_of (names kit (by_link raw)) db.invitations ≡ some i
      → (answer kit settings now (by_link raw) accept reason db).0 ≡ true
      → IsApplied (by_link raw) i
  unfolding respond_by_token
  by_link_applies raw i found well =
      let load = load_open_by_token kit.ciphers kit.random_token now raw in
      elim (Bool-cases (is_ok (load db).0)) [
        | inr f ↦ let failed = >>=-is_ok load linked db f in absurd cc
        | inl f ↦
            let (j, row, h) = load_open_by_token-inv kit.ciphers kit.random_token now raw db f in
            let one : some j ≡ some i = sym row ∙ found in
            let same : j ≡ i = cc in
            let whole = >>=-ok load linked db j db h ∙ ap (λ a. linked a db) same in
            let (user_id, good, left) = linked_applies i (ap (λ r. is_ok r.0) (sym whole) ∙ well) in
            (user_id, good, ap (λ r. r.1) whole ∙ left)
      ]

  applies :
      (w : Way) (i : Invitation)
      → first_of (names kit w) db.invitations ≡ some i
      → (answer kit settings now w accept reason db).0 ≡ true
      → IsApplied w i
  applies (in_app id user_id) i found well = in_app_applies id user_id i found well
  applies (by_link raw) i found well = by_link_applies raw i found well

-- An invitation is answered once. When an answer was taken, in the application or by the link of the mail,
-- the next is refused: whichever of the two ways it comes, whoever gives it, whenever it comes and
-- whatever it says. Both ways name the row `i`, and no row before it has its id.
pub answered_once :
    (kit : Kit) (settings : Settings) (now later : ℕ) (w w' : Way) (accept again : Bool)
    (reason reason' : Option Text) (i : Invitation) (db : Db)
    → first_of (names kit w) db.invitations ≡ some i
    → first_of (names kit w') db.invitations ≡ some i
    → invitation_row i.id db ≡ some i
    → (answer kit settings now w accept reason db).0 ≡ true
    → (answer kit settings later w' again reason' (answer kit settings now w accept reason db).1).0
      ≡ false
answered_once kit settings now later w w' accept again reason reason' i db found found' row well =
    let (user_id, good, left) = applies kit settings now accept reason db w i found well in
    let closed =
      apply_response-IsClosed kit settings now i user_id accept reason db (names kit w')
        (names-Blind kit w') row found' good in
    closed_refuses kit settings later again reason' (answer kit settings now w accept reason db).1
      w' (subst (λ d. IsClosed (names kit w') d.invitations) (sym left) closed)
