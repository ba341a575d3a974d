-- ===== src/Rooms/Loading.antt =====
-- Which invitations may still be answered (backend/app/modules/invitation/service.py).
use gd_classroom.Prelude.{
  ℕ, ◌≡◌, refl, ap, inl, inr, Bool, true, false, none, some, List, ◌==◌, ltb, if◌then◌else◌,
  Bool-cases, Option-cases, Result, ok, is_ok, Text, text_eq,
}
use gd_classroom.Domain.Enums.{InvitationStatus}
use gd_classroom.Store.{AppError, ◌>>=◌, Invitation, Db}
use gd_classroom.Store.Rows.{first_of}
use gd_classroom.Identity.Accounts.{Ciphers}
use gd_classroom.Rooms.Invitations.{
  is_pending, invitation_row, change_invitation, answered, get_invitation, assert_open, load_open,
  load_by_token, load_open_by_token,
}

-- The row that a test finds is there, and not open.
abbrev pub IsClosed : (Invitation → Bool) → List Invitation → Type 0
IsClosed p rows = (j : Invitation) × (first_of p rows ≡ some j) × (is_pending j.status ≡ false)

abbrev pub IsAnswered : ℕ → List Invitation → Type 0
IsAnswered id rows = IsClosed (λ i. i.id == id) rows

module _ (now id user_id : ℕ) (db : Db) where
  abbrev pub loaded : Result AppError Invitation × Db
  loaded = load_open now id user_id db

  load_open-missing : invitation_row id db ≡ none → is_ok loaded.0 ≡ false
  unfolding load_open get_invitation ◌>>=◌
  load_open-missing e = rw (e, load_open, get_invitation, ◌>>=◌) refl

  module _ (i : Invitation) (e : invitation_row id db ≡ some i) where
    load_open-other : (i.user_id == user_id) ≡ false → is_ok loaded.0 ≡ false
    unfolding load_open get_invitation ◌>>=◌
    load_open-other f = rw (e, f, load_open, get_invitation, ◌>>=◌) refl

    module _ (f : (i.user_id == user_id) ≡ true) where
      load_open-closed : is_pending i.status ≡ false → is_ok loaded.0 ≡ false
      unfolding load_open get_invitation assert_open ◌>>=◌
      load_open-closed g = rw (e, f, g, load_open, get_invitation, assert_open, ◌>>=◌) refl

      load_open-late :
          is_pending i.status ≡ true → ltb i.expires_at now ≡ true → is_ok loaded.0 ≡ false
      unfolding load_open get_invitation assert_open ◌>>=◌
      load_open-late g h = rw (e, f, g, h, load_open, get_invitation, assert_open, ◌>>=◌) refl

      load_open-ok : is_pending i.status ≡ true → ltb i.expires_at now ≡ false → loaded ≡ (ok i, db)
      unfolding load_open get_invitation assert_open ◌>>=◌
      load_open-ok g h =
          rw (e, f, g, h, load_open, get_invitation, assert_open, ◌>>=◌)
            (ap
              (λ late. (
                ok i,
                if late
                    then change_invitation i.id (answered now InvitationStatus.expired) db
                    else db,
              ))
              h)

  -- Only an open invitation is loaded, for the person whom it was sent to.
  pub load_open-inv :
      is_ok loaded.0 ≡ true
      → (i : Invitation) × (invitation_row id db ≡ some i) × (loaded ≡ (ok i, db))
  load_open-inv well = elim (Option-cases (invitation_row id db)) [
    | inl e ↦ let failed = load_open-missing e in absurd cc
    | inr (i, e) ↦ elim (Bool-cases (i.user_id == user_id)) [
      | inr f ↦ let failed = load_open-other i e f in absurd cc
      | inl f ↦ elim (Bool-cases (is_pending i.status)) [
        | inr g ↦ let failed = load_open-closed i e f g in absurd cc
        | inl g ↦ elim (Bool-cases (ltb i.expires_at now)) [
          | inl h ↦ let failed = load_open-late i e f g h in absurd cc
          | inr h ↦ (i, e, load_open-ok i e f g h)
        ]
      ]
    ]
  ]

  pub answered_is_closed : IsAnswered id db.invitations → is_ok loaded.0 ≡ false
  answered_is_closed (i, e, g) = elim (Bool-cases (i.user_id == user_id)) [
    | inr f ↦ load_open-other i e f
    | inl f ↦ load_open-closed i e f g
  ]

-- Whoever comes by the link of a mail: the row is the first with the hash of the token.
abbrev pub has_token : Ciphers → Text → Invitation → Bool
has_token c raw i = text_eq i.token_hash (c.hash_token raw)

module _ (c : Ciphers) (random_token : ℕ → Text) (now : ℕ) (raw : Text) (db : Db) where
  abbrev pub token_loaded : Result AppError Invitation × Db
  token_loaded = load_open_by_token c random_token now raw db

  load_open_by_token-missing :
      first_of (has_token c raw) db.invitations ≡ none → is_ok token_loaded.0 ≡ false
  unfolding load_open_by_token load_by_token ◌>>=◌
  load_open_by_token-missing e = rw (e, load_open_by_token, load_by_token, ◌>>=◌) refl

  module _ (i : Invitation) (e : first_of (has_token c raw) db.invitations ≡ some i) where
    load_open_by_token-closed : is_pending i.status ≡ false → is_ok token_loaded.0 ≡ false
    unfolding load_open_by_token load_by_token assert_open ◌>>=◌
    load_open_by_token-closed g =
        rw (e, g, load_open_by_token, load_by_token, assert_open, ◌>>=◌) refl

    load_open_by_token-late :
        is_pending i.status ≡ true → ltb i.expires_at now ≡ true → is_ok token_loaded.0 ≡ false
    unfolding load_open_by_token load_by_token assert_open ◌>>=◌
    load_open_by_token-late g h =
        rw (e, g, h, load_open_by_token, load_by_token, assert_open, ◌>>=◌) refl

    load_open_by_token-ok :
        is_pending i.status ≡ true → ltb i.expires_at now ≡ false → token_loaded ≡ (ok i, db)
    unfolding load_open_by_token load_by_token assert_open ◌>>=◌
    load_open_by_token-ok g h =
        rw (e, g, h, load_open_by_token, load_by_token, assert_open, ◌>>=◌)
          (ap
            (λ late. (
              ok i,
              if late
                  then change_invitation i.id (answered now InvitationStatus.expired) db
                  else db,
            ))
            h)

  -- Only an open invitation is loaded.
  pub load_open_by_token-inv :
      is_ok token_loaded.0 ≡ true
      → (i : Invitation) × (first_of (has_token c raw) db.invitations ≡ some i)
        × (token_loaded ≡ (ok i, db))
  load_open_by_token-inv well = elim (Option-cases (first_of (has_token c raw) db.invitations)) [
    | inl e ↦ let failed = load_open_by_token-missing e in absurd cc
    | inr (i, e) ↦ elim (Bool-cases (is_pending i.status)) [
      | inr g ↦ let failed = load_open_by_token-closed i e g in absurd cc
      | inl g ↦ elim (Bool-cases (ltb i.expires_at now)) [
        | inl h ↦ let failed = load_open_by_token-late i e g h in absurd cc
        | inr h ↦ (i, e, load_open_by_token-ok i e g h)
      ]
    ]
  ]

  pub closed_link : IsClosed (has_token c raw) db.invitations → is_ok token_loaded.0 ≡ false
  closed_link (i, e, g) = load_open_by_token-closed i e g
