-- ===== src/Identity/Accounts/Rotation.antt =====
-- Refresh tokens are used once (backend/app/modules/identity/service.py).
use gd_classroom.Prelude.{
  ℕ, ◌≡◌, refl, sym, ap, ◌∙◌, inl, inr, true, false, none, some, ltb, Bool-cases, Option-cases,
  Text, Result, ok, err, is_ok, Result-cases,
}
use gd_classroom.Store.{AppError, ◌>>=◌, User, RefreshToken, Db, unit_of_work}
use gd_classroom.Store.Rollback.{unit_of_work-err}
use gd_classroom.Identity.Tokens.{TokenKind, Claims, decode_token}
use gd_classroom.Store.Rows.{change_first, first_of-change_first, first_of-append}
use gd_classroom.Identity.Accounts.{
  Ciphers, Lifetimes, SignedIn, has_hash, revoke_token, unrevoked, by_hash, user_by_id, active_only,
  revoke_family, revoke_stored, issue_pair, rotate, refresh,
}

module _ (c : Ciphers) (ttl : Lifetimes) where
  refresh-rotate :
      (now : ℕ) (raw : Text) (claims : Claims) (db : Db)
      → decode_token c.jwt now TokenKind.refresh raw ≡ ok claims
      → refresh c ttl now raw db ≡ rotate c ttl now raw claims (unrevoked (by_hash c raw db)) db
  unfolding refresh ◌>>=◌
  refresh-rotate now raw claims db h = rw (h, refresh, ◌>>=◌) refl

  refresh-undecoded :
      (now : ℕ) (raw : Text) (e : AppError) (db : Db)
      → decode_token c.jwt now TokenKind.refresh raw ≡ err e
      → refresh c ttl now raw db ≡ (err e, db)
  unfolding refresh ◌>>=◌
  refresh-undecoded now raw e db h = rw (h, refresh, ◌>>=◌) refl

  refresh-used :
      (now : ℕ) (raw : Text) (claims : Claims) (db : Db)
      → decode_token c.jwt now TokenKind.refresh raw ≡ ok claims
      → unrevoked (by_hash c raw db) ≡ none
      → refresh c ttl now raw db ≡ (err AppError.authentication, revoke_family c now claims.fam db)
  unfolding rotate ◌>>=◌
  refresh-used now raw claims db h k =
      refresh-rotate now raw claims db h ∙ ap (λ stored. rotate c ttl now raw claims stored db) k

  -- What the reuse detection is for, and what becomes of it: inside the transaction, a valid refresh
  -- token that is unknown or was used already revokes its whole family; then the error that `refresh`
  -- raises makes the unit of work roll that back, and the database stays as it was.
  pub replay_is_forgiven :
      (now : ℕ) (raw : Text) (claims : Claims) (db : Db)
      → decode_token c.jwt now TokenKind.refresh raw ≡ ok claims
      → unrevoked (by_hash c raw db) ≡ none
      → let request = unit_of_work (refresh c ttl now raw) db in
        ((refresh c ttl now raw db).1 ≡ revoke_family c now claims.fam db)
        × (request.result ≡ err AppError.authentication)
        × (request.db ≡ db)
  replay_is_forgiven now raw claims db h k =
      let raised = refresh-used now raw claims db h k in
      let served =
        unit_of_work-err (refresh c ttl now raw) AppError.authentication db
          (revoke_family c now claims.fam db) raised in
      (ap (λ r. r.1) raised, ap (λ s. s.result) served, ap (λ s. s.db) served)

  used_is_refused :
      (now : ℕ) (raw : Text) (db : Db)
      → unrevoked (by_hash c raw db) ≡ none
      → is_ok (refresh c ttl now raw db).0 ≡ false
  used_is_refused now raw db k =
      elim (Result-cases (decode_token c.jwt now TokenKind.refresh raw)) [
        | inl (claims, h) ↦ rw (refresh-used now raw claims db h k) refl
        | inr (e, h) ↦ rw (refresh-undecoded now raw e db h) refl
      ]

  module _ (now : ℕ) (raw : Text) (claims : Claims) (stored : RefreshToken) (db : Db) where
    abbrev rotated : Result AppError SignedIn × Db
    rotated = rotate c ttl now raw claims (some stored) db

    rotate-issue_pair :
        (u : User)
        → ltb stored.expires_at now ≡ false
        → active_only (user_by_id stored.user_id db) ≡ some u
        → rotated ≡ issue_pair c ttl now u stored.family_id (revoke_stored c now raw db)
    unfolding rotate ◌>>=◌
    rotate-issue_pair u e f = rw (e, f, rotate, ◌>>=◌) refl

    rotate-expired : ltb stored.expires_at now ≡ true → is_ok rotated.0 ≡ false
    unfolding rotate ◌>>=◌
    rotate-expired e = rw (e, rotate, ◌>>=◌) refl

    rotate-inactive :
        ltb stored.expires_at now ≡ false
        → active_only (user_by_id stored.user_id db) ≡ none
        → is_ok rotated.0 ≡ false
    unfolding rotate ◌>>=◌
    rotate-inactive e f = rw (e, f, rotate, ◌>>=◌) refl

    issued-unrevoked :
        (u : User)
        → by_hash c raw db ≡ some stored
        → unrevoked
            (by_hash c raw (issue_pair c ttl now u stored.family_id (revoke_stored c now raw db)).1)
          ≡ none
    unfolding by_hash issue_pair revoke_stored ◌>>=◌
    issued-unrevoked u k =
        let p = has_hash (c.hash_token raw) in
        let revoked = change_first p (revoke_token now) db.refresh_tokens in
        ap unrevoked (
          first_of-append p revoked _ (revoke_token now stored)
            (first_of-change_first p (revoke_token now) db.refresh_tokens stored (λ _. refl) k))

    -- A pair that was issued for a row leaves the row revoked.
    rotated-unrevoked :
        by_hash c raw db ≡ some stored
        → is_ok rotated.0 ≡ true
        → unrevoked (by_hash c raw rotated.1) ≡ none
    rotated-unrevoked k well = elim (Bool-cases (ltb stored.expires_at now)) [
      | inl e ↦ let failed = rotate-expired e in absurd cc
      | inr e ↦ elim (Option-cases (active_only (user_by_id stored.user_id db))) [
        | inl f ↦ let failed = rotate-inactive e f in absurd cc
        | inr (u, f) ↦
            ap (λ r. unrevoked (by_hash c raw r.1)) (rotate-issue_pair u e f) ∙ issued-unrevoked u k
      ]
    ]

  -- A refresh token signs in once: after it did, any later request with it is refused.
  pub refresh_once :
      (now later : ℕ) (raw : Text) (db : Db)
      → is_ok (refresh c ttl now raw db).0 ≡ true
      → is_ok (refresh c ttl later raw (refresh c ttl now raw db).1).0 ≡ false
  refresh_once now later raw db well =
      used_is_refused later raw (refresh c ttl now raw db).1
        (elim (Result-cases (decode_token c.jwt now TokenKind.refresh raw)) [
          | inr (e, h) ↦
              let failed = ap (λ r. is_ok r.0) (refresh-undecoded now raw e db h) in absurd cc
          | inl (claims, h) ↦ elim (Option-cases (by_hash c raw db)) [
            | inl f ↦
                let failed =
                  ap (λ r. is_ok r.0) (refresh-used now raw claims db h (ap unrevoked f)) in
                absurd cc
            | inr (stored, f) ↦ elim (Option-cases stored.revoked_at) [
              | inl g ↦
                  let live : unrevoked (by_hash c raw db) ≡ some stored =
                    ap unrevoked f ∙ ap (λ o. elim o [ none ↦ some stored | some _ ↦ none ]) g in
                  let same =
                    refresh-rotate now raw claims db h
                    ∙ ap (λ o. rotate c ttl now raw claims o db) live in
                  let good = ap (λ r. is_ok r.0) (sym same) ∙ well in
                  ap (λ r. unrevoked (by_hash c raw r.1)) same
                  ∙ rotated-unrevoked now raw claims stored db f good
              | inr (at, g) ↦
                  let dead : unrevoked (by_hash c raw db) ≡ none = ap unrevoked f ∙ rw g refl in
                  let failed = ap (λ r. is_ok r.0) (refresh-used now raw claims db h dead) in
                  absurd cc
            ]
          ]
        ])
