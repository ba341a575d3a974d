-- ===== src/Identity/Accounts.antt =====
-- `AuthService` of backend/app/modules/identity/service.py, with `UserRepository` and
-- `RefreshTokenRepository` of its repository.py. The ciphers are libraries: `hash_token` is the digest,
-- `hash_password` and `checkpw` are bcrypt's.
pub mod Rotation
use gd_classroom.Prelude.{
  ℕ, suc, ◌+◌, Bool, true, false, not, ◌&&◌, Option, none, some, List, [], ◌∷◌, ◌++◌, map,
  if◌then◌else◌, ltb, ◌==◌, is_some, Text, codes, strip, text_eq, has_prefix, Result, ok,
}
use gd_classroom.Domain.Enums.{Role, Gender}
use gd_classroom.Store.{
  AppError, Action, pure, raise, gets, modifies, or_raise, raise_if, User, RefreshToken, Db, ◌>>=◌,
  ◌>>◌,
}
use gd_classroom.Store.Rows.{first_of, change_first}
use gd_classroom.Identity.Tokens.{
  TokenKind, Claims, Jwt, decode_token, create_access_token, create_refresh_token,
}

pub record Ciphers : Type 0 where
  pub jwt : Jwt
  pub lower : Text → Text
  pub hash_token : Text → Text
  pub hash_password : Text → Text
  pub checkpw : Text → Text → Bool

pub record Lifetimes : Type 0 where
  pub access_token_ttl : ℕ
  pub refresh_token_ttl : ℕ

pub record Registration : Type 0 where
  pub email : Text
  pub password : Text
  pub display_name : Text
  pub role : Role
  pub gender : Gender

-- The two tokens and their user.
pub record SignedIn : Type 0 where
  pub access : Text
  pub refresh : Text
  pub user : User

abbrev pub unusable_password_prefix : Text
unusable_password_prefix = codes "!"

abbrev pub fresh_id : Action Db ℕ
fresh_id db = (ok db.next_id, record db { next_id = suc db.next_id })

abbrev pub lift : {A : Type 0} → Result AppError A → Action Db A
lift r db = (r, db)

-- `int` of a role: what the token carries.
abbrev pub role_value : Role → ℕ
role_value Role.super_user = 0
role_value Role.participant = 1

abbrev pub user_by_id : ℕ → Db → Option User
user_by_id id db = first_of (λ u. u.id == id) db.users

abbrev pub active_only : Option User → Option User
active_only none = none
active_only (some u) = if u.is_active then some u else none

abbrev pub has_hash : Text → RefreshToken → Bool
unfolding text_eq
has_hash hash t = text_eq t.token_hash hash

abbrev pub in_family : Option ℕ → RefreshToken → Bool
in_family none t = false
in_family (some fam) t = t.family_id == fam

abbrev pub revoke_token : ℕ → RefreshToken → RefreshToken
revoke_token now t = record t { revoked_at = some now }

-- `WHERE … AND revoked_at IS NULL`
abbrev pub revoke_where : (RefreshToken → Bool) → ℕ → List RefreshToken → List RefreshToken
revoke_where p now tokens =
    map (λ t. if p t && not (is_some t.revoked_at) then revoke_token now t else t) tokens

-- A token that is unknown or revoked is none.
abbrev pub unrevoked : Option RefreshToken → Option RefreshToken
unrevoked none = none
unrevoked (some t) = elim t.revoked_at [ none ↦ some t | some _ ↦ none ]

module _ (c : Ciphers) where
  unfoldable pub by_email : Text → Db → Option User
  unfolding strip text_eq
  by_email email db = first_of (λ u. text_eq u.email (strip (c.lower email))) db.users

  unfoldable pub verify_password : Text → Text → Bool
  unfolding has_prefix
  verify_password plain hashed =
      if has_prefix unusable_password_prefix hashed then false else c.checkpw plain hashed

  unfoldable pub by_hash : Text → Db → Option RefreshToken
  unfolding has_hash
  by_hash raw db = first_of (has_hash (c.hash_token raw)) db.refresh_tokens

  unfoldable pub revoke_family : ℕ → Option ℕ → Db → Db
  revoke_family now fam db = record db {
    refresh_tokens = revoke_where (in_family fam) now db.refresh_tokens;
  }

  unfoldable pub revoke_for_user : ℕ → ℕ → Db → Db
  revoke_for_user now user_id db = record db {
    refresh_tokens = revoke_where (λ t. t.user_id == user_id) now db.refresh_tokens;
  }

  -- `stored.revoked_at = now`
  unfoldable pub revoke_stored : ℕ → Text → Db → Db
  unfolding has_hash
  revoke_stored now raw db = record db {
    refresh_tokens =
        change_first (has_hash (c.hash_token raw)) (revoke_token now) db.refresh_tokens;
  }

  abbrev pub seen : ℕ → ℕ → Db → Db
  seen now user_id db = record db {
    users =
        change_first (λ u. u.id == user_id) (λ u. record u { last_seen_at = some now }) db.users;
  }

  unfoldable pub register : Registration → Action Db User
  unfolding by_email strip
  register payload = do
    raise_if (is_some (← gets (by_email payload.email))) AppError.conflict
    id ← fresh_id
    let user : User = record {
      id = id;
      email = strip (c.lower payload.email);
      password_hash = c.hash_password payload.password;
      display_name = strip payload.display_name;
      role = payload.role;
      gender = payload.gender;
      is_active = true;
      last_seen_at = none;
      last_invited_at = none;
    }
    modifies (λ db. record db { users = db.users ++ user ∷ [] })
    pure user

  module _ (ttl : Lifetimes) (now : ℕ) where
    abbrev pub stored_token : User → ℕ → Text → RefreshToken
    stored_token user family raw = record {
      user_id = user.id;
      family_id = family;
      token_hash = c.hash_token raw;
      expires_at = now + ttl.refresh_token_ttl;
      revoked_at = none;
    }

    -- `_issue_pair`; the user agent is only stored.
    unfoldable pub issue_pair : User → ℕ → Action Db SignedIn
    issue_pair user family = do
      jti ← fresh_id
      let access =
          create_access_token c.jwt now jti ttl.access_token_ttl user.id (role_value user.role)
      jti' ← fresh_id
      let refresh = create_refresh_token c.jwt now jti' ttl.refresh_token_ttl user.id family
      modifies (λ db. record db {
        refresh_tokens = db.refresh_tokens ++ stored_token user family refresh ∷ [];
      })
      pure (record { access = access; refresh = refresh; user = user })

    unfoldable pub login : Text → Text → Action Db SignedIn
    login email password = do
      user ← or_raise (← gets (by_email email)) AppError.authentication
      raise_if (not (verify_password password user.password_hash)) AppError.authentication
      raise_if (not user.is_active) AppError.authentication
      modifies (seen now user.id)
      family ← fresh_id
      issue_pair user family

    unfoldable pub issue_session_for : ℕ → Action Db SignedIn
    issue_session_for user_id = do
      found ← gets (user_by_id user_id)
      user ← or_raise (active_only found) AppError.authentication
      modifies (seen now user.id)
      family ← fresh_id
      issue_pair user family

    -- `refresh`, after the row was read: none is a token that is replayed or unknown.
    unfoldable pub rotate : Text → Claims → Option RefreshToken → Action Db SignedIn
    rotate raw claims none = do
      modifies (revoke_family now claims.fam)
      raise AppError.authentication
    rotate raw claims (some stored) = do
      raise_if (ltb stored.expires_at now) AppError.authentication
      found ← gets (user_by_id stored.user_id)
      user ← or_raise (active_only found) AppError.authentication
      modifies (revoke_stored now raw)
      issue_pair user stored.family_id

    unfoldable pub refresh : Text → Action Db SignedIn
    refresh raw = do
      claims ← lift (decode_token c.jwt now TokenKind.refresh raw)
      stored ← gets (by_hash raw)
      rotate raw claims (unrevoked stored)

  -- A request without a token signs the user out everywhere, and so does one with an unknown token.
  unfoldable pub logout : ℕ → Option Text → ℕ → Action Db (Unit {0})
  logout now none user_id = modifies (revoke_for_user now user_id)
  logout now (some raw) user_id = do
    stored ← gets (by_hash raw)
    elim stored [
      | none ↦ modifies (revoke_for_user now user_id)
      | some t ↦ modifies (revoke_family now (some t.family_id))
    ]
