-- ===== src/Identity/Tokens.antt =====
-- Tokens: backend/app/core/security.py. The signer is the library `jwt`, which is not part of the
-- program: `encode` signs claims, and `decode` gives them back, or raises. Claims are a record with the
-- keys that the program writes; identifiers, roles, families and scopes are numbers that are only
-- compared.
pub mod Tickets
use gd_classroom.Prelude.{
  ℕ, ◌+◌, Bool, true, false, not, Option, none, some, if◌then◌else◌, ◌==◌, Text, Result, ok, err,
}
use gd_classroom.Store.{AppError}

pub data TokenKind : Type 0 where
  access refresh ticket : TokenKind

abbrev pub same_kind : TokenKind → TokenKind → Bool
same_kind TokenKind.access TokenKind.access = true
same_kind TokenKind.refresh TokenKind.refresh = true
same_kind TokenKind.ticket TokenKind.ticket = true
same_kind _ _ = false

-- The claims: those that a kind of token does not carry are none.
pub record Claims : Type 0 where
  pub sub : ℕ
  pub role : Option ℕ
  pub fam : Option ℕ
  pub sid : Option ℕ
  pub scope : Option ℕ
  pub iat : ℕ
  pub exp : ℕ
  pub jti : ℕ
  pub typ : TokenKind

pub data JwtError : Type 0 where
  expired_signature invalid_token : JwtError

-- The library, with the secret, the algorithm and the issuer of the settings: `decode` at a time.
pub record Jwt : Type 0 where
  pub encode : Claims → Text
  pub decode : ℕ → Text → Result JwtError Claims

abbrev pub no_claims : ℕ → Claims
no_claims user_id = record {
  sub = user_id;
  role = none;
  fam = none;
  sid = none;
  scope = none;
  iat = 0;
  exp = 0;
  jti = 0;
  typ = TokenKind.access;
}

abbrev pub is_claim : ℕ → Option ℕ → Bool
is_claim k none = false
is_claim k (some j) = j == k

-- What `decode_token` makes of the library's answer.
abbrev pub of_kind : TokenKind → Result JwtError Claims → Result AppError Claims
of_kind expected (err JwtError.expired_signature) = err AppError.token_expired
of_kind expected (err JwtError.invalid_token) = err AppError.authentication
of_kind expected (ok claims) =
    if same_kind claims.typ expected then ok claims else err AppError.authentication

-- The user and the session of a ticket. A ticket without a session has no such key, and the lookup
-- raises; that is not one of the errors that the program handles, and stands here with the others.
abbrev pub session_of : ℕ → Option ℕ → Result AppError (ℕ × ℕ)
session_of user_id none = err AppError.authentication
session_of user_id (some sid) = ok (user_id, sid)

-- What `read_ticket` makes of the claims.
abbrev pub for_scope : ℕ → Result AppError Claims → Result AppError (ℕ × ℕ)
for_scope scope (err e) = err e
for_scope scope (ok claims) =
    if not (is_claim scope claims.scope)
    then err AppError.authentication
    else session_of claims.sub claims.sid

module _ (jwt : Jwt) where
  -- `_encode`, with the time and the random identifier.
  unfoldable pub sign : ℕ → ℕ → ℕ → TokenKind → Claims → Text
  sign now jti ttl kind payload =
      jwt.encode (record payload { iat = now; exp = now + ttl; jti = jti; typ = kind })

  unfoldable pub decode_token : ℕ → TokenKind → Text → Result AppError Claims
  decode_token now expected token = of_kind expected (jwt.decode now token)

  unfoldable pub create_access_token : ℕ → ℕ → ℕ → ℕ → ℕ → Text
  unfolding sign
  create_access_token now jti ttl user_id role =
      sign now jti ttl TokenKind.access (record (no_claims user_id) { role = some role })

  unfoldable pub create_refresh_token : ℕ → ℕ → ℕ → ℕ → ℕ → Text
  unfolding sign
  create_refresh_token now jti ttl user_id family_id =
      sign now jti ttl TokenKind.refresh (record (no_claims user_id) { fam = some family_id })

  unfoldable pub create_ticket : ℕ → ℕ → ℕ → ℕ → ℕ → ℕ → Text
  unfolding sign
  create_ticket now jti ttl user_id session_id scope =
      sign now jti ttl TokenKind.ticket
        (record (no_claims user_id) { sid = some session_id; scope = some scope })

  unfoldable pub read_ticket : ℕ → ℕ → Text → Result AppError (ℕ × ℕ)
  unfolding decode_token
  read_ticket now scope token = for_scope scope (decode_token now TokenKind.ticket token)
