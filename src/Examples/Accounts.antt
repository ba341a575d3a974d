-- ===== src/Examples/Accounts.antt =====
-- An account with a refresh token (backend/app/modules/identity, backend/app/core/security.py) at which
-- the theorems are applied.
use gd_classroom.Prelude.{
  ℕ, zero, suc, ◌≡◌, refl, arith, true, false, Option, none, some, [], ◌∷◌, ltb, lt→ltb,
  if◌then◌else◌, Text, codes, text_eq, Result, ok, err, is_ok,
}
use gd_classroom.Domain.Enums.{Role, Gender}
use gd_classroom.Store.{AppError, ◌>>=◌, User, RefreshToken, Db, unit_of_work}
use gd_classroom.Identity.Tokens.{
  TokenKind, Claims, JwtError, Jwt, decode_token, create_access_token, create_refresh_token,
  read_ticket,
}
use gd_classroom.Identity.Tokens.Tickets.{IsJwt, tokens_are_no_tickets}
use gd_classroom.Identity.Accounts.{
  Ciphers, Lifetimes, Registration, by_hash, issue_pair, revoke_family, rotate, refresh,
}
use gd_classroom.Identity.Accounts.Rotation.{replay_is_forgiven, refresh_once}

-- A signer that writes the claims out, and adds no secret.
abbrev pub written : Option ℕ → ℕ
written none = zero
written (some n) = suc n

abbrev pub read : ℕ → Option ℕ
read zero = none
read (suc n) = some n

abbrev pub kind_code : TokenKind → ℕ
kind_code TokenKind.access = 0
kind_code TokenKind.refresh = 1
kind_code TokenKind.ticket = 2

abbrev pub kind_of : ℕ → TokenKind
kind_of zero = TokenKind.access
kind_of (suc zero) = TokenKind.refresh
kind_of (suc (suc n)) = TokenKind.ticket

abbrev pub encoded : Claims → Text
encoded c =
    c.sub
    ∷ written c.role
    ∷ written c.fam
    ∷ written c.sid
    ∷ written c.scope
    ∷ c.iat
    ∷ c.exp
    ∷ c.jti
    ∷ kind_code c.typ
    ∷ []

abbrev pub decoded : ℕ → Text → Result JwtError Claims
decoded now (sub ∷ role ∷ fam ∷ sid ∷ scope ∷ iat ∷ exp ∷ jti ∷ kind ∷ []) =
    if ltb now iat
    then err JwtError.invalid_token
    else if ltb now exp
    then ok (record {
      sub = sub;
      role = read role;
      fam = read fam;
      sid = read sid;
      scope = read scope;
      iat = iat;
      exp = exp;
      jti = jti;
      typ = kind_of kind;
    })
    else err JwtError.expired_signature
decoded now _ = err JwtError.invalid_token

abbrev pub plain_jwt : Jwt
plain_jwt = record { encode = encoded; decode = decoded }

read-written : (o : Option ℕ) → read (written o) ≡ o
read-written none = refl
read-written (some n) = refl

kind_of-kind_code : (k : TokenKind) → kind_of (kind_code k) ≡ k
kind_of-kind_code TokenKind.access = refl
kind_of-kind_code TokenKind.refresh = refl
kind_of-kind_code TokenKind.ticket = refl

plain_jwt-IsJwt : IsJwt plain_jwt
plain_jwt-IsJwt = record {
  immature = λ c now h. ground (arith, h);
  valid = λ c now g h.
      let born : ltb now c.iat ≡ false = ground (arith, g) in
      rw
        (
          born,
          lt→ltb now c.exp h,
          read-written c.role,
          read-written c.fam,
          read-written c.sid,
          read-written c.scope,
          kind_of-kind_code c.typ,
        )
        refl;
  expired = λ c now g h. ground (arith, g, h);
}

tokens_are_no_tickets_example :
    (is_ok (read_ticket plain_jwt 1030 5 (create_access_token plain_jwt 1000 1 900 7 0)) ≡ false)
    × (is_ok (read_ticket plain_jwt 1030 5 (create_refresh_token plain_jwt 1000 1 900 7 3)) ≡ false)
tokens_are_no_tickets_example =
    tokens_are_no_tickets plain_jwt plain_jwt-IsJwt 1000 1030 1 900 7 0 3 5

abbrev pub ciphers : Ciphers
ciphers = record {
  jwt = plain_jwt;
  lower = λ t. t;
  hash_token = λ t. t;
  hash_password = λ t. t;
  checkpw = λ plain hashed. text_eq plain hashed;
}

abbrev lifetimes : Lifetimes
lifetimes = record { access_token_ttl = 900; refresh_token_ttl = 604800 }

abbrev pub ann : User
ann = record {
  id = 7;
  email = codes "ann@x";
  password_hash = codes "secret";
  display_name = codes "Ann";
  role = Role.participant;
  gender = Gender.unspecified;
  is_active = true;
  last_seen_at = none;
  last_invited_at = none;
}

-- Ann's refresh token of family 3, signed at 1000.
abbrev claims : Claims
claims = record {
  sub = 7;
  role = none;
  fam = some 3;
  sid = none;
  scope = none;
  iat = 1000;
  exp = 605800;
  jti = 1;
  typ = TokenKind.refresh;
}

abbrev stored : RefreshToken
stored = record {
  user_id = 7;
  family_id = 3;
  token_hash = encoded claims;
  expires_at = 605800;
  revoked_at = none;
}

abbrev db : Db
db = record {
  users = ann ∷ [];
  refresh_tokens = stored ∷ [];
  topics = [];
  classrooms = [];
  participants = [];
  invitations = [];
  sessions = [];
  session_participants = [];
  events = [];
  mail = [];
  next_id = 20;
}

-- The same, after the token was used.
abbrev used_db : Db
used_db = record db { refresh_tokens = record stored { revoked_at = some 1500 } ∷ [] }

replay_is_forgiven_example :
    let request = unit_of_work (refresh ciphers lifetimes 2000 (encoded claims)) used_db in
    ((refresh ciphers lifetimes 2000 (encoded claims) used_db).1
      ≡ revoke_family ciphers 2000 (some 3) used_db)
    × (request.result ≡ err AppError.authentication)
    × (request.db ≡ used_db)
unfolding decode_token by_hash text_eq
replay_is_forgiven_example =
    replay_is_forgiven ciphers lifetimes 2000 (encoded claims) claims used_db refl refl

refresh_once_example :
    is_ok
      (refresh ciphers lifetimes 9000
        (encoded claims)
        (refresh ciphers lifetimes 2000 (encoded claims) db).1).0
    ≡ false
unfolding refresh rotate decode_token by_hash text_eq issue_pair ◌>>=◌
refresh_once_example = refresh_once ciphers lifetimes 2000 9000 (encoded claims) db refl

abbrev ann_again : Registration
ann_again = record {
  email = codes "ann@x";
  password = codes "other";
  display_name = codes "Ann";
  role = Role.participant;
  gender = Gender.unspecified;
}

-- A second account with the same address.
