-- ===== src/Identity/Tokens/Tickets.antt =====
-- What a ticket is good for (backend/app/core/security.py).
use gd_classroom.Prelude.{
  ℕ, ◌+◌, ◌<◌, ◌≤◌, ◌≡◌, refl, sym, ap, ◌∙◌, Bool, false, some, ◌==◌, if◌then◌else◌, ◌⊎◌, Result,
  ok, err, is_ok, ltb, Bool-cases, inl, inr, arith,
}
use gd_classroom.Store.{AppError}
use gd_classroom.Identity.Tokens.{
  TokenKind, Claims, JwtError, Jwt, same_kind, of_kind, for_scope, no_claims, decode_token,
  create_access_token, create_refresh_token, read_ticket, sign,
}

-- The library's documentation: what was signed comes back from the time of its claim `iat` on until it
-- expires. An `iat` in the future is an `ImmatureSignatureError`, which is an `InvalidTokenError`, and a
-- token that is over an `ExpiredSignatureError`; `iat` is looked at first.
pub record IsJwt (jwt : Jwt) : Type 0 where
  pub immature :
      (claims : Claims) (now : ℕ)
      → now < claims.iat
      → jwt.decode now (jwt.encode claims) ≡ err JwtError.invalid_token
  pub valid :
      (claims : Claims) (now : ℕ)
      → claims.iat ≤ now
      → now < claims.exp
      → jwt.decode now (jwt.encode claims) ≡ ok claims
  pub expired :
      (claims : Claims) (now : ℕ)
      → claims.iat ≤ now
      → claims.exp ≤ now
      → jwt.decode now (jwt.encode claims) ≡ err JwtError.expired_signature

-- Where a time stands in the life of a token that was made at `now` for `ttl` seconds.
pub data Age : Type 0 where
  unborn alive over : Age

abbrev pub age : ℕ → ℕ → ℕ → Age
age now ttl later =
    if ltb later now then Age.unborn else if ltb later (now + ttl) then Age.alive else Age.over

-- What a ticket opens: its own stream, while it is valid.
abbrev pub opens : ℕ → ℕ → ℕ → ℕ → Age → Result AppError (ℕ × ℕ)
opens user_id session_id scope wanted Age.unborn = err AppError.authentication
opens user_id session_id scope wanted Age.alive =
    if scope == wanted then ok (user_id, session_id) else err AppError.authentication
opens user_id session_id scope wanted Age.over = err AppError.token_expired

-- What is left of a token of the kind that is expected, or another.
abbrev decodes : Bool → Claims → Age → Result AppError Claims
decodes same claims Age.unborn = err AppError.authentication
decodes same claims Age.alive = if same then ok claims else err AppError.authentication
decodes same claims Age.over = err AppError.token_expired

age-cases :
    (now ttl later : ℕ)
    → ((age now ttl later ≡ Age.unborn) × (later < now))
      ⊎ (((age now ttl later ≡ Age.alive) × (now ≤ later) × (later < now + ttl))
          ⊎ ((age now ttl later ≡ Age.over) × (now ≤ later) × (now + ttl ≤ later)))
age-cases now ttl later = elim (Bool-cases (ltb later now)) [
  | inl e ↦ inl (rw e refl, ground (arith, e))
  | inr e ↦ elim (Bool-cases (ltb later (now + ttl))) [
    | inl f ↦ inr (inl (rw (e, f) refl, ground (arith, e), ground (arith, f)))
    | inr f ↦ inr (inr (rw (e, f) refl, ground (arith, e), ground (arith, f)))
  ]
]

other_kind_closes :
    (wanted : ℕ) (claims : Claims) (a : Age)
    → is_ok (for_scope wanted (decodes false claims a)) ≡ false
other_kind_closes wanted claims Age.unborn = refl
other_kind_closes wanted claims Age.alive = refl
other_kind_closes wanted claims Age.over = refl

module _ (jwt : Jwt) (laws : IsJwt jwt) where
  decode_token-sign :
      (now later jti ttl : ℕ) (kind expected : TokenKind) (payload : Claims)
      → decode_token jwt later expected (sign jwt now jti ttl kind payload)
        ≡ decodes
            (same_kind kind expected)
            (record payload { iat = now; exp = now + ttl; jti = jti; typ = kind })
            (age now ttl later)
  unfolding decode_token sign
  decode_token-sign now later jti ttl kind expected payload =
      let claims : Claims = record payload { iat = now; exp = now + ttl; jti = jti; typ = kind } in
      let same = same_kind kind expected in
      elim (age-cases now ttl later) [
        | inl (e, h) ↦
            ap (of_kind expected) (laws.immature claims later h) ∙ ap (decodes same claims) (sym e)
        | inr (inl (e, g, h)) ↦
            ap (of_kind expected) (laws.valid claims later g h) ∙ ap (decodes same claims) (sym e)
        | inr (inr (e, g, h)) ↦
            ap (of_kind expected) (laws.expired claims later g h) ∙ ap (decodes same claims) (sym e)
      ]

  other_kinds_close :
      (now later jti ttl wanted : ℕ) (kind : TokenKind) (payload : Claims)
      → same_kind kind TokenKind.ticket ≡ false
      → is_ok (read_ticket jwt later wanted (sign jwt now jti ttl kind payload)) ≡ false
  unfolding read_ticket
  other_kinds_close now later jti ttl wanted kind payload h =
      let claims : Claims = record payload { iat = now; exp = now + ttl; jti = jti; typ = kind } in
      let a = age now ttl later in
      ap (λ r. is_ok (for_scope wanted r))
        (decode_token-sign now later jti ttl kind TokenKind.ticket payload
          ∙ ap (λ same. decodes same claims a) h)
      ∙ other_kind_closes wanted claims a

  -- An access or a refresh token is no ticket, whenever it is shown and however long it lives.
  pub tokens_are_no_tickets :
      (now later jti ttl user_id role family_id wanted : ℕ)
      → (is_ok (read_ticket jwt later wanted (create_access_token jwt now jti ttl user_id role))
          ≡ false)
        × (is_ok (
              read_ticket jwt later wanted (create_refresh_token jwt now jti ttl user_id family_id))
            ≡ false)
  unfolding create_access_token create_refresh_token
  tokens_are_no_tickets now later jti ttl user_id role family_id wanted = (
    other_kinds_close now later jti ttl wanted TokenKind.access
        (record (no_claims user_id) { role = some role }) refl,
    other_kinds_close now later jti ttl wanted TokenKind.refresh
        (record (no_claims user_id) { fam = some family_id }) refl,
  )
