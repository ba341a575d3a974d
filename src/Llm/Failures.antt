-- ===== src/Llm/Failures.antt =====
-- What the chain does about an error: backend/app/infrastructure/llm/failures.py. An exception stands
-- here with the attributes that the code reads of it, and what the code takes from Python's own
-- library (the lower case of a text, the two regular expressions for durations, the digits) is the
-- record `Python`. Durations are milliseconds, of times that are not negative.
pub mod Wording
use gd_classroom.Prelude.{
  ℕ, zero, suc, ◌+◌, ◌*◌, Bool, true, false, not, ◌&&◌, ◌||◌, Option, none, some, List, [], ◌∷◌,
  ◌++◌, if◌then◌else◌, ltb, leb, ◌==◌, any_of, filter_by, take, map, is_nonempty, Text, codes,
  strip, has_prefix, is_within,
}
use gd_classroom.Llm.Quota.{Decision}

-- `lower` is `str.lower`, `to_float` is `float` of a text (or none, where it raises), `spelled` is
-- what `_SPELLED.search` finds and `compound` what `_COMPOUND.match` finds, both as durations.
pub record Python : Type 0 where
  pub lower : Text → Text
  pub is_word : ℕ → Bool
  pub digit : ℕ → Option ℕ
  pub to_float : Text → Option ℕ
  pub spelled : Text → Option ℕ
  pub compound : Text → Option ℕ

-- An HTTP response: the empty text where an attribute is missing or empty.
pub record Response : Type 0 where
  pub text : Text
  pub content : Text
  pub retry_after : Text
  pub reset_requests : Text
  pub reset_tokens : Text

-- An exception: `statuses` are the integers among the attributes `status_code` and `status` of the
-- exception and of its response, in that order.
pub record Fault : Type 0 where
  pub said : Text
  pub type_name : Text
  pub message : Text
  pub body : Text
  pub detail : Text
  pub reason : Text
  pub statuses : List ℕ
  pub response : Option Response
  pub cause : Option Text

pub record Failure : Type 0 where
  pub decision : Decision
  pub detail : Text
  pub status_code : Option ℕ
  pub retry_after : Option ℕ

abbrev pub daily_wording : List Text
daily_wording =
    codes "per day"
    ∷ codes "per-day"
    ∷ codes "perday"
    ∷ codes "daily quota"
    ∷ codes "daily limit"
    ∷ codes "requests per day"
    ∷ codes "tokens per day"
    ∷ []

abbrev pub credit_wording : List Text
credit_wording =
    codes "quota exceeded for"
    ∷ codes "insufficient_quota"
    ∷ codes "insufficient quota"
    ∷ codes "out of credits"
    ∷ codes "credit balance is too low"
    ∷ codes "billing hard limit"
    ∷ codes "exceeded your current quota"
    ∷ codes "free tier limit"
    ∷ codes "usage limit reached"
    ∷ codes "exceeded your monthly included credits"
    ∷ []

abbrev pub per_minute_wording : List Text
per_minute_wording =
    codes "per minute"
    ∷ codes "per-minute"
    ∷ codes "perminute"
    ∷ codes "per min"
    ∷ codes "requests per minute"
    ∷ codes "tokens per minute"
    ∷ []

abbrev pub misconfigured_wording : List Text
misconfigured_wording =
    codes "invalid api key"
    ∷ codes "incorrect api key"
    ∷ codes "invalid_api_key"
    ∷ codes "pass a valid api key"
    ∷ codes "api key not valid"
    ∷ codes "no api key"
    ∷ codes "api key not found"
    ∷ codes "unauthorized"
    ∷ codes "authentication"
    ∷ codes "permission denied"
    ∷ codes "does not exist or you do not have access"
    ∷ codes "model_not_found"
    ∷ codes "unknown model"
    ∷ codes "invalid model"
    ∷ codes "unsupported"
    ∷ codes "invalid_request_error"
    ∷ codes "must be one of"
    ∷ []

abbrev pub rate_limit_wording : List Text
rate_limit_wording =
    codes "rate limit"
    ∷ codes "rate_limit"
    ∷ codes "too many requests"
    ∷ codes "429"
    ∷ codes "overloaded"
    ∷ []

abbrev pub transient_wording : List Text
transient_wording =
    codes "timeout"
    ∷ codes "timed out"
    ∷ codes "connection"
    ∷ codes "connect"
    ∷ codes "temporarily unavailable"
    ∷ codes "service unavailable"
    ∷ codes "bad gateway"
    ∷ codes "internal server error"
    ∷ codes "reset by peer"
    ∷ codes "eof occurred"
    ∷ codes "502"
    ∷ codes "503"
    ∷ codes "504"
    ∷ []

-- `any(word in blob for word in words)`
unfoldable pub says : List Text → Text → Bool
says words blob = any_of (λ word. is_within word blob) words

abbrev pub is_status : ℕ → Option ℕ → Bool
is_status n none = false
is_status n (some m) = m == n

abbrev pub at_least : ℕ → Option ℕ → Bool
at_least n none = false
at_least n (some m) = leb n m

abbrev pub below : ℕ → Option ℕ → Bool
below n none = false
below n (some m) = ltb m n

unfoldable pub looks_misconfigured : Text → Option ℕ → Bool
unfolding says
looks_misconfigured blob status =
    is_status 401 status || is_status 403 status || says misconfigured_wording blob

unfoldable pub out_of_credit : Text → Bool
unfolding says
out_of_credit blob =
    says daily_wording blob || (says credit_wording blob && not (says per_minute_wording blob))

unfoldable pub is_rate_limit : Text → Option ℕ → Bool
unfolding says
is_rate_limit blob status = is_status 429 status || says rate_limit_wording blob

unfoldable pub is_transient : Text → Option ℕ → Bool
unfolding says
is_transient blob status = says transient_wording blob || at_least 500 status

-- The decision, of the text, the status and the wait that were read from the exception.
unfoldable pub decide : ℕ → Text → Option ℕ → Option ℕ → Decision
unfolding looks_misconfigured out_of_credit is_rate_limit is_transient
decide threshold blob status retry_after =
    if looks_misconfigured blob status && not (out_of_credit blob)
    then Decision.misconfigured
    else if out_of_credit blob || is_status 402 status
    then Decision.quota_spent
    else if is_rate_limit blob status
    then (if at_least threshold retry_after then Decision.quota_spent else Decision.retry_later)
    else if is_transient blob status
    then Decision.transient
    else if at_least 400 status && below 500 status
    then Decision.misconfigured
    else Decision.transient

-- What stands after the first occurrence of the anchor: `blob[blob.find(anchor) + len(anchor):]`.
unfoldable pub after : Text → Text → Option Text
after anchor [] = none
after anchor (c ∷ cs) =
    let rest = after anchor cs in
    if has_prefix anchor (c ∷ cs) then some (past anchor (c ∷ cs)) else rest
  where
    past : Text → Text → Text
    past [] t = t
    past (_ ∷ s) [] = []
    past (_ ∷ s) (_ ∷ t) = past s t

-- `a or b` of two durations: a wait of no time is false.
abbrev pub or_wait : Option ℕ → Option ℕ → Option ℕ
or_wait none b = b
or_wait (some zero) b = b
or_wait (some (suc a)) b = some (suc a)

-- The first item that is there.
abbrev pub first_some : List (Option ℕ) → Option ℕ
first_some [] = none
first_some (none ∷ os) = first_some os
first_some (some a ∷ os) = some a

-- `s or t` of two texts.
abbrev pub or_text : Text → Text → Text
or_text [] t = t
or_text (c ∷ s) t = c ∷ s

abbrev pub anchors : List Text
anchors = codes "try again in" ∷ codes "retry after" ∷ codes "retry in" ∷ codes "available in" ∷ []

-- An attribute counts in the range of HTTP statuses.
abbrev pub valid_status : ℕ → Option ℕ
valid_status n = if leb 100 n && ltb n 600 then some n else none

abbrev pub starts_word : (ℕ → Bool) → Text → Bool
starts_word is_word [] = false
starts_word is_word (c ∷ t) = is_word c

module _ (py : Python) where
  -- One of the three digits of a status, all there and no word character after them.
  abbrev pub status_of_digits : Bool → ℕ → Option ℕ → Option ℕ → Bool → Option ℕ
  status_of_digits true c (some d) (some e) false = some (100 * c + 10 * d + e)
  status_of_digits _ _ _ _ _ = none

  abbrev pub status_at : Text → Option ℕ
  status_at (c ∷ d ∷ e ∷ t) =
      if c == 0x34
      then status_of_digits true 4 (py.digit d) (py.digit e) (starts_word py.is_word t)
      else status_of_digits (c == 0x35) 5 (py.digit d) (py.digit e) (starts_word py.is_word t)
  status_at _ = none

  -- The search for `\b(4\d{2}|5\d{2})\b`: the flag says whether a word character stands before.
  unfoldable pub status_in : Bool → Text → Option ℕ
  status_in inside [] = none
  status_in inside (c ∷ t) =
      let rest = status_in (py.is_word c) t in
      if inside then rest else first_some (status_at (c ∷ t) ∷ rest ∷ [])

  unfoldable pub status_code : Fault → Text → Option ℕ
  unfolding status_in
  status_code exc blob = first_some (map valid_status exc.statuses ++ status_in false blob ∷ [])

  unfoldable pub compound_after : Text → Text → Option ℕ
  unfolding after strip
  compound_after blob anchor = elim (after anchor blob) [
    | none ↦ none
    | some tail ↦ py.compound (strip (take 40 tail))
  ]

  unfoldable pub parse_duration : Text → Option ℕ
  unfolding compound_after
  parse_duration blob = first_some (py.spelled blob ∷ map (compound_after blob) anchors)

  -- A header that is missing is the empty text, and one that is not a number may be a duration.
  abbrev pub header_wait : Text → Option ℕ
  header_wait [] = none
  header_wait (c ∷ raw) =
      first_some (py.to_float (c ∷ raw) ∷ parse_duration (py.lower (c ∷ raw)) ∷ [])

  unfoldable pub header_retry_after : Fault → Option ℕ
  unfolding parse_duration
  header_retry_after exc = elim exc.response [
    | none ↦ none
    | some r ↦
        first_some (
          header_wait r.retry_after
          ∷ header_wait r.reset_requests
          ∷ header_wait r.reset_tokens
          ∷ [])
  ]

  abbrev pub response_parts : Option Response → List Text
  response_parts none = []
  response_parts (some r) =
      filter_by is_nonempty (take 2000 r.text ∷ take 2000 r.content ∷ [])
      ++ (if is_nonempty r.retry_after then (codes "retry-after: " ++ r.retry_after) ∷ [] else [])

  abbrev pub cause_parts : Option Text → List Text
  cause_parts none = []
  cause_parts (some said) = said ∷ []

  -- `" | ".join(parts)`
  abbrev pub join : List Text → Text
  join [] = []
  join (p ∷ []) = p
  join (p ∷ q ∷ ps) = p ++ codes " | " ++ join (q ∷ ps)

  unfoldable pub blob_of : Fault → Text
  blob_of exc = py.lower (
      join (
        exc.said
          ∷ exc.type_name
          ∷ filter_by is_nonempty (exc.message ∷ exc.body ∷ exc.detail ∷ exc.reason ∷ [])
        ++ response_parts exc.response
        ++ cause_parts exc.cause))

  unfoldable pub detail_of : Fault → Text
  unfolding strip
  detail_of exc = or_text (take 300 (strip exc.said)) exc.type_name

  unfoldable pub classify : ℕ → Fault → Failure
  unfolding decide status_code parse_duration header_retry_after blob_of detail_of
  classify threshold exc =
      let blob = blob_of exc in
      let status = status_code exc blob in
      let retry_after = or_wait (header_retry_after exc) (parse_duration blob) in
      record {
        decision = decide threshold blob status retry_after;
        detail = detail_of exc;
        status_code = status;
        retry_after = retry_after;
      }
