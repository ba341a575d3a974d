-- ===== src/Llm/Quota.antt =====
-- The ledger of what each tier has spent and whether it may serve: `QuotaLedger` of
-- backend/app/infrastructure/llm/quota.py, with the `Decision` of failures.py and the fields of
-- `TierSpec` (providers.py) that it and the router read. Times are milliseconds since the epoch, the names of tiers
-- and lanes are strings that are only compared and stand here as numbers, and the reason of a bench is
-- a decision, or none for the empty string. The file that keeps the ledger is not modelled.
pub mod Bench
pub mod Cooldown
pub mod Reading
use gd_classroom.Prelude.{
  ℕ, suc, ◌+◌, ◌-◌, ◌*◌, ◌/◌, min, max, Bool, true, false, not, ◌&&◌, ◌||◌, Option, none, some,
  if◌then◌else◌, ltb, leb, ◌==◌, is_some, Dict, get, put, modify, ℤ, pos, negsuc,
}

pub data Decision : Type 0 where
  quota_spent misconfigured retry_later transient : Decision

pub data TierStatus : Type 0 where
  active ready throttled out_of_quota failing bad_config unavailable : TierStatus

pub record TierSpec : Type 0 where
  pub name : ℕ
  pub lane : ℕ
  pub daily_request_limit : Option ℕ
  pub daily_token_limit : Option ℕ
  -- In milliseconds.
  pub quota_day_utc_offset : ℤ
  pub available : Bool
  -- In milliseconds.
  pub hard_timeout : ℕ
  pub is_local : Bool

pub record TierState : Type 0 where
  pub quota_day : Option ℕ
  pub requests : ℕ
  pub tokens : ℕ
  pub prompt_tokens : ℕ
  pub completion_tokens : ℕ
  pub bench_until : ℕ
  pub bench_reason : Option Decision
  pub failure_streak : ℕ
  pub next_cooldown : ℕ
  pub last_throttle_at : ℕ
  pub last_success_at : ℕ

abbrev pub fresh_state : TierState
fresh_state = record {
  quota_day = none;
  requests = 0;
  tokens = 0;
  prompt_tokens = 0;
  completion_tokens = 0;
  bench_until = 0;
  bench_reason = none;
  failure_streak = 0;
  next_cooldown = 0;
  last_throttle_at = 0;
  last_success_at = 0;
}

-- The arguments of the constructor: `bench_after` is `transient_failures_before_bench`.
pub record Policy : Type 0 where
  pub transient_failures_before_bench : ℕ
  pub cooldown_base : ℕ
  pub cooldown_cap : ℕ
  pub misconfigured_bench : ℕ
  pub throttle_display : ℕ

pub record QuotaLedger : Type 0 where
  pub states : Dict TierState
  -- `_active`: the tier that served last, by lane.
  pub active : Dict ℕ

abbrev pub day_ms : ℕ
day_ms = 86400000

-- The clock in the tier's timezone, for times at least that far after the epoch.
abbrev pub local_of : ℤ → ℕ → ℕ
local_of (pos n) now = now + n
local_of (negsuc n) now = now - suc n

abbrev pub utc_of : ℤ → ℕ → ℕ
utc_of (pos n) here = here - n
utc_of (negsuc n) here = here + suc n

-- The date is its number of days since the epoch.
unfoldable pub day_key : TierSpec → ℕ → ℕ
day_key spec now = local_of spec.quota_day_utc_offset now / day_ms

unfoldable pub next_rollover : TierSpec → ℕ → ℕ
unfolding day_key
next_rollover spec now = utc_of spec.quota_day_utc_offset ((day_key spec now + 1) * day_ms)

abbrev pub is_day : ℕ → Option ℕ → Bool
is_day d none = false
is_day d (some e) = d == e

abbrev pub is_quota : Option Decision → Bool
is_quota (some Decision.quota_spent) = true
is_quota _ = false

-- `reason in (TRANSIENT, "")`
abbrev pub is_forgiven : Option Decision → Bool
is_forgiven none = true
is_forgiven (some Decision.transient) = true
is_forgiven _ = false

abbrev pub unbench : TierState → TierState
unbench s = record s { bench_until = 0; bench_reason = none }

-- The row, rolled over to today if the day has turned.
unfoldable pub rolled : TierSpec → ℕ → TierState → TierState
unfolding day_key
rolled spec now s =
    let today : TierState = record s {
      quota_day = some (day_key spec now);
      requests = 0;
      tokens = 0;
      prompt_tokens = 0;
      completion_tokens = 0;
    } in
    if is_day (day_key spec now) s.quota_day
    then s
    else if is_quota s.bench_reason
    then unbench today
    else today

abbrev pub over : Option ℕ → ℕ → Bool
over none n = false
over (some limit) n = leb limit n

abbrev pub budget_spent : TierSpec → TierState → Bool
budget_spent spec s =
    over spec.daily_request_limit s.requests || over spec.daily_token_limit s.tokens

abbrev pub bench_status : Option Decision → TierStatus
bench_status (some Decision.quota_spent) = TierStatus.out_of_quota
bench_status (some Decision.misconfigured) = TierStatus.bad_config
bench_status _ = TierStatus.failing

abbrev pub is_serving : TierStatus → Bool
is_serving TierStatus.active = true
is_serving TierStatus.ready = true
is_serving TierStatus.throttled = true
is_serving _ = false

abbrev pub row : TierSpec → QuotaLedger → TierState
row spec l = elim (get spec.name l.states) [ none ↦ fresh_state | some s ↦ s ]

-- A row that is read is created and rolled over.
abbrev pub update : (TierState → TierState) → TierSpec → ℕ → QuotaLedger → QuotaLedger
update f spec now l = record l {
  states = put spec.name (f (rolled spec now (row spec l))) l.states;
}

module _ (policy : Policy) where
  -- `status` of a row of today.
  unfoldable pub status_of : TierSpec → ℕ → Bool → TierState → TierStatus
  status_of spec now serves s =
      if not spec.available
      then TierStatus.unavailable
      else if ltb now s.bench_until
      then bench_status s.bench_reason
      else if budget_spent spec s
      then TierStatus.out_of_quota
      else if ltb (now - s.last_throttle_at) policy.throttle_display
      then TierStatus.throttled
      else if serves
      then TierStatus.active
      else TierStatus.ready

  unfoldable pub status : TierSpec → ℕ → QuotaLedger → TierStatus
  unfolding rolled status_of
  status spec now l =
      status_of spec now (is_day spec.name (get spec.lane l.active)) (rolled spec now (row spec l))

  -- `status` with what it does to the ledger: the row is created, and rolled over to today.
  unfoldable pub read_status : TierSpec → ℕ → QuotaLedger → QuotaLedger × TierStatus
  unfolding rolled status
  read_status spec now l = (update (λ s. s) spec now l, status spec now l)

  unfoldable pub eligible : TierSpec → ℕ → QuotaLedger → Bool
  unfolding status
  eligible spec now l = is_serving (status spec now l)

  -- The row after a failure, and until when it is benched.
  unfoldable pub failed : Decision → TierSpec → ℕ → TierState → TierState × Option ℕ
  unfolding next_rollover
  failed Decision.quota_spent spec now s = (
    record s { bench_until = next_rollover spec now; bench_reason = some Decision.quota_spent },
    some (next_rollover spec now),
  )
  failed Decision.misconfigured spec now s = (
    record s {
      bench_until = now + policy.misconfigured_bench;
      bench_reason = some Decision.misconfigured;
    },
    some (now + policy.misconfigured_bench),
  )
  failed Decision.retry_later spec now s = (record s { last_throttle_at = now }, none)
  failed Decision.transient spec now s =
      let streak = s.failure_streak + 1 in
      let cooldown =
        min policy.cooldown_cap
          (if s.next_cooldown == 0 then policy.cooldown_base else s.next_cooldown * 2) in
      if ltb streak (max 1 policy.transient_failures_before_bench)
      then (record s { failure_streak = streak }, none)
      else (
        record s {
          failure_streak = streak;
          next_cooldown = cooldown;
          bench_until = now + cooldown;
          bench_reason = some Decision.transient;
        },
        some (now + cooldown),
      )

  unfoldable pub note_failure : Decision → TierSpec → ℕ → QuotaLedger → QuotaLedger × Option ℕ
  unfolding failed rolled
  note_failure decision spec now l = (
    update (λ s. (failed decision spec now s).0) spec now l,
    (failed decision spec now (rolled spec now (row spec l))).1,
  )

unfoldable pub note_attempt : TierSpec → ℕ → QuotaLedger → QuotaLedger
unfolding rolled
note_attempt spec now l = update (λ s. record s { requests = s.requests + 1 }) spec now l

-- The counts of a provider, `max(0, …)`, as naturals.
unfoldable pub note_usage : ℕ → ℕ → TierSpec → ℕ → QuotaLedger → QuotaLedger
unfolding rolled
note_usage prompt completion spec now l =
    if prompt == 0 && completion == 0
    then l
    else update
        (λ s. record s {
          prompt_tokens = s.prompt_tokens + prompt;
          completion_tokens = s.completion_tokens + completion;
          tokens = s.tokens + (prompt + completion);
        })
        spec now l

abbrev pub succeeded : ℕ → TierState → TierState
succeeded now s =
    let well : TierState = record s {
      failure_streak = 0;
      next_cooldown = 0;
      last_success_at = now;
    } in
    if is_forgiven s.bench_reason then unbench well else well

unfoldable pub note_success : TierSpec → ℕ → QuotaLedger → QuotaLedger
unfolding rolled
note_success spec now l =
    let l' = update (succeeded now) spec now l in
    record l' { active = put spec.lane spec.name l'.active }

-- Both manual operations say whether there is such a row.
unfoldable pub clear_bench : ℕ → QuotaLedger → QuotaLedger × Bool
clear_bench tier l = (
  record l {
    states =
        modify tier (λ s. record (unbench s) { failure_streak = 0; next_cooldown = 0 }) l.states;
  },
  is_some (get tier l.states),
)

unfoldable pub reset_counters : ℕ → QuotaLedger → QuotaLedger × Bool
reset_counters tier l = (
  record l {
    states =
        modify tier
          (λ s. record s { requests = 0; tokens = 0; prompt_tokens = 0; completion_tokens = 0 })
          l.states;
  },
  is_some (get tier l.states),
)
