-- ===== src/Llm/Quota/Bench.antt =====
-- How long a tier that failed is out (backend/app/infrastructure/llm/quota.py).
use gd_classroom.Prelude.{
  ℕ, suc, ◌+◌, ◌-◌, ◌*◌, ◌/◌, ◌≤◌, ◌<◌, ◌≡◌, refl, sym, ap, ◌∙◌, inl, inr, Bool, true, false,
  Option, none, some, if◌then◌else◌, ltb, leb, ◌==◌, ==_refl, lt→ltb, leb→le, Bool-cases, get, put,
  get-put, ℤ, pos, negsuc, arith,
}
use gd_classroom.Llm.Quota.{
  Decision, TierStatus, TierSpec, TierState, Policy, QuotaLedger, day_ms, local_of, utc_of, day_key,
  next_rollover, is_day, is_quota, rolled, fresh_state, over, budget_spent, bench_status,
  is_serving, row, status_of, status, eligible, failed, note_failure,
}

-- The clock in the timezone of the tier has a date.
abbrev pub HasLocal : ℤ → ℕ → Type 0
HasLocal (pos n) now = Unit
HasLocal (negsuc n) now = suc n ≤ now

same_day :
    (o : ℤ) (now x : ℕ)
    → HasLocal o now
    → now ≤ x
    → x < utc_of o ((local_of o now / day_ms + 1) * day_ms)
    → local_of o x / day_ms ≡ local_of o now / day_ms
same_day (pos n) now x h le lt = omega (arith, le, lt)
same_day (negsuc n) now x h le lt = omega (arith, h, le, lt)

later_day :
    (o : ℤ) (now x : ℕ)
    → HasLocal o now
    → utc_of o ((local_of o now / day_ms + 1) * day_ms) ≤ x
    → local_of o now / day_ms + 1 ≤ local_of o x / day_ms
later_day (pos n) now x h le = omega (arith, le)
later_day (negsuc n) now x h le = omega (arith, h, le)

-- A limit that leaves room for a first request.
abbrev pub HasRoom : Option ℕ → Type 0
HasRoom none = Unit
HasRoom (some limit) = 0 < limit

over-zero : (o : Option ℕ) → HasRoom o → over o 0 ≡ false
over-zero none h = refl
over-zero (some limit) h = ground (arith, h)

pub rolled_today :
    (spec : TierSpec) (now : ℕ) (s : TierState)
    → is_day (day_key spec now) (rolled spec now s).quota_day ≡ true
unfolding rolled day_key
rolled_today spec now s = elim (Bool-cases (is_day (day_key spec now) s.quota_day)) [
  | inl e ↦ rw (e, e)
  | inr e ↦ elim (Bool-cases (is_quota s.bench_reason)) [
    | inl q ↦ rw (e, q, ==_refl (day_key spec now))
    | inr q ↦ rw (e, q, ==_refl (day_key spec now))
  ]
]

is_day-eq : (d : ℕ) (o : Option ℕ) → is_day d o ≡ true → o ≡ some d
is_day-eq d none h = cc
is_day-eq d (some e) h = let eq : d ≡ e = ground (arith, h) in ap some (sym eq)

-- On the day of the row, the row is as it is.
pub rolled_same :
    (spec : TierSpec) (x : ℕ) (s : TierState)
    → is_day (day_key spec x) s.quota_day ≡ true
    → rolled spec x s ≡ s
unfolding rolled
rolled_same spec x s e = rw e

-- On another day, a row that is out of quota is cleared.
rolled_cleared :
    (spec : TierSpec) (x : ℕ) (s : TierState)
    → is_day (day_key spec x) s.quota_day ≡ false
    → is_quota s.bench_reason ≡ true
    → let today = rolled spec x s in
      (today.bench_until ≡ 0) × (today.requests ≡ 0) × (today.tokens ≡ 0)
unfolding rolled
rolled_cleared spec x s e q = rw (e, q) (refl, refl, refl)

is_serving-if :
    (b c : Bool)
    → is_serving
        (if b then TierStatus.throttled else if c then TierStatus.active else TierStatus.ready)
      ≡ true
is_serving-if true c = refl
is_serving-if false true = refl
is_serving-if false false = refl

not_leb : (d e : ℕ) → leb d e ≡ false → e < d
not_leb d e h = ground (arith, h)

not_same : (d e : ℕ) → e + 1 ≤ d → (d == e) ≡ false
not_same d e h = ground (arith, h)

module _ (policy : Policy) where
  -- A row that is not benched and has its budget serves.
  status_of-serving :
      (spec : TierSpec) (now : ℕ) (serves : Bool) (s : TierState)
      → spec.available ≡ true
      → s.bench_until ≤ now
      → budget_spent spec s ≡ false
      → is_serving (status_of policy spec now serves s) ≡ true
  unfolding status_of
  status_of-serving spec now serves s up past left =
      let free : ltb now s.bench_until ≡ false = ground (arith, past) in
      rw (up, free, left)
        (is_serving-if (ltb (now - s.last_throttle_at) policy.throttle_display) serves)

  status_of-benched :
      (spec : TierSpec) (now : ℕ) (serves : Bool) (s : TierState)
      → spec.available ≡ true
      → now < s.bench_until
      → status_of policy spec now serves s ≡ bench_status s.bench_reason
  unfolding status_of
  status_of-benched spec now serves s up before = rw (up, lt→ltb now s.bench_until before)

  -- The row of a tier after a failure.
  pub row-note_failure :
      (d : Decision) (spec : TierSpec) (now : ℕ) (l : QuotaLedger)
      → row spec (note_failure policy d spec now l).0
        ≡ (failed policy d spec now (rolled spec now (row spec l))).0
  unfolding note_failure
  row-note_failure d spec now l =
      let s = (failed policy d spec now (rolled spec now (row spec l))).0 in
      let found : get spec.name (put spec.name s l.states) ≡ some s =
        get-put spec.name spec.name s l.states ∙ rw (==_refl spec.name) in
      ap (λ (o : Option TierState). elim o [ none ↦ fresh_state | some t ↦ t ]) found

  status-note_failure :
      (d : Decision) (spec : TierSpec) (now x : ℕ) (l : QuotaLedger)
      → status policy spec x (note_failure policy d spec now l).0
        ≡ status_of policy spec x
            (is_day spec.name (get spec.lane l.active))
            (rolled spec x (failed policy d spec now (rolled spec now (row spec l))).0)
  unfolding status note_failure
  status-note_failure d spec now x l =
      ap
        (λ s. status_of policy spec x (is_day spec.name (get spec.lane l.active)) (rolled spec x s))
        (row-note_failure d spec now l)

  -- A row of today with a spent quota, at a later time of the day and after it.
  spent_before :
      (spec : TierSpec) (now x : ℕ) (serves : Bool) (s : TierState)
      → spec.available ≡ true
      → HasLocal spec.quota_day_utc_offset now
      → now ≤ x
      → is_day (day_key spec now) s.quota_day ≡ true
      → x < next_rollover spec now
      → status_of policy spec x serves
          (rolled spec x (failed policy Decision.quota_spent spec now s).0)
        ≡ TierStatus.out_of_quota
  unfolding failed next_rollover day_key
  spent_before spec now x serves s up here le today lt =
      let r = (failed policy Decision.quota_spent spec now s).0 in
      let same : day_key spec x ≡ day_key spec now =
        same_day spec.quota_day_utc_offset now x here le lt in
      ap (status_of policy spec x serves)
        (rolled_same spec x r (ap (λ d. is_day d s.quota_day) same ∙ today))
      ∙ status_of-benched spec x serves r up lt

  spent_after :
      (spec : TierSpec) (now x : ℕ) (serves : Bool) (s : TierState)
      → spec.available ≡ true
      → HasRoom spec.daily_request_limit
      → HasRoom spec.daily_token_limit
      → HasLocal spec.quota_day_utc_offset now
      → is_day (day_key spec now) s.quota_day ≡ true
      → next_rollover spec now ≤ x
      → is_serving (
          status_of policy spec x serves
            (rolled spec x (failed policy Decision.quota_spent spec now s).0))
        ≡ true
  unfolding failed next_rollover day_key
  spent_after spec now x serves s up room tokens here today le =
      let r = (failed policy Decision.quota_spent spec now s).0 in
      let later : day_key spec now + 1 ≤ day_key spec x =
        later_day spec.quota_day_utc_offset now x here le in
      let other : is_day (day_key spec x) s.quota_day ≡ false =
        ap (is_day (day_key spec x)) (is_day-eq (day_key spec now) s.quota_day today)
        ∙ not_same (day_key spec x) (day_key spec now) later in
      let (free, requests, used) = rolled_cleared spec x r other refl in
      let start = rolled spec x r in
      let left : budget_spent spec start ≡ false = rw (
        requests,
        used,
        over-zero spec.daily_request_limit room,
        over-zero spec.daily_token_limit tokens,
      ) in
      status_of-serving spec x serves start up (omega (arith, free)) left

  -- A spent quota keeps an available tier out exactly until its day rolls over: at any time since the
  -- failure the tier is eligible just when the rollover has come. Its limits allow a first request,
  -- and its clock has a date at the time of the failure.
  pub quota_bench_lasts_the_day :
      (spec : TierSpec) (now x : ℕ) (l : QuotaLedger)
      → spec.available ≡ true
      → HasRoom spec.daily_request_limit
      → HasRoom spec.daily_token_limit
      → HasLocal spec.quota_day_utc_offset now
      → now ≤ x
      → eligible policy spec x (note_failure policy Decision.quota_spent spec now l).0
        ≡ leb (next_rollover spec now) x
  unfolding eligible
  quota_bench_lasts_the_day spec now x l up room tokens here le =
      let s = rolled spec now (row spec l) in
      let serves = is_day spec.name (get spec.lane l.active) in
      let today = rolled_today spec now (row spec l) in
      let same = status-note_failure Decision.quota_spent spec now x l in
      elim (Bool-cases (leb (next_rollover spec now) x)) [
        | inl t ↦
            ap is_serving same
            ∙ spent_after spec now x serves s up room tokens here today
                (leb→le (next_rollover spec now) x t)
            ∙ sym t
        | inr t ↦
            ap is_serving (
              same
              ∙ spent_before spec now x serves s up here le today
                  (not_leb (next_rollover spec now) x t))
            ∙ sym t
      ]
