-- ===== src/Llm/Failures/Wording.antt =====
-- What the wording of a throttle means for its tier (backend/app/infrastructure/llm/failures.py and
-- quota.py).
use gd_classroom.Prelude.{
  ℕ, ◌≡◌, refl, ap, ◌∙◌, true, false, Option, none, some, if◌then◌else◌, arith, Text,
}
use gd_classroom.Llm.Quota.{
  Decision, TierSpec, Policy, QuotaLedger, row, rolled, failed, note_failure,
}
use gd_classroom.Llm.Quota.Bench.{row-note_failure}
use gd_classroom.Llm.Failures.{
  Python, Fault, says, daily_wording, per_minute_wording, misconfigured_wording, is_status,
  at_least, looks_misconfigured, out_of_credit, is_rate_limit, decide, blob_of, status_code,
  classify,
}

one_status :
    (status : Option ℕ)
    → is_status 429 status ≡ true
    → (is_status 401 status ≡ false)
      × (is_status 403 status ≡ false)
      × (is_status 402 status ≡ false)
one_status none h = cc
one_status (some n) h = (ground (arith, h), ground (arith, h), ground (arith, h))

throttled :
    (threshold : ℕ) (blob : Text) (status wait : Option ℕ)
    → says per_minute_wording blob ≡ true
    → says daily_wording blob ≡ false
    → says misconfigured_wording blob ≡ false
    → is_status 429 status ≡ true
    → decide threshold blob status wait
      ≡ (if at_least threshold wait then Decision.quota_spent else Decision.retry_later)
unfolding decide looks_misconfigured out_of_credit is_rate_limit
throttled threshold blob status wait minute day key code =
    let (a, b, c) = one_status status code in ground (minute, day, key, code, a, b, c, arith)

module _ (py : Python) (threshold : ℕ) (exc : Fault) where
  -- A 429 whose text speaks of a limit per minute, of no limit per day and of no bad key, and which asks
  -- to wait for less than the threshold, never takes its tier out of rotation, even if it speaks of
  -- quota or credit too: no bench is announced, and the one of today stays as it was.
  pub throttle_never_benches :
      (policy : Policy) (spec : TierSpec) (now : ℕ) (l : QuotaLedger)
      → says per_minute_wording (blob_of py exc) ≡ true
      → says daily_wording (blob_of py exc) ≡ false
      → says misconfigured_wording (blob_of py exc) ≡ false
      → is_status 429 (status_code py exc (blob_of py exc)) ≡ true
      → at_least threshold (classify py threshold exc).retry_after ≡ false
      → let result = note_failure policy (classify py threshold exc).decision spec now l in
        (result.1 ≡ none)
        × ((row spec result.0).bench_until ≡ (rolled spec now (row spec l)).bench_until)
  unfolding classify note_failure failed
  throttle_never_benches policy spec now l minute day key code short =
      let wait = (classify py threshold exc).retry_after in
      let decision : (classify py threshold exc).decision ≡ Decision.retry_later =
        throttled threshold (blob_of py exc) (status_code py exc (blob_of py exc)) wait minute day
          key code
        ∙ rw short refl in
      (
        ap (λ d. (failed policy d spec now (rolled spec now (row spec l))).1) decision,
        ap (λ r. r.bench_until)
            (row-note_failure policy (classify py threshold exc).decision spec now l
              ∙ ap (λ d. (failed policy d spec now (rolled spec now (row spec l))).0) decision),
      )
