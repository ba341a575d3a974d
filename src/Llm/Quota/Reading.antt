-- ===== src/Llm/Quota/Reading.antt =====
-- What a look at the status of a tier does (backend/app/infrastructure/llm/quota.py).
use gd_classroom.Prelude.{ℕ, ◌≡◌, ap, ◌∙◌, Option, none, some, put, get, get-put, ==_refl}
use gd_classroom.Llm.Quota.{
  TierSpec, TierState, Policy, QuotaLedger, day_key, is_day, fresh_state, rolled, row, status,
  status_of, read_status,
}
use gd_classroom.Llm.Quota.Bench.{rolled_today, rolled_same}

-- What the rollover makes of a row depends on the date alone.
rolled-date :
    (spec : TierSpec) (now x : ℕ) (s : TierState)
    → day_key spec x ≡ day_key spec now
    → rolled spec now s ≡ rolled spec x s
unfolding rolled
rolled-date spec now x s e = rw e

rolled-rolled :
    (spec : TierSpec) (now x : ℕ) (s : TierState)
    → day_key spec x ≡ day_key spec now
    → rolled spec x (rolled spec now s) ≡ rolled spec x s
rolled-rolled spec now x s e =
    rolled_same spec x (rolled spec now s)
      (ap (λ d. is_day d (rolled spec now s).quota_day) e ∙ rolled_today spec now s)
    ∙ rolled-date spec now x s e

module _ (policy : Policy) where
  -- A look at the status of a tier writes its row, and no later look on the same day of the tier sees
  -- a difference.
  pub read_status_twice :
      (spec : TierSpec) (now x : ℕ) (l : QuotaLedger)
      → day_key spec x ≡ day_key spec now
      → (read_status policy spec x (read_status policy spec now l).0).1
        ≡ (read_status policy spec x l).1
  unfolding read_status status
  read_status_twice spec now x l e =
      let s = rolled spec now (row spec l) in
      let found : get spec.name (put spec.name s l.states) ≡ some s =
        get-put spec.name spec.name s l.states ∙ rw (==_refl spec.name) in
      let serves = is_day spec.name (get spec.lane l.active) in
      ap
        (λ (o : Option TierState).
          status_of policy spec x serves
            (rolled spec x (elim o [ none ↦ fresh_state | some t ↦ t ])))
        found
      ∙ ap (status_of policy spec x serves) (rolled-rolled spec now x (row spec l) e)
