-- ===== src/Llm/Quota/Cooldown.antt =====
-- The cooldown of a tier that fails again and again (backend/app/infrastructure/llm/quota.py).
use gd_classroom.Prelude.{
  ℕ, zero, suc, ◌+◌, ◌-◌, ◌*◌, ◌<◌, ◌≡◌, refl, ap, ◌∙◌, inl, inr, Bool, true, false, not, none,
  some, min, max, List, [], ◌∷◌, if◌then◌else◌, ltb, ◌==◌, length, Bool-cases, arith,
}
use gd_classroom.Llm.Quota.{
  Decision, TierSpec, TierState, Policy, QuotaLedger, day_key, is_day, is_quota, rolled, row,
  failed, note_failure,
}
use gd_classroom.Llm.Quota.Bench.{row-note_failure}

unfoldable pub doubled : ℕ → ℕ → ℕ
doubled zero x = x
doubled (suc k) x = doubled k x * 2

doubled-pos : (k x : ℕ) → 0 < x → 0 < doubled k x
unfolding doubled
doubled-pos zero x h = h
doubled-pos (suc k) x h = omega (arith, doubled-pos k x h)

min_pos : (c y : ℕ) → 0 < c → 0 < y → (min c y == 0) ≡ false
min_pos c y h k = ground (arith, h, k)

min_twice : (c y : ℕ) → min c (min c y * 2) ≡ min c (y * 2)
min_twice c y = omega arith

module _ (policy : Policy) where
  -- Transient failures of one tier, at these times.
  abbrev pub fails : List ℕ → TierSpec → QuotaLedger → QuotaLedger
  fails [] spec l = l
  fails (now ∷ ts) spec l = fails ts spec (note_failure policy Decision.transient spec now l).0

  abbrev pub patience : ℕ
  patience = max 1 policy.transient_failures_before_bench

  -- The cooldown after `n` failures in a row: none while they are forgiven, then the base, doubled
  -- with every further failure up to the cap.
  abbrev pub cooldown_after : ℕ → ℕ
  cooldown_after n =
      if ltb n patience
      then 0
      else min policy.cooldown_cap (doubled (n - patience) policy.cooldown_base)

  rolled_streak :
      (spec : TierSpec) (now : ℕ) (s : TierState)
      → ((rolled spec now s).failure_streak ≡ s.failure_streak)
        × ((rolled spec now s).next_cooldown ≡ s.next_cooldown)
  unfolding rolled
  rolled_streak spec now s = elim (Bool-cases (is_day (day_key spec now) s.quota_day)) [
    | inl e ↦ rw e (refl, refl)
    | inr e ↦ elim (Bool-cases (is_quota s.bench_reason)) [
      | inl q ↦ rw (e, q) (refl, refl)
      | inr q ↦ rw (e, q) (refl, refl)
    ]
  ]

  -- The next cooldown, from the streak and the cooldown before.
  abbrev grown : ℕ → ℕ → ℕ
  grown streak cooldown =
      if ltb (streak + 1) patience
      then cooldown
      else min policy.cooldown_cap (if cooldown == 0 then policy.cooldown_base else cooldown * 2)

  cooldown_step :
      (n : ℕ)
      → 0 < policy.cooldown_base
      → 0 < policy.cooldown_cap
      → grown n (cooldown_after n) ≡ cooldown_after (n + 1)
  unfolding doubled
  cooldown_step n base cap = elim (Bool-cases (ltb (n + 1) patience)) [
    | inl t ↦ let before : ltb n patience ≡ true = ground (arith, t) in rw (t, before)
    | inr t ↦ elim (Bool-cases (ltb n patience)) [
      | inl u ↦ let none_over : n + 1 - patience ≡ 0 = ground (arith, t, u) in rw (t, u, none_over)
      | inr u ↦
          let one_more : n + 1 - patience ≡ suc (n - patience) = ground (arith, u) in
          let y = doubled (n - patience) policy.cooldown_base in
          rw
            (
              t,
              u,
              one_more,
              min_pos policy.cooldown_cap y cap
                  (doubled-pos (n - patience) policy.cooldown_base base),
            )
            (min_twice policy.cooldown_cap y)
    ]
  ]

  -- Benched at all, and until when.
  abbrev is_benched : ℕ → Bool
  is_benched n = not (ltb n patience)

  failed-parts :
      (spec : TierSpec) (now : ℕ) (s : TierState)
      → let result = failed policy Decision.transient spec now s in
        let cooldown = grown s.failure_streak s.next_cooldown in
        (result.0.failure_streak ≡ s.failure_streak + 1)
        × (result.0.next_cooldown ≡ cooldown)
        × (result.0.bench_until
            ≡ (if is_benched (s.failure_streak + 1) then now + cooldown else s.bench_until))
        × (result.1 ≡ (if is_benched (s.failure_streak + 1) then some (now + cooldown) else none))
  unfolding failed
  failed-parts spec now s = elim (Bool-cases (ltb (s.failure_streak + 1) patience)) [
    | inl t ↦ rw t (refl, refl, refl, refl)
    | inr t ↦ rw t (refl, refl, refl, refl)
  ]

  -- What the next failure does to a tier that has failed `n` times in a row.
  next_failure :
      (now n : ℕ) (spec : TierSpec) (l : QuotaLedger)
      → 0 < policy.cooldown_base
      → 0 < policy.cooldown_cap
      → (row spec l).failure_streak ≡ n
      → (row spec l).next_cooldown ≡ cooldown_after n
      → let result = note_failure policy Decision.transient spec now l in
        ((row spec result.0).failure_streak ≡ n + 1)
        × ((row spec result.0).next_cooldown ≡ cooldown_after (n + 1))
        × ((row spec result.0).bench_until ≡ (
            if is_benched (n + 1)
            then now + cooldown_after (n + 1)
            else (rolled spec now (row spec l)).bench_until))
        × (result.1 ≡ (if is_benched (n + 1) then some (now + cooldown_after (n + 1)) else none))
  unfolding note_failure
  next_failure now n spec l base cap e f =
      let s = rolled spec now (row spec l) in
      let (streak, cooldown) = rolled_streak spec now (row spec l) in
      let (more, longer, until, told) = failed-parts spec now s in
      let found = row-note_failure policy Decision.transient spec now l in
      let counted : s.failure_streak ≡ n = streak ∙ e in
      let grew : grown s.failure_streak s.next_cooldown ≡ cooldown_after (n + 1) =
        ap (λ k. grown k s.next_cooldown) counted
        ∙ ap (grown n) (cooldown ∙ f)
        ∙ cooldown_step n base cap in
      (
        ap (λ r. r.failure_streak) found ∙ more ∙ ap (λ k. k + 1) counted,
        ap (λ r. r.next_cooldown) found ∙ longer ∙ grew,
        ap (λ r. r.bench_until) found
            ∙ until
            ∙ ap
                (λ k.
                  if is_benched (k + 1)
                  then now + grown s.failure_streak s.next_cooldown
                  else s.bench_until)
                counted
            ∙ ap (λ k. if is_benched (n + 1) then now + k else s.bench_until) grew,
        told
            ∙ ap
                (λ k.
                  if is_benched (k + 1)
                  then some (now + grown s.failure_streak s.next_cooldown)
                  else none)
                counted
            ∙ ap (λ k. if is_benched (n + 1) then some (now + k) else none) grew,
      )

  fails-row :
      (ts : List ℕ) (n : ℕ) (spec : TierSpec) (l : QuotaLedger)
      → 0 < policy.cooldown_base
      → 0 < policy.cooldown_cap
      → (row spec l).failure_streak ≡ n
      → (row spec l).next_cooldown ≡ cooldown_after n
      → ((row spec (fails ts spec l)).failure_streak ≡ n + length ts)
        × ((row spec (fails ts spec l)).next_cooldown ≡ cooldown_after (n + length ts))
  fails-row [] n spec l base cap e f =
      let same : n ≡ n + 0 = omega arith in (e ∙ same, f ∙ ap cooldown_after same)
  fails-row (now ∷ ts) n spec l base cap e f =
      let l' = (note_failure policy Decision.transient spec now l).0 in
      let (counted, grew, _, _) = next_failure now n spec l base cap e f in
      let shift : n + 1 + length ts ≡ n + suc (length ts) = omega arith in
      let (streak, cooldown) = fails-row ts (n + 1) spec l' base cap counted grew in
      (streak ∙ shift, cooldown ∙ ap cooldown_after shift)

  -- After transient failures in a row, at any times and across days, from a row without a streak, one
  -- more failure benches the tier if more failed than are forgiven, until the cooldown is over from that
  -- moment on, and says so; otherwise it leaves the bench as it was today. The cooldown is the base,
  -- doubled once for each failure past those forgiven, and never more than the cap. The base and the
  -- cap are positive.
  pub cooldown_doubles_to_the_cap :
      (ts : List ℕ) (now : ℕ) (spec : TierSpec) (l : QuotaLedger)
      → 0 < policy.cooldown_base
      → 0 < policy.cooldown_cap
      → (row spec l).failure_streak ≡ 0
      → (row spec l).next_cooldown ≡ 0
      → let before = fails ts spec l in
        let result = note_failure policy Decision.transient spec now before in
        let n = length ts + 1 in
        ((row spec result.0).next_cooldown ≡ cooldown_after n)
        × ((row spec result.0).bench_until ≡ (
            if not (ltb n patience)
            then now + cooldown_after n
            else (rolled spec now (row spec before)).bench_until))
        × (result.1 ≡ (if not (ltb n patience) then some (now + cooldown_after n) else none))
  cooldown_doubles_to_the_cap ts now spec l base most e f =
      let start : 0 ≡ cooldown_after 0 =
        let below : ltb 0 patience ≡ true = ground arith in rw below in
      let (streak, cooldown) = fails-row ts 0 spec l base most e (f ∙ start) in
      let plain : 0 + length ts ≡ length ts = omega arith in
      let (_, longer, until, told) =
        next_failure now (length ts) spec (fails ts spec l) base most (streak ∙ plain)
          (cooldown ∙ ap cooldown_after plain) in
      (longer, until, told)
