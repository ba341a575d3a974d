-- ===== src/Llm/Router/Bounds.antt =====
-- How long a walk takes, and when it cannot fail (backend/app/infrastructure/llm/router.py).
use gd_classroom.Prelude.{
  ℕ, zero, suc, ◌+◌, ◌-◌, ◌≤◌, ◌≡◌, refl, inl, inr, arith, Bool, true, false, if◌then◌else◌, List,
  [], ◌∷◌, IsIn, Bool-cases, is_ok, Result-cases, All,
}
use gd_classroom.Llm.Quota.{TierSpec, read_status}
use gd_classroom.Llm.Failures.{Python}
use gd_classroom.Llm.Monitor.{Detail}
use gd_classroom.Llm.Router.{
  Config, Books, Reply, is_out, look, eligible_rungs, waited, is_hunt_over, walk_rungs,
  walk_eligible, walk, skip_rung, attempt_end, attempt, handle_failure,
}
use gd_classroom.Llm.Router.Walks.{walk_rungs-skip_rung, walk_rungs-ok, walk_rungs-err}

abbrev pub local_time_of : TierSpec → ℕ
local_time_of spec = if spec.is_local then spec.hard_timeout else 0

-- The timeouts of the local rungs, which no budget bounds.
abbrev pub local_time : List TierSpec → ℕ
local_time [] = 0
local_time (spec ∷ specs) = local_time_of spec + local_time specs

module _ (py : Python) (config : Config) where
  local_is_tried :
      (spec : TierSpec) (failures started now : ℕ)
      → spec.is_local ≡ true
      → is_hunt_over py config spec failures started now ≡ false
  unfolding is_hunt_over
  local_is_tried spec failures started now h = rw h refl

  -- Another hosted rung is tried only within the budget.
  hosted_in_time :
      (spec : TierSpec) (failures started now : ℕ)
      → spec.is_local ≡ false
      → is_hunt_over py config spec (suc failures) started now ≡ false
      → now - started ≤ config.failover_budget
  unfolding is_hunt_over
  hosted_in_time spec failures started now h e = let e' = rw h at e in ground arith

  begun_in_budget :
      (spec : TierSpec) (failures started now : ℕ)
      → (failures ≡ 0 → now ≡ started)
      → spec.is_local ≡ false
      → is_hunt_over py config spec failures started now ≡ false
      → now ≤ started + config.failover_budget
  begun_in_budget spec zero started now fresh h e = let same = fresh refl in omega arith
  begun_in_budget spec (suc n) started now fresh h e =
      omega (arith, hosted_in_time spec n started now h e)

  kept-local_time :
      (out : Bool) (spec : TierSpec) (rungs specs : List TierSpec)
      → local_time rungs ≤ local_time specs
      → local_time (if out then rungs else spec ∷ rungs) ≤ local_time (spec ∷ specs)
  kept-local_time true spec rungs specs h = omega arith
  kept-local_time false spec rungs specs h = omega arith

  kept-All :
      (T : ℕ) (out : Bool) (spec : TierSpec) (rungs : List TierSpec)
      → spec.hard_timeout ≤ T
      → All (λ s. s.hard_timeout ≤ T) rungs
      → All (λ s. s.hard_timeout ≤ T) (if out then rungs else spec ∷ rungs)
  kept-All T true spec rungs h hs = hs
  kept-All T false spec rungs h hs = (h, hs)

  eligible_rungs-local_time :
      (now purpose : ℕ) (specs : List TierSpec) (b : Books)
      → local_time (eligible_rungs py config now purpose specs b).1 ≤ local_time specs
  unfolding eligible_rungs
  eligible_rungs-local_time now purpose [] b = omega arith
  eligible_rungs-local_time now purpose (spec ∷ specs) b =
      let b' = look py config now purpose spec b in
      kept-local_time (is_out (read_status config.policy spec now b.ledger).1) spec
        (eligible_rungs py config now purpose specs b').1 specs
        (eligible_rungs-local_time now purpose specs b')

  eligible_rungs-All :
      (T now purpose : ℕ) (specs : List TierSpec) (b : Books)
      → All (λ s. s.hard_timeout ≤ T) specs
      → All (λ s. s.hard_timeout ≤ T) (eligible_rungs py config now purpose specs b).1
  unfolding eligible_rungs
  eligible_rungs-All T now purpose [] b h = tt
  eligible_rungs-All T now purpose (spec ∷ specs) b h =
      let b' = look py config now purpose spec b in
      kept-All T (is_out (read_status config.policy spec now b.ledger).1) spec
        (eligible_rungs py config now purpose specs b').1 h.0
        (eligible_rungs-All T now purpose specs b' h.1)

  module _ {A : Type 0} (call : TierSpec → ℕ → Reply A) (purpose : ℕ) where
    -- A local rung that answers within its timeout serves, if no rung before it does.
    walk_rungs-is_ok :
        (good : TierSpec) (started total failures : ℕ) (detail : Detail) (specs : List TierSpec)
        (now : ℕ) (b : Books)
        → good.is_local ≡ true
        → ((time : ℕ) → is_ok (waited good.hard_timeout (call good time)) ≡ true)
        → IsIn good specs
        → is_ok (walk_rungs py config call purpose started total failures detail specs now b).result
          ≡ true
    walk_rungs-is_ok good started total failures detail [] now b local answers here = absurd here
    walk_rungs-is_ok good started total failures detail (spec ∷ rest) now b local answers here =
        elim (Bool-cases (is_hunt_over py config spec failures started now)) [
          | inl e ↦
              rw
                (walk_rungs-skip_rung py config call purpose started total failures detail spec rest
                  now b e)
                (elim here [
                  | inl same ↦
                      let tried = local_is_tried good failures started now local in absurd cc
                  | inr later ↦
                      walk_rungs-is_ok good started total failures detail rest now _ local answers
                        later
                ])
          | inr e ↦ elim (Result-cases (waited spec.hard_timeout (call spec now))) [
            | inl (v, f) ↦
                rw
                  (walk_rungs-ok py config call purpose started total failures detail spec rest now
                    b v e f)
                  refl
            | inr (x, f) ↦
                rw
                  (walk_rungs-err py config call purpose started total failures detail spec rest now
                    b x e f)
                  (elim here [
                    | inl same ↦
                        let failed : is_ok (waited spec.hard_timeout (call spec now)) ≡ false =
                          rw f refl in
                        let good_answer = answers now in absurd cc
                    | inr later ↦
                        walk_rungs-is_ok good started total (suc failures) _ rest _ _ local answers
                          later
                  ])
          ]
        ]

    -- A rung that is tried ends within the bound, with its own time on top if it is local.
    attempt_end-le :
        (T X started failures : ℕ) (spec : TierSpec) (now : ℕ)
        → spec.hard_timeout ≤ T
        → (failures ≡ 0 → now ≡ started)
        → now ≤ started + X
        → config.failover_budget + T ≤ X
        → is_hunt_over py config spec failures started now ≡ false
        → attempt_end py config call purpose spec now ≤ started + (X + local_time_of spec)
    attempt_end-le T X started failures spec now short fresh past room e =
        elim (Bool-cases spec.is_local) [
          | inl local ↦ rw local (omega arith)
          | inr hosted ↦
              let soon = begun_in_budget spec failures started now fresh hosted e in
              rw hosted (omega arith)
        ]

    -- The invariant of the loop: what is left takes the time of the local rungs, on top of a bound that
    -- has room for one hosted rung begun within the budget.
    walk_rungs-ended :
        (T X started total failures : ℕ) (detail : Detail) (specs : List TierSpec) (now : ℕ)
        (b : Books)
        → All (λ s. s.hard_timeout ≤ T) specs
        → (failures ≡ 0 → now ≡ started)
        → now ≤ started + X
        → config.failover_budget + T ≤ X
        → (walk_rungs py config call purpose started total failures detail specs now b).ended
          ≤ started + (X + local_time specs)
    unfolding walk_rungs
    walk_rungs-ended T X started total failures detail [] now b short fresh past room = omega arith
    walk_rungs-ended T X started total failures detail (spec ∷ rest) now b short fresh past room =
        elim (Bool-cases (is_hunt_over py config spec failures started now)) [
          | inl e ↦
              let later =
                walk_rungs-ended T X started total failures detail rest now
                  (skip_rung py config now purpose spec Detail.budget_spent b) short.1 fresh past
                  room in
              rw
                (walk_rungs-skip_rung py config call purpose started total failures detail spec rest
                  now b e)
                (omega arith)
          | inr e ↦
              let soon = attempt_end-le T X started failures spec now short.0 fresh past room e in
              elim (Result-cases (waited spec.hard_timeout (call spec now))) [
                | inl (v, f) ↦
                    rw
                      (walk_rungs-ok py config call purpose started total failures detail spec rest
                        now b v e f)
                      (omega arith)
                | inr (x, f) ↦
                    let ended = attempt_end py config call purpose spec now in
                    let (b', why) =
                      handle_failure py config spec x purpose rest ended
                        (attempt py config call purpose spec now b) in
                    let later =
                      walk_rungs-ended T (X + local_time_of spec) started total (suc failures) why
                        rest ended b' short.1 (λ absurdity. absurd (omega arith)) soon
                        (omega arith) in
                    rw
                      (walk_rungs-err py config call purpose started total failures detail spec rest
                        now b x e f)
                      (omega arith)
              ]
        ]

    walk_eligible-is_ok :
        (good : TierSpec) (specs : List TierSpec) (now : ℕ) (b : Books)
        → good.is_local ≡ true
        → ((time : ℕ) → is_ok (waited good.hard_timeout (call good time)) ≡ true)
        → IsIn good specs
        → is_ok (walk_eligible py config call purpose specs now b).result ≡ true
    unfolding walk_eligible
    walk_eligible-is_ok good [] now b local answers here = absurd here
    walk_eligible-is_ok good (spec ∷ specs) now b local answers here =
        walk_rungs-is_ok good now _ 0 Detail.unreached (spec ∷ specs) now b local answers here

    -- The chain must end on a local rung: where an eligible rung is local and answers within its
    -- timeout, the call has an answer, whatever the other providers do and however long they take.
    pub walk-is_ok :
        (good : TierSpec) (now : ℕ) (b : Books)
        → good.is_local ≡ true
        → ((time : ℕ) → is_ok (waited good.hard_timeout (call good time)) ≡ true)
        → IsIn good (eligible_rungs py config now purpose config.chain b).1
        → is_ok (walk py config call purpose now b).result ≡ true
    unfolding walk
    walk-is_ok good now b local answers here =
        let (b', specs) = eligible_rungs py config now purpose config.chain b in
        walk_eligible-is_ok good specs now b' local answers here

    walk_eligible-ended :
        (T : ℕ) (specs : List TierSpec) (now : ℕ) (b : Books)
        → All (λ s. s.hard_timeout ≤ T) specs
        → (walk_eligible py config call purpose specs now b).ended
          ≤ now + (config.failover_budget + T + local_time specs)
    unfolding walk_eligible
    walk_eligible-ended T [] now b h = omega arith
    walk_eligible-ended T (spec ∷ specs) now b h =
        walk_rungs-ended T (config.failover_budget + T) now _ 0 Detail.unreached (spec ∷ specs) now
          b h (λ _. refl) (omega arith) (omega arith)

    -- The person who waits: a call takes no longer than the failover budget, one timeout of the chain
    -- (`T` bounds them all) and the timeouts of the local rungs, however many hosted rungs stall.
    pub walk-ended :
        (T now : ℕ) (b : Books)
        → All (λ s. s.hard_timeout ≤ T) config.chain
        → (walk py config call purpose now b).ended
          ≤ now + (config.failover_budget + T + local_time config.chain)
    unfolding walk
    walk-ended T now b h =
        let (b', specs) = eligible_rungs py config now purpose config.chain b in
        let ended =
          walk_eligible-ended T specs now b' (eligible_rungs-All T now purpose config.chain b h) in
        let fewer = eligible_rungs-local_time now purpose config.chain b in omega arith
