-- ===== src/Llm/Router/Walks.antt =====
-- Which rungs a walk calls, and whom it serves (backend/app/infrastructure/llm/router.py).
use gd_classroom.Prelude.{
  ℕ, suc, ◌≡◌, refl, sym, ap, ◌∙◌, ◌⊎◌, inl, inr, Bool, true, false, if◌then◌else◌, List, [], ◌∷◌,
  map, Option, none, some, IsSublist, IsSublist-cons, sublist_trans, Bool-cases, ok, err,
  Result-cases,
}
use gd_classroom.Llm.Quota.{TierStatus, TierSpec, is_serving, read_status}
use gd_classroom.Llm.Failures.{Python, Fault}
use gd_classroom.Llm.Monitor.{Detail}
use gd_classroom.Llm.Router.{
  Config, Books, Reply, Walk, is_out, eligible_rungs, next_up, look, waited, is_hunt_over,
  walk_rungs, walk_eligible, walk, skip_rung, attempt_end, attempt, handle_failure, handle_success,
}

serving_or_out :
    (s : TierStatus)
    → ((is_serving s ≡ true) × (is_out s ≡ false)) ⊎ ((is_serving s ≡ false) × (is_out s ≡ true))
serving_or_out TierStatus.active = inl (refl, refl)
serving_or_out TierStatus.ready = inl (refl, refl)
serving_or_out TierStatus.throttled = inl (refl, refl)
serving_or_out TierStatus.out_of_quota = inr (refl, refl)
serving_or_out TierStatus.failing = inr (refl, refl)
serving_or_out TierStatus.bad_config = inr (refl, refl)
serving_or_out TierStatus.unavailable = inr (refl, refl)

abbrev pub first_name : List TierSpec → Option ℕ
first_name [] = none
first_name (spec ∷ specs) = some spec.name

abbrev names : List TierSpec → List ℕ
names specs = map (λ s. s.name) specs

names-IsSublist :
    (out : Bool) (spec : TierSpec) (rungs specs : List TierSpec)
    → IsSublist (names rungs) (names specs)
    → IsSublist (names (if out then rungs else spec ∷ rungs)) (names (spec ∷ specs))
names-IsSublist true spec rungs specs h = IsSublist-cons (names rungs) spec.name (names specs) h
names-IsSublist false spec rungs specs h = inl (refl, h)

module _ (py : Python) (config : Config) where
  look-ledger :
      (now purpose : ℕ) (spec : TierSpec) (b : Books)
      → (look py config now purpose spec b).ledger ≡ (read_status config.policy spec now b.ledger).0
  unfolding look
  look-ledger now purpose spec b =
      elim (Bool-cases (is_out (read_status config.policy spec now b.ledger).1)) [
        | inl e ↦ rw e refl
        | inr e ↦ rw e refl
      ]

  -- The status page tells the truth: the rung that it says would serve right now is the first one
  -- that a call of the same moment would try.
  pub next_up-eligible_rungs :
      (now purpose : ℕ) (specs : List TierSpec) (b : Books)
      → (next_up py config now specs b.ledger).1
        ≡ first_name (eligible_rungs py config now purpose specs b).1
  unfolding next_up eligible_rungs
  next_up-eligible_rungs now purpose [] b = refl
  next_up-eligible_rungs now purpose (spec ∷ specs) b =
      elim (serving_or_out (read_status config.policy spec now b.ledger).1) [
        | inl (e, f) ↦ rw (e, f, next_up) refl
        | inr (e, f) ↦
            rw (e, f, next_up)
              (ap (λ l. (next_up py config now specs l).1) (sym (look-ledger now purpose spec b))
                ∙ next_up-eligible_rungs now purpose specs (look py config now purpose spec b))
      ]

  pub eligible_rungs-IsSublist :
      (now purpose : ℕ) (specs : List TierSpec) (b : Books)
      → IsSublist (names (eligible_rungs py config now purpose specs b).1) (names specs)
  unfolding eligible_rungs
  eligible_rungs-IsSublist now purpose [] b = tt
  eligible_rungs-IsSublist now purpose (spec ∷ specs) b =
      names-IsSublist (is_out (read_status config.policy spec now b.ledger).1) spec _ specs
        (eligible_rungs-IsSublist now purpose specs (look py config now purpose spec b))

  module _ {A : Type 0} (call : TierSpec → ℕ → Reply A) (purpose : ℕ) where
    module _ (started total failures : ℕ) (detail : Detail) (spec : TierSpec) (rest : List TierSpec)
        (now : ℕ) (b : Books) where
      abbrev this : Walk A
      this = walk_rungs py config call purpose started total failures detail (spec ∷ rest) now b

      -- One step of the loop: the rung is skipped, or serves, or fails.
      pub walk_rungs-skip_rung :
          is_hunt_over py config spec failures started now ≡ true
          → this
            ≡ walk_rungs py config call purpose started total failures detail rest now
                (skip_rung py config now purpose spec Detail.budget_spent b)
      unfolding walk_rungs
      walk_rungs-skip_rung e = rw (e, walk_rungs) refl

      pub walk_rungs-ok :
          (value : A)
          → is_hunt_over py config spec failures started now ≡ false
          → waited spec.hard_timeout (call spec now) ≡ ok value
          → let ended = attempt_end py config call purpose spec now in
            this ≡ record {
              books =
                  handle_success py config spec purpose failures ended
                    (attempt py config call purpose spec now b);
              ended = ended;
              calls = spec.name ∷ [];
              result = ok (value, spec.name);
            }
      unfolding walk_rungs
      walk_rungs-ok value e f = rw (e, f, walk_rungs) refl

      pub walk_rungs-err :
          (exc : Fault)
          → is_hunt_over py config spec failures started now ≡ false
          → waited spec.hard_timeout (call spec now) ≡ err exc
          → let ended = attempt_end py config call purpose spec now in
            let (b', why) =
              handle_failure py config spec exc purpose rest ended
                (attempt py config call purpose spec now b) in
            let walk =
              walk_rungs py config call purpose started total (suc failures) why rest ended b' in
            this ≡ record walk { calls = spec.name ∷ walk.calls }
      unfolding walk_rungs
      walk_rungs-err exc e f = rw (e, f, walk_rungs) refl

    walk_rungs-IsSublist :
        (started total failures : ℕ) (detail : Detail) (specs : List TierSpec) (now : ℕ) (b : Books)
        → IsSublist
            (walk_rungs py config call purpose started total failures detail specs now b).calls
            (names specs)
    unfolding walk_rungs
    walk_rungs-IsSublist started total failures detail [] now b = tt
    walk_rungs-IsSublist started total failures detail (spec ∷ rest) now b =
        elim (Bool-cases (is_hunt_over py config spec failures started now)) [
          | inl e ↦ rw (walk_rungs-skip_rung started total failures detail spec rest now b e) (
              IsSublist-cons _ spec.name (names rest)
                (walk_rungs-IsSublist started total failures detail rest now _))
          | inr e ↦ elim (Result-cases (waited spec.hard_timeout (call spec now))) [
            | inl (v, f) ↦
                rw (walk_rungs-ok started total failures detail spec rest now b v e f)
                  (inl (refl, tt))
            | inr (x, f) ↦
                rw (walk_rungs-err started total failures detail spec rest now b x e f)
                  (inl (refl, walk_rungs-IsSublist started total (suc failures) _ rest _ _))
          ]
        ]

    walk_eligible-IsSublist :
        (specs : List TierSpec) (now : ℕ) (b : Books)
        → IsSublist (walk_eligible py config call purpose specs now b).calls (names specs)
    unfolding walk_eligible
    walk_eligible-IsSublist [] now b = tt
    walk_eligible-IsSublist (spec ∷ specs) now b =
        walk_rungs-IsSublist now _ 0 Detail.unreached (spec ∷ specs) now b

    -- The chain is the retry: however the providers answer, one call tries rungs of the chain in the
    -- chain's order, none of them twice.
    pub walk-IsSublist :
        (now : ℕ) (b : Books)
        → IsSublist (walk py config call purpose now b).calls (map (λ s. s.name) config.chain)
    unfolding walk
    walk-IsSublist now b =
        let (b', specs) = eligible_rungs py config now purpose config.chain b in
        sublist_trans (walk_eligible py config call purpose specs now b').calls (names specs)
          (names config.chain) (walk_eligible-IsSublist specs now b')
          (eligible_rungs-IsSublist now purpose config.chain b)
