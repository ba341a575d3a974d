-- ===== src/Llm/Router.antt =====
-- The walk down the chain: `ChainRouter` of backend/app/infrastructure/llm/router.py, and `Usage` of
-- providers.py. A provider is a function of the rung and the time at which it is called, so it may
-- answer differently each time; its answer says how long it took. Both clocks of the program are one
-- here, in milliseconds, and only the providers take time. A walk also lists the names of the rungs it
-- called, which the program does not keep. A cancelled call is not modelled.
pub mod Streams
pub mod Replies
pub mod Walks
pub mod Bounds
pub mod Voice
use gd_classroom.Prelude.{
  ℕ, suc, ◌+◌, ◌-◌, min, Bool, true, false, not, ◌&&◌, List, [], ◌∷◌, Option, none, some, length,
  if◌then◌else◌, ltb, ◌==◌, codes, Result, ok, err,
}
use gd_classroom.Llm.Quota.{
  Decision, TierStatus, TierSpec, Policy, QuotaLedger, row, is_serving, read_status, note_attempt,
  note_usage, note_success, note_failure,
}
use gd_classroom.Llm.Failures.{Python, Fault, classify}
use gd_classroom.Llm.Monitor.{
  Monitor, Detail, Successor, note_selected, note_skipped, note_exhausted, note_throttled,
  note_misconfigured, note_failing, note_chain_exhausted,
}

pub record Usage : Type 0 where
  pub prompt_tokens : ℕ
  pub completion_tokens : ℕ

-- How a call ends: with a value or an exception, after so long, and with the usage that the client has
-- filled in by then (or by the time the router gives up).
pub record Reply (A : Type 0) : Type 0 where
  pub outcome : Result Fault A
  pub elapsed : ℕ
  pub usage : Usage

-- The arguments of the constructor; `lane` is the monitor's view.
pub record Config : Type 0 where
  pub chain : List TierSpec
  pub policy : Policy
  pub lane : ℕ
  pub failover_budget : ℕ
  pub daily_threshold : ℕ

-- What the router shares with the other calls.
pub record Books : Type 0 where
  pub ledger : QuotaLedger
  pub monitor : Monitor

pub data Cause : Type 0 where
  every_benched : Cause
  all_failed : ℕ → Detail → Cause

pub record ChainExhausted : Type 0 where
  pub purpose : ℕ
  pub cause : Cause

pub record Walk (A : Type 0) : Type 0 where
  pub books : Books
  pub ended : ℕ
  pub calls : List ℕ
  -- The value and the name of its tier.
  pub result : Result ChainExhausted (A × ℕ)

-- The statuses that `_eligible` leaves out.
abbrev pub is_out : TierStatus → Bool
is_out TierStatus.unavailable = true
is_out TierStatus.out_of_quota = true
is_out TierStatus.bad_config = true
is_out TierStatus.failing = true
is_out _ = false

-- `_successor`, of the rungs after this one.
abbrev pub successor : List TierSpec → Successor
successor [] = Successor.last
successor (spec ∷ specs) = Successor.next spec.name

-- The exception of `asyncio.wait_for`.
abbrev pub timed_out : Fault
timed_out = record {
  said = [];
  type_name = codes "TimeoutError";
  message = [];
  body = [];
  detail = [];
  reason = [];
  statuses = [];
  response = none;
  cause = none;
}

-- `asyncio.wait_for(…, timeout)`: the exception after that long, or the outcome.
abbrev pub waited : {A : Type 0} → ℕ → Reply A → Result Fault A
waited timeout reply = if ltb timeout reply.elapsed then err timed_out else reply.outcome

unfoldable pub record_usage : TierSpec → Usage → ℕ → Books → Books
record_usage spec usage now b =
    if usage.prompt_tokens + usage.completion_tokens == 0 then b else record b {
      ledger = note_usage usage.prompt_tokens usage.completion_tokens spec now b.ledger;
    }

module _ (py : Python) (config : Config) where
  abbrev pub skip_rung : ℕ → ℕ → TierSpec → Detail → Books → Books
  skip_rung now purpose spec why b = record b {
    monitor = note_skipped config.lane now spec.name purpose why b.monitor;
  }

  -- The look at one rung in `_eligible`.
  unfoldable pub look : ℕ → ℕ → TierSpec → Books → Books
  look now purpose spec b =
      let (ledger, status) = read_status config.policy spec now b.ledger in
      let b' : Books = record b { ledger = ledger } in
      if is_out status then skip_rung now purpose spec (Detail.tier_status status) b' else b'

  -- `_eligible` of the rungs that are left.
  unfoldable pub eligible_rungs : ℕ → ℕ → List TierSpec → Books → Books × List TierSpec
  eligible_rungs now purpose [] b = (b, [])
  eligible_rungs now purpose (spec ∷ specs) b =
      let out = is_out (read_status config.policy spec now b.ledger).1 in
      let (b', rungs) = eligible_rungs now purpose specs (look now purpose spec b) in
      (b', if out then rungs else spec ∷ rungs)

  -- The rung that would serve right now, or none for "(none)", with the rows that the look rolled over.
  unfoldable pub next_up : ℕ → List TierSpec → QuotaLedger → QuotaLedger × Option ℕ
  next_up now [] l = (l, none)
  next_up now (spec ∷ specs) l =
      let (l', status) = read_status config.policy spec now l in
      elim (is_serving status) [ true ↦ (l', some spec.name) | false ↦ next_up now specs l' ]

  -- The monitor's part of `_handle_failure`; the streak is read when it is reported.
  abbrev pub tell : Decision → ℕ → ℕ → ℕ → Detail → Successor → Option ℕ → ℕ → Monitor → Monitor
  tell Decision.quota_spent now tier purpose detail successor clears_at streak =
      note_exhausted config.lane now tier purpose detail successor clears_at
  tell Decision.misconfigured now tier purpose detail successor clears_at streak =
      note_misconfigured config.lane now tier purpose detail successor clears_at
  tell Decision.retry_later now tier purpose detail successor clears_at streak =
      note_throttled config.lane now tier purpose detail successor
  tell Decision.transient now tier purpose detail successor clears_at streak =
      note_failing config.lane now tier purpose detail streak successor clears_at

  unfoldable pub handle_failure : TierSpec → Fault → ℕ → List TierSpec → ℕ → Books → Books × Detail
  handle_failure spec exc purpose rest now b =
      let failure = classify py config.daily_threshold exc in
      let (ledger, clears_at) = note_failure config.policy failure.decision spec now b.ledger in
      let streak = (row spec ledger).failure_streak in
      (
        record {
          ledger = ledger;
          monitor =
              tell failure.decision now spec.name purpose (Detail.said failure.detail)
                (successor rest) clears_at streak b.monitor;
        },
        Detail.failed spec.name failure.detail,
      )

  -- The rung served: the last lines of the loop.
  unfoldable pub handle_success : TierSpec → ℕ → ℕ → ℕ → Books → Books
  handle_success spec purpose failures now b = record {
    ledger = note_success spec now b.ledger;
    monitor = note_selected config.lane now spec.name purpose failures b.monitor;
  }

  unfoldable pub exhaust : ℕ → Detail → ℕ → Books → Books
  exhaust purpose detail now b = record b {
    monitor = note_chain_exhausted config.lane now purpose detail b.monitor;
  }

  -- Whether the hunt has cost too long for another hosted rung.
  unfoldable pub is_hunt_over : TierSpec → ℕ → ℕ → ℕ → Bool
  is_hunt_over spec failures started now =
      not spec.is_local && (not (failures == 0) && ltb config.failover_budget (now - started))

  module _ {A : Type 0} (call : TierSpec → ℕ → Reply A) (purpose : ℕ) where
    -- `attempt`, with the books as the exception or the value finds them.
    abbrev pub attempt_end : TierSpec → ℕ → ℕ
    attempt_end spec now = now + min spec.hard_timeout (call spec now).elapsed

    abbrev pub attempt : TierSpec → ℕ → Books → Books
    attempt spec now b =
        record_usage spec (call spec now).usage (attempt_end spec now)
          (record b { ledger = note_attempt spec now b.ledger })

    -- The loop of `_walk`: `total` is the number of rungs.
    unfoldable pub walk_rungs : ℕ → ℕ → ℕ → Detail → List TierSpec → ℕ → Books → Walk A
    unfolding is_hunt_over
    walk_rungs started total failures detail [] now b = record {
      books = exhaust purpose detail now b;
      ended = now;
      calls = [];
      result = err (record { purpose = purpose; cause = Cause.all_failed total detail });
    }
    walk_rungs started total failures detail (spec ∷ rest) now b =
        elim (is_hunt_over spec failures started now) [
          | true ↦
              walk_rungs started total failures detail rest now
                (skip_rung now purpose spec Detail.budget_spent b)
          | false ↦
              let ended = attempt_end spec now in
              let b' = attempt spec now b in
              elim (waited spec.hard_timeout (call spec now)) [
                | ok value ↦ record {
                  books = handle_success spec purpose failures ended b';
                  ended = ended;
                  calls = spec.name ∷ [];
                  result = ok (value, spec.name);
                }
                | err exc ↦
                    let (b'', why) = handle_failure spec exc purpose rest ended b' in
                    let walk = walk_rungs started total (suc failures) why rest ended b'' in
                    record walk { calls = spec.name ∷ walk.calls }
              ]
        ]

    -- `_walk`, of the rungs that are eligible.
    unfoldable pub walk_eligible : List TierSpec → ℕ → Books → Walk A
    walk_eligible [] now b = record {
      books = exhaust purpose Detail.no_eligible now b;
      ended = now;
      calls = [];
      result = err (record { purpose = purpose; cause = Cause.every_benched });
    }
    walk_eligible (spec ∷ specs) now b =
        walk_rungs now (length (spec ∷ specs)) 0 Detail.unreached (spec ∷ specs) now b

    unfoldable pub walk : ℕ → Books → Walk A
    walk now b =
        let (b', specs) = eligible_rungs now purpose config.chain b in walk_eligible specs now b'
