-- ===== src/Llm/Monitor.antt =====
-- What the chain records: backend/app/infrastructure/llm/monitor.py. The views of `for_lane` share one
-- storage, which is here one `Monitor`; what a view adds is the lane, an argument of the operations.
-- Tiers, purposes and lanes are numbers that stand for strings, and the structured log is not modelled.
pub mod Recovery
use gd_classroom.Prelude.{
  ℕ, zero, suc, ◌-◌, Bool, true, false, not, Option, none, some, List, ◌∷◌, if◌then◌else◌, ◌==◌,
  any_of, filter_by, length, drop, append_bounded, Text,
}
use mathlib.Core.List.{reverse}
use gd_classroom.Llm.Quota.{TierStatus}

pub data Event : Type 0 where
  selected skipped exhausted throttled misconfigured failing recovered chain_exhausted : Event

-- The texts of `detail`: a status, the two fixed sentences, what a provider said, and the same with
-- the tier's name in front.
pub data Detail : Type 0 where
  blank no_eligible unreached budget_spent : Detail
  tier_status : TierStatus → Detail
  said : Text → Detail
  failed : ℕ → Text → Detail

-- `successor`: not given, "(none)", or the name of the next rung.
pub data Successor : Type 0 where
  unset last : Successor
  next : ℕ → Successor

pub data Extra : Type 0 where
  nothing : Extra
  after_failures streak : ℕ → Extra

pub record ChainEvent : Type 0 where
  pub at : ℕ
  pub kind : Event
  -- None for the empty string.
  pub tier : Option ℕ
  pub purpose : ℕ
  pub detail : Detail
  pub successor : Successor
  pub clears_at : Option ℕ
  pub lane : ℕ
  pub extra : Extra

pub record Monitor : Type 0 where
  pub events : List ChainEvent
  -- A set.
  pub down : List ℕ

-- `buffer_size`
abbrev pub buffer_size : ℕ
buffer_size = 200

abbrev pub plain_event : ℕ → ℕ → Event → Option ℕ → ℕ → Detail → ChainEvent
plain_event lane now kind tier purpose detail = record {
  at = now;
  kind = kind;
  tier = tier;
  purpose = purpose;
  detail = detail;
  successor = Successor.unset;
  clears_at = none;
  lane = lane;
  extra = Extra.nothing;
}

unfoldable pub append_event : ChainEvent → Monitor → Monitor
append_event event m = record m { events = append_bounded buffer_size event m.events }

abbrev pub is_down : ℕ → List ℕ → Bool
is_down tier down = any_of (tier ==◌) down

-- `_down.add` and `_down.discard`
abbrev pub add_down : ℕ → Monitor → Monitor
add_down tier m = if is_down tier m.down then m else record m { down = tier ∷ m.down }

abbrev pub discard_down : ℕ → Monitor → Monitor
discard_down tier m = record m { down = filter_by (λ other. not (tier == other)) m.down }

-- A moment that is none or zero is false.
abbrev pub is_moment : Option ℕ → Bool
is_moment none = false
is_moment (some zero) = false
is_moment (some (suc t)) = true

-- The lane of the view and the time stand first.
module _ (lane now : ℕ) where
  unfoldable pub served_after : ℕ → ℕ → ℕ → Monitor → Monitor
  unfolding append_event
  served_after tier purpose failures m =
      let event = record (plain_event lane now Event.selected (some tier) purpose Detail.blank) {
        extra = Extra.after_failures failures;
      } in
      if failures == 0 then m else append_event event m

  unfoldable pub back_up : ℕ → ℕ → Monitor → Monitor
  unfolding append_event
  back_up tier purpose m =
      let back = plain_event lane now Event.recovered (some tier) purpose Detail.blank in
      if is_down tier m.down then append_event back (discard_down tier m) else m

  unfoldable pub note_selected : ℕ → ℕ → ℕ → Monitor → Monitor
  unfolding served_after back_up
  note_selected tier purpose failures m =
      back_up tier purpose (served_after tier purpose failures m)

  unfoldable pub note_skipped : ℕ → ℕ → Detail → Monitor → Monitor
  unfolding append_event
  note_skipped tier purpose reason m =
      append_event (plain_event lane now Event.skipped (some tier) purpose reason) m

  unfoldable pub note_exhausted : ℕ → ℕ → Detail → Successor → Option ℕ → Monitor → Monitor
  unfolding append_event
  note_exhausted tier purpose detail successor clears_at m =
      append_event
        (record (plain_event lane now Event.exhausted (some tier) purpose detail) {
          successor = successor;
          clears_at = clears_at;
        })
        (add_down tier m)

  unfoldable pub note_throttled : ℕ → ℕ → Detail → Successor → Monitor → Monitor
  unfolding append_event
  note_throttled tier purpose detail successor m =
      append_event
        (record (plain_event lane now Event.throttled (some tier) purpose detail) {
          successor = successor;
        })
        m

  unfoldable pub note_misconfigured : ℕ → ℕ → Detail → Successor → Option ℕ → Monitor → Monitor
  unfolding append_event
  note_misconfigured tier purpose detail successor clears_at m =
      append_event
        (record (plain_event lane now Event.misconfigured (some tier) purpose detail) {
          successor = successor;
          clears_at = clears_at;
        })
        (add_down tier m)

  unfoldable pub note_failing : ℕ → ℕ → Detail → ℕ → Successor → Option ℕ → Monitor → Monitor
  unfolding append_event
  note_failing tier purpose detail failures successor clears_at m =
      append_event
        (record (plain_event lane now Event.failing (some tier) purpose detail) {
          successor = successor;
          clears_at = clears_at;
          extra = Extra.streak failures;
        })
        (if is_moment clears_at then add_down tier m else m)

  unfoldable pub note_chain_exhausted : ℕ → Detail → Monitor → Monitor
  unfolding append_event
  note_chain_exhausted purpose detail m =
      append_event (plain_event lane now Event.chain_exhausted none purpose detail) m

-- `recent`: the newest first, of one lane or of both; no limit of zero items is asked for.
unfoldable pub recent : ℕ → Option ℕ → Monitor → List ChainEvent
recent limit lane m =
    let events = filter_by (λ e. of_lane lane e.lane) m.events in
    reverse (drop (length events - limit) events)
  where
    of_lane : Option ℕ → ℕ → Bool
    of_lane none lane = true
    of_lane (some mine) lane = mine == lane
