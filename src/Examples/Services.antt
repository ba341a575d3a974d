-- ===== src/Examples/Services.antt =====
-- An event bus (backend/app/modules/notification), a ledger of quotas
-- (backend/app/infrastructure/llm) and a mixer (backend/app/modules/voice) at which the theorems are
-- applied.
use gd_classroom.Prelude.{
  drop, ℕ, ◌≡◌, refl, Bool, true, false, Option, none, some, List, [], ◌∷◌, ◌++◌, filter_by, leb,
  ◌==◌, if◌then◌else◌, codes, pos, arith, not, ltb, ◌+◌, holds_id,
}
use gd_classroom.Notification.EventBus.{
  DomainEvent, Subscriber, EventBus, new_bus, listeners, offer, publish, publish_all, replay_since,
}
use gd_classroom.Notification.EventBus.Delivery.{Distinct, stamped, hears, no_silent_loss}
use gd_classroom.Notification.EventBus.Replay.{is_on, replay_is_complete}
use gd_classroom.Llm.Quota.{
  Decision, TierSpec, Policy, QuotaLedger, next_rollover, rolled, row, eligible, note_failure,
}
use gd_classroom.Llm.Quota.Bench.{quota_bench_lasts_the_day}
use gd_classroom.Llm.Quota.Cooldown.{fails, patience, cooldown_after, cooldown_doubles_to_the_cap}
use mathlib.Core.Option
use gd_classroom.Voice.Mixer.{
  Audioop, SessionMixer, silence, mixed, bytes_per_frame, clear_moderator, read_frame,
}
use gd_classroom.Voice.Mixer.Queue.{unheard, clear_moderator_keeps_unheard}
use gd_classroom.Voice.Mixer.Frames.{next_frame, newest, read_frame-unheard}
use gd_classroom.Examples.People.{alice}

abbrev event_on : ℕ → ℕ → DomainEvent ℕ
event_on topic payload = record { topic = topic; type = codes "e"; payload = payload; seq = 0 }

-- One subscriber, to the first topic.
abbrev listener : Subscriber ℕ
listener = record { topics = 1 ∷ []; queue = []; overrun = false }

abbrev bus : EventBus ℕ
bus = record (new_bus 200) {
  subs = (1, 0 ∷ []) ∷ [];
  subscribers = (0, listener) ∷ [];
  next_subscriber = 1;
}

abbrev news : List (DomainEvent ℕ)
news = event_on 1 10 ∷ event_on 2 20 ∷ event_on 1 30 ∷ []

listeners-Distinct :
    (b : Bool)
    → Distinct (elim (if◌then◌else◌ {A = Option (List ℕ)} b (some (0 ∷ [])) none) [
      | none ↦ []
      | some ks ↦ ks
    ])
listeners-Distinct true = (refl, tt)
listeners-Distinct false = tt

bus-Distinct : (t : ℕ) → Distinct (listeners t bus)
bus-Distinct t = listeners-Distinct (t == 1)

abbrev informed : Subscriber ℕ
informed = record listener {
  queue = record (event_on 1 10) { seq = 1 } ∷ record (event_on 1 30) { seq = 3 } ∷ [];
}

no_silent_loss_example : informed.queue ≡ [] ++ filter_by (hears 0 bus) (stamped 0 news)
unfolding publish_all publish offer
no_silent_loss_example = no_silent_loss 0 news bus listener informed bus-Distinct refl refl refl

replay_is_complete_example :
    replay_since (1 ∷ []) 0 (publish_all news bus) ≡ filter_by (is_on 1) (stamped 0 news)
replay_is_complete_example = replay_is_complete 1 news bus (omega arith) tt (omega arith)

abbrev tier : TierSpec
tier = record {
  name = 1;
  lane = 1;
  daily_request_limit = some 100;
  daily_token_limit = none;
  quota_day_utc_offset = pos 3600000;
  hard_timeout = 20000;
  is_local = false;
  available = true;
}

abbrev policy : Policy
policy = record {
  transient_failures_before_bench = 3;
  cooldown_base = 20000;
  cooldown_cap = 900000;
  misconfigured_bench = 1800000;
  throttle_display = 120000;
}

abbrev fresh_ledger : QuotaLedger
fresh_ledger = record { states = []; active = [] }

quota_bench_lasts_the_day_example :
    eligible policy tier 90000000
      (note_failure policy Decision.quota_spent tier 1000000 fresh_ledger).0
    ≡ leb (next_rollover tier 1000000) 90000000
quota_bench_lasts_the_day_example =
    quota_bench_lasts_the_day policy tier 1000000 90000000 fresh_ledger refl (omega arith) tt tt
      (omega arith)

-- The fourth failure in a row.
cooldown_doubles_to_the_cap_example :
    let before = fails policy (1000 ∷ 2000 ∷ 3000 ∷ []) tier fresh_ledger in
    let result = note_failure policy Decision.transient tier 30000 before in
    let benched = not (ltb 4 (patience policy)) in
    ((row tier result.0).next_cooldown ≡ cooldown_after policy 4)
    × ((row tier result.0).bench_until ≡ (
        if benched
        then 30000 + cooldown_after policy 4
        else (rolled tier 30000 (row tier before)).bench_until))
    × (result.1 ≡ (if benched then some (30000 + cooldown_after policy 4) else none))
cooldown_doubles_to_the_cap_example =
    cooldown_doubles_to_the_cap policy (1000 ∷ 2000 ∷ 3000 ∷ []) 30000 tier fresh_ledger
      (omega arith) (omega arith) refl refl

abbrev audioop : Audioop
audioop = record { ratecv = λ pcm from to. pcm; add = λ a b. a }

-- Alice has heard one byte of three, Bob two.
abbrev mixer : SessionMixer
mixer = record {
  moderator = 5 ∷ 6 ∷ 7 ∷ [];
  human = [];
  cursors =
      (1, record { moderator = 1; human = 0 }) ∷ (2, record { moderator = 2; human = 0 }) ∷ [];
  floor_holder = none;
}

read_frame-unheard_example :
    ((read_frame audioop alice mixer).0
      ≡ mixed audioop
          (next_frame (6 ∷ 7 ∷ []))
          (if holds_id alice none then silence else next_frame (newest [])))
    × (unheard 2 (read_frame audioop alice mixer).1
        ≡ (if 2 == 1 then Option.map (drop bytes_per_frame) (unheard 2 mixer) else unheard 2 mixer))
read_frame-unheard_example = read_frame-unheard audioop alice 2 mixer

clear_moderator_keeps_unheard_example : unheard 1 (clear_moderator mixer) ≡ unheard 1 mixer
clear_moderator_keeps_unheard_example =
    clear_moderator_keeps_unheard 1 (record { moderator = 1; human = 0 }) mixer refl refl
