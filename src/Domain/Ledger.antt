-- ===== src/Domain/Ledger.antt =====
-- The speaking-time ledger and the choice of the next speaker: backend/app/domain/ledger.py.
-- A `SpeakingTimeLedger` has one field, its dict of tallies, and is modelled by that dict.
pub mod Fairness
pub mod Accounting
use gd_classroom.Prelude.{
  ℕ, ◌+◌, ◌-◌, ◌/◌, min, max, Bool, true, not, ◌&&◌, ◌||◌, Option, none, some, List, [], ◌∷◌, map,
  ltb, leb, ◌==◌, if◌then◌else◌, Dict, set_default, modify, values, filter_by, is_nonempty, all_of,
  length, Text, text_lt, Uuid, holds_id, ℤ, pos_part, least, sorted,
}

pub record ParticipantTally : Type 0 where
  pub user_id : Uuid
  pub display_name : Text
  pub spoken_ms : ℕ
  pub turns_taken : ℕ
  pub follow_ups_received : ℕ
  pub connected : Bool

abbrev pub spoken_seconds : ParticipantTally → ℕ
spoken_seconds t = t.spoken_ms / 1000

abbrev pub Tallies : Type 0
Tallies = Dict ParticipantTally

-- `ParticipantTally(user_id, display_name)` with the defaults of its fields.
abbrev pub fresh_tally : Uuid → Text → ParticipantTally
fresh_tally u name = record {
  user_id = u;
  display_name = name;
  spoken_ms = 0;
  turns_taken = 0;
  follow_ups_received = 0;
  connected = true;
}

unfoldable pub register : Uuid → Text → Tallies → Tallies
register u name = set_default u.value (fresh_tally u name)

unfoldable pub add_speech : Uuid → ℤ → Tallies → Tallies
add_speech u duration_ms = modify u.value λ t. record t {
  spoken_ms = t.spoken_ms + pos_part duration_ms;
  turns_taken = t.turns_taken + 1;
}

unfoldable pub add_follow_up : Uuid → Tallies → Tallies
add_follow_up u = modify u.value λ t. record t { follow_ups_received = t.follow_ups_received + 1 }

unfoldable pub set_connected : Uuid → Bool → Tallies → Tallies
set_connected u connected = modify u.value λ t. record t { connected = connected }

unfoldable pub eligible : Tallies → List ParticipantTally
eligible d = filter_by (λ t. t.connected) (values d)

abbrev pub sum_ms : List ParticipantTally → ℕ
sum_ms [] = 0
sum_ms (t ∷ ts) = t.spoken_ms + sum_ms ts

unfoldable pub total_ms : Tallies → ℕ
total_ms d = sum_ms (values d)

-- `min(xs)` and `max(xs)` of a list that is not empty.
abbrev pub min_of : ℕ → List ℕ → ℕ
min_of x [] = x
min_of x (y ∷ ys) = min x (min_of y ys)

abbrev pub max_of : ℕ → List ℕ → ℕ
max_of x [] = x
max_of x (y ∷ ys) = max x (max_of y ys)

-- `min(xs, default=0)`
abbrev pub min_or_zero : List ℕ → ℕ
min_or_zero [] = 0
min_or_zero (x ∷ xs) = min_of x xs

unfoldable pub min_turns : Tallies → ℕ
unfolding eligible
min_turns d = min_or_zero (map (λ t. t.turns_taken) (eligible d))

abbrev pub spread : List ℕ → ℕ
spread [] = 0
spread (x ∷ xs) = max_of x xs - min_of x xs

unfoldable pub fairness_spread_ms : Tallies → ℕ
unfolding eligible
fairness_spread_ms d =
    if ltb (length (eligible d)) 2 then 0 else spread (map (λ t. t.spoken_ms) (eligible d))

unfoldable pub everyone_has_spoken : ℕ → Tallies → Bool
unfolding eligible
everyone_has_spoken minimum_turns d =
    is_nonempty (eligible d) && all_of (λ t. leb minimum_turns t.turns_taken) (eligible d)

-- One row of the payload of `speaking_time.updated`.
pub record SpeakingTime : Type 0 where
  pub participant_id : ℕ
  pub display_name : Text
  pub seconds : ℕ
  pub turns : ℕ
  pub connected : Bool

abbrev pub speaking_time : ParticipantTally → SpeakingTime
speaking_time t = record {
  participant_id = t.user_id.value;
  display_name = t.display_name;
  seconds = spoken_seconds t;
  turns = t.turns_taken;
  connected = t.connected;
}

unfoldable pub snapshot : Tallies → List SpeakingTime
unfolding sorted text_lt
snapshot d = map speaking_time (sorted (λ a b. text_lt a.display_name b.display_name) (values d))

-- `(t.spoken_ms, t.turns_taken, t.display_name) < (u.spoken_ms, …)`, as Python compares tuples.
unfoldable pub key_lt : ParticipantTally → ParticipantTally → Bool
unfolding text_lt
key_lt t u =
    ltb t.spoken_ms u.spoken_ms
    || (t.spoken_ms == u.spoken_ms
        && (ltb t.turns_taken u.turns_taken
            || (t.turns_taken == u.turns_taken && text_lt t.display_name u.display_name)))

-- `min(candidates, key=…)`, which is asked of a list that is not empty.
abbrev pub pick : List ParticipantTally → Option Uuid
pick [] = none
pick (t ∷ ts) = some (least key_lt t ts).user_id

unfoldable pub others : Option Uuid → Tallies → List ParticipantTally
unfolding eligible
others last_speaker d = filter_by (λ t. not (holds_id t.user_id last_speaker)) (eligible d)

unfoldable pub select_next_speaker : Tallies → Option Uuid → Option Uuid
unfolding eligible others least key_lt
select_next_speaker d last_speaker =
    if is_nonempty (others last_speaker d) then pick (others last_speaker d) else pick (eligible d)
