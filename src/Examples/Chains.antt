-- ===== src/Examples/Chains.antt =====
-- A chain of two rungs (backend/app/infrastructure/llm) at which the theorems are applied.
use gd_classroom.Prelude.{
  ℕ, ◌+◌, ◌-◌, ◌≤◌, ◌≡◌, refl, inl, inr, arith, Bool, true, false, ◌&&◌, ◌||◌, Option, none, some,
  [], ◌∷◌, map, leb, is_space, is_within, if◌then◌else◌, Text, codes, strip, has_prefix, IsSublist,
  ok, err, is_ok, pos,
}
use gd_classroom.Llm.Quota.{
  TierSpec, row, note_failure, read_status, status, status_of, rolled, day_key,
}
use gd_classroom.Llm.Failures.{
  Python, Fault, blob_of, status_code, classify, says, status_in, header_retry_after,
  parse_duration, compound_after, after,
}
use gd_classroom.Llm.Failures.Wording.{throttle_never_benches}
use gd_classroom.Llm.Monitor.{Monitor}
use gd_classroom.Llm.Router.{
  Usage, Reply, Config, Books, timed_out, look, eligible_rungs, next_up, walk,
}
use gd_classroom.Llm.Router.Walks.{first_name, next_up-eligible_rungs, walk-IsSublist}
use gd_classroom.Llm.Router.Bounds.{local_time, walk-is_ok, walk-ended}
use gd_classroom.Llm.Router.Streams.{Feed, Raises, stream}
use gd_classroom.Llm.Router.Voice.{IsOneVoice, stream-IsOneVoice}
use gd_classroom.Llm.Router.Replies.{parse_json}
use gd_classroom.Llm.Router.Replies.Fences.{fenced, parse_json-fenced}

abbrev lower_ascii : ℕ → ℕ
lower_ascii c = if leb 65 c && leb c 90 then c + 32 else c

abbrev digit_of : ℕ → Option ℕ
digit_of c = if leb 48 c && leb c 57 then some (c - 48) else none

abbrev is_word_ascii : ℕ → Bool
is_word_ascii c = (leb 48 c && leb c 57) || (leb 65 c && leb c 90) || (leb 97 c && leb c 122)

-- No durations are read.
abbrev python : Python
python = record {
  lower = map lower_ascii;
  is_word = is_word_ascii;
  digit = digit_of;
  to_float = λ t. none;
  spelled = λ t. none;
  compound = λ t. none;
}

abbrev hosted : TierSpec
hosted = record {
  name = 1;
  lane = 1;
  daily_request_limit = some 100;
  daily_token_limit = none;
  quota_day_utc_offset = pos 3600000;
  available = true;
  hard_timeout = 20000;
  is_local = false;
}

abbrev scripted : TierSpec
scripted = record hosted {
  name = 2;
  daily_request_limit = none;
  hard_timeout = 5000;
  is_local = true;
}

abbrev config : Config
config = record {
  chain = hosted ∷ scripted ∷ [];
  policy = record {
    transient_failures_before_bench = 3;
    cooldown_base = 20000;
    cooldown_cap = 900000;
    misconfigured_bench = 1800000;
    throttle_display = 120000;
  };
  lane = 1;
  failover_budget = 12000;
  daily_threshold = 300000;
}

abbrev monitor : Monitor
monitor = record { events = []; down = 1 ∷ [] }

abbrev books : Books
books = record { ledger = record { states = []; active = [] }; monitor = monitor }

abbrev no_usage : Usage
no_usage = record { prompt_tokens = 0; completion_tokens = 0 }

-- The hosted rung stalls for half a minute, the scripted one answers in a millisecond.
abbrev stalls : TierSpec → ℕ → Reply Text
stalls spec now =
    if spec.is_local
    then record { outcome = ok (codes "go on"); elapsed = 1; usage = no_usage }
    else record { outcome = err timed_out; elapsed = 30000; usage = no_usage }

-- The hosted rung breaks off after one chunk.
abbrev breaks : TierSpec → ℕ → Feed Text
breaks spec now =
    if spec.is_local
    then record { pieces = []; ending = none; last_wait = 1; usage = no_usage }
    else record {
      pieces = record { chunk = codes "well"; wait = 10; held = 5 } ∷ [];
      ending = some timed_out;
      last_wait = 10;
      usage = no_usage;
    }

abbrev raises : Raises
raises = record { exceeded = λ spec. timed_out; no_content = λ spec. timed_out }

-- A quota per minute.
abbrev throttle : Fault
throttle = record timed_out {
  said = codes "quota exceeded for requests per minute";
  statuses = 429 ∷ [];
}

walk-IsSublist_example :
    IsSublist (walk python config stalls 7 1000 books).calls (map (λ s. s.name) config.chain)
walk-IsSublist_example = walk-IsSublist python config stalls 7 1000 books

next_up-eligible_rungs_example :
    (next_up python config 1000 config.chain books.ledger).1
    ≡ first_name (eligible_rungs python config 1000 7 config.chain books).1
next_up-eligible_rungs_example = next_up-eligible_rungs python config 1000 7 config.chain books

walk-is_ok_example : is_ok (walk python config stalls 7 1000 books).result ≡ true
unfolding eligible_rungs look read_status status status_of rolled day_key
walk-is_ok_example =
    walk-is_ok python config stalls 7 scripted 1000 books refl (λ time. refl) (inr (inl refl))

walk-ended_example :
    (walk python config stalls 7 1000 books).ended
    ≤ 1000 + (config.failover_budget + 20000 + local_time config.chain)
walk-ended_example =
    walk-ended python config stalls 7 20000 1000 books (omega arith, (omega arith, tt))

stream-IsOneVoice_example :
    IsOneVoice
      (stream python config raises breaks 7 1000 books).chunks
      (stream python config raises breaks 7 1000 books).raised
stream-IsOneVoice_example = stream-IsOneVoice python config raises breaks 7 1000 books

-- A parser that takes every text for an object, and a block without a label.
parse_json-fenced_example :
    parse_json some (λ t. true) (fenced [] (codes "{}")) ≡ parse_json some (λ t. true) (codes "{}")
unfolding is_space has_prefix strip
parse_json-fenced_example = parse_json-fenced some (λ t. true) [] 0x7b (codes "}") refl refl refl

throttle_never_benches_example :
    let scripted_row = rolled scripted 5000 (row scripted books.ledger) in
    let result =
      note_failure config.policy
        (classify python 300000 throttle).decision
        scripted
        5000
        books.ledger in
    (result.1 ≡ none) × ((row scripted result.0).bench_until ≡ scripted_row.bench_until)
unfolding says is_within has_prefix blob_of status_code status_in classify header_retry_after
    parse_duration compound_after after strip is_space
throttle_never_benches_example =
    throttle_never_benches python 300000 throttle config.policy scripted 5000 books.ledger refl refl
      refl refl refl
