-- ===== src/Moderation/Orchestrator.antt =====
-- The registry of live sessions: `AIOrchestratorService` of backend/app/modules/moderation/orchestrator.py.
-- The code between two `await`s is one function. A session is known by the number of its id. What a
-- runner does by itself, the audio plane and the log are not part of the registry.
pub mod Registry
pub mod Capacity
use gd_classroom.Prelude.{
  ℕ, Bool, true, false, Option, none, some, List, [], ◌∷◌, ◌++◌, ltb, if◌then◌else◌, ◌==◌, length,
  is_some, is_nonempty, any_of, Text, Uuid, Dict, get, put, modify, remove, Result, ok, err,
}
use gd_classroom.Domain.Enums.{EndReason, SessionStatus}
use gd_classroom.Domain.Session.{DiscussionSession}
use gd_classroom.Moderation.Commands.{Command}
use gd_classroom.Moderation.State.{Runner, Write, new_runner, submit}

-- The sessions whose load is awaited hold their lock.
pub record Orchestrator : Type 0 where
  pub live : Dict Runner
  pub loading : List ℕ
  pub writes : List (ℕ × Write)

abbrev pub max_live_sessions : ℕ
max_live_sessions = 25

-- Where a call of `ensure` stands at its first `await`.
pub data Ensured : Type 0 where
  present waits loads at_capacity : Ensured

pub data Refusal : Type 0 where
  not_found conflict full : Refusal

abbrev pub is_live : ℕ → Orchestrator → Bool
is_live id o = is_some (get id o.live)

abbrev pub is_loading : ℕ → Orchestrator → Bool
is_loading id o = any_of (id ==◌) o.loading

-- `ensure` as far as the load. Whoever waits for the lock asks again once it is free.
unfoldable pub admit : ℕ → Orchestrator → Ensured
admit id o =
    if is_live id o
    then Ensured.present
    else if is_loading id o
    then Ensured.waits
    else if ltb (length o.live) max_live_sessions
    then Ensured.loads
    else Ensured.at_capacity

unfoldable pub ensure : ℕ → Orchestrator → Orchestrator
unfolding admit
ensure id o = elim (admit id o) [
  | present ↦ o
  | waits ↦ o
  | loads ↦ record o { loading = o.loading ++ id ∷ [] }
  | at_capacity ↦ o
]

-- The lock of a session is set free.
unfoldable pub release_lock : ℕ → List ℕ → List ℕ
release_lock id [] = []
release_lock id (k ∷ ks) = if id == k then ks else k ∷ release_lock id ks

-- `ensure` from the load on; a load that raises leaves nothing.
unfoldable pub loaded : ℕ → Option DiscussionSession → Orchestrator → Orchestrator
unfolding release_lock
loaded id (some s) o = record o {
  loading = release_lock id o.loading;
  live = put id (new_runner s) o.live;
}
loaded id none o = record o { loading = release_lock id o.loading }

-- The callback of a task that is done.
unfoldable pub task_done : ℕ → Orchestrator → Orchestrator
task_done id o = record o { live = remove id o.live }

-- `live.runner.submit(…)` for a session that has a runner.
unfoldable pub post : Command → ℕ → Orchestrator → Orchestrator
post c id o = record o { live = modify id (submit c) o.live }

-- What a transcript says: `speech_started`, `is_final`, `text`.
unfoldable pub on_transcript : ℕ → Uuid → Bool → Bool → Text → Orchestrator → Orchestrator
unfolding post
on_transcript id user speech_started is_final text o =
    if speech_started
    then post (Command.speech_started user) id o
    else if is_final
    then post (Command.utterance_final user text false) id o
    else if is_nonempty text
    then post (Command.transcript_partial user text) id o
    else o

unfoldable pub on_connection : ℕ → Uuid → Bool → Orchestrator → Orchestrator
unfolding post
on_connection id user connected o =
    if connected
    then post (Command.participant_connected user) id o
    else post (Command.participant_disconnected user) id o

-- The plane may report the same departure before.
unfoldable pub leave : ℕ → Uuid → Orchestrator → Orchestrator
unfolding post
leave id user o = post (Command.participant_disconnected user) id o

unfoldable pub release_floor : ℕ → Uuid → Orchestrator → Result Refusal (Unit {0}) × Orchestrator
unfolding post
release_floor id user o =
    if is_live id o
    then (ok tt, post (Command.floor_released user) id o)
    else (err Refusal.not_found, o)

-- A caller that has to wait for the load goes on with `k` after it.
unfoldable pub with_runner :
    (Orchestrator → Orchestrator) → ℕ → Orchestrator → Result Refusal Ensured × Orchestrator
unfolding admit ensure
with_runner k id o = elim (admit id o) [
  | present ↦ (ok Ensured.present, k o)
  | waits ↦ (ok Ensured.waits, o)
  | loads ↦ (ok Ensured.loads, ensure id o)
  | at_capacity ↦ (err Refusal.full, o)
]

unfoldable pub join_without_audio :
    Bool → ℕ → Uuid → Orchestrator → Result Refusal Ensured × Orchestrator
unfolding with_runner post
join_without_audio allow_text_input id user o =
    if allow_text_input
    then with_runner (post (Command.participant_connected user) id) id o
    else (err Refusal.conflict, o)

-- `pause` is what the other tasks do during `sleep(0)`.
unfoldable pub submit_text_turn :
    Bool
    → (Orchestrator → Orchestrator)
    → ℕ
    → Uuid
    → Text
    → Orchestrator
    → Result Refusal Ensured × Orchestrator
unfolding with_runner post
submit_text_turn allow_text_input pause id user text o =
    let turn : Orchestrator → Orchestrator = λ o.
      post (Command.utterance_final user text false) id
        (pause (post (Command.speech_started user) id o)) in
    if allow_text_input then with_runner turn id o else (err Refusal.conflict, o)

-- `mark_status` and `complete_classroom` for a session without a runner; when the first raises, neither
-- is written.
unfoldable pub give_up : Bool → EndReason → ℕ → Orchestrator → Orchestrator
give_up marked reason id o =
    if marked
    then record o {
      writes =
          o.writes
          ++ (id, Write.status SessionStatus.aborted reason) ∷ (id, Write.classroom true) ∷ [];
    }
    else o

unfoldable pub end_session : Bool → EndReason → ℕ → Orchestrator → Orchestrator
unfolding give_up post
end_session marked reason id o =
    if is_live id o
    then post (Command.end_session_requested reason) id o
    else give_up marked reason id o

unfoldable pub abort_stale : Bool → ℕ → Orchestrator → Orchestrator
unfolding give_up
abort_stale marked id o = if is_live id o then o else give_up marked EndReason.fatal_error id o

-- Every runner is asked to close.
unfoldable pub drain : Dict Runner → Dict Runner
drain [] = []
drain ((id, r) ∷ d) = (id, submit (Command.end_session_requested EndReason.host_ended) r) ∷ drain d

-- `wait` is what happens in the 25 seconds, and while the tasks that are left are cancelled.
unfoldable pub shutdown : (Orchestrator → Orchestrator) → Orchestrator → Orchestrator
unfolding drain
shutdown wait o =
    if is_nonempty o.live then record (wait (record o { live = drain o.live })) { live = [] } else o

abbrev pub new_orchestrator : Orchestrator
new_orchestrator = record { live = []; loading = []; writes = [] }
