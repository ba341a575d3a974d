-- ===== src/Examples/Registries.antt =====
-- A registry that loads two sessions (backend/app/modules/moderation/orchestrator.py), at which the
-- theorems are applied.
use gd_classroom.Prelude.{true, ◌+◌, ◌≤◌, ◌≡◌, refl, arith, some, [], ◌∷◌, ◌==◌, length, any_of}
use gd_classroom.Moderation.Orchestrator.{
  Orchestrator, admit, ensure, release_lock, loaded, new_orchestrator,
}
use gd_classroom.Moderation.Orchestrator.Registry.{
  contacts, load_ends, Reached, IsExclusive, one_runner,
}
use gd_classroom.Moderation.Orchestrator.Capacity.{
  ReachedWith, contact_all, load_all, live_bounded, capacity_is_passed,
}
use gd_classroom.Examples.People.{empty_session}

abbrev one_loads : Orchestrator
one_loads = ensure 7 new_orchestrator

abbrev one_runs : Orchestrator
one_runs = loaded 7 (some empty_session) one_loads

abbrev next_loads : Orchestrator
next_loads = ensure 8 one_runs

loading_one : any_of (7 ==◌) one_loads.loading ≡ true
unfolding ensure admit
loading_one = refl

one_runner_example : IsExclusive next_loads
one_runner_example = one_runner next_loads (
    Reached.goes
      (Reached.goes (Reached.goes Reached.starts (contacts 7))
        (load_ends 7 (some empty_session) loading_one))
      (contacts 8))

few_first : length one_loads.loading ≤ 1
unfolding ensure admit
few_first = omega arith

few_then : length one_runs.loading ≤ 1
unfolding ensure admit loaded release_lock
few_then = omega arith

few_last : length next_loads.loading ≤ 1
unfolding ensure admit loaded release_lock
few_last = omega arith

live_bounded_example : length next_loads.live + length next_loads.loading ≤ 25
live_bounded_example = live_bounded 1 next_loads (
    ReachedWith.goes
      (ReachedWith.goes (ReachedWith.goes ReachedWith.starts (contacts 7) few_first)
        (load_ends 7 (some empty_session) loading_one) few_then)
      (contacts 8) few_last)

capacity_is_passed_example :
    length
      (load_all (λ _. empty_session) (7 ∷ 8 ∷ []) (contact_all (7 ∷ 8 ∷ []) new_orchestrator)).live
    ≡ 2
capacity_is_passed_example =
    capacity_is_passed (λ _. empty_session) (7 ∷ 8 ∷ []) new_orchestrator (omega arith) refl
