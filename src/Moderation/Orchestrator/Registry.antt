-- ===== src/Moderation/Orchestrator/Registry.antt =====
-- Who holds a session (backend/app/modules/moderation/orchestrator.py): the steps of the registry, and
-- what they keep.
use gd_classroom.Prelude.{
  ℕ, suc, ◌+◌, ◌≤◌, ◌<◌, ◌⊎◌, inl, inr, ◌≡◌, refl, arith, Bool, true, false, Option, none, some,
  List, [], ◌∷◌, ◌++◌, if◌then◌else◌, ◌==◌, length, is_some, any_of, Dict, get, put, modify, remove,
}
use gd_classroom.Domain.Enums.{EndReason}
use gd_classroom.Domain.Session.{DiscussionSession}
use gd_classroom.Moderation.Commands.{Command}
use gd_classroom.Moderation.State.{Runner, submit, new_runner}
use gd_classroom.Moderation.Orchestrator.{
  Orchestrator, Ensured, is_live, is_loading, admit, ensure, release_lock, loaded, task_done, post,
  give_up, end_session, abort_stale, drain, new_orchestrator, max_live_sessions,
}

-- One step: a request, the end of a load, the end of a runner, or what a runner does by itself.
pub data Step (o : Orchestrator) : Orchestrator → Type 0 where
  contacts : (id : ℕ) → Step o (ensure id o)
  load_ends :
      (id : ℕ) (s : Option DiscussionSession) → is_loading id o ≡ true → Step o (loaded id s o)
  task_ends : (id : ℕ) → Step o (task_done id o)
  posts : (c : Command) (id : ℕ) → Step o (post c id o)
  runs : (f : Runner → Runner) (id : ℕ) → Step o (record o { live = modify id f o.live })
  ends : (marked : Bool) (reason : EndReason) (id : ℕ) → Step o (end_session marked reason id o)
  sweeps : (marked : Bool) (id : ℕ) → Step o (abort_stale marked id o)
  drains : Step o (record o { live = drain o.live })
  clears : Step o (record o { live = [] })

-- How many runners, and how many loads, a session has.
abbrev pub runners : ℕ → Dict Runner → ℕ
runners k [] = 0
runners k ((j, r) ∷ d) = if k == j then suc (runners k d) else runners k d

abbrev pub loads_of : ℕ → List ℕ → ℕ
loads_of k [] = 0
loads_of k (j ∷ js) = if k == j then suc (loads_of k js) else loads_of k js

abbrev pub IsExclusive : Orchestrator → Type 0
IsExclusive o = (k : ℕ) → runners k o.live + loads_of k o.loading ≤ 1

runners-missing : (k : ℕ) (d : Dict Runner) → is_some (get k d) ≡ false → runners k d ≡ 0
runners-missing k [] h = refl
runners-missing k ((j, r) ∷ d) h = ground (arith, runners-missing k d)

missing-runners : (k : ℕ) (d : Dict Runner) → runners k d ≡ 0 → is_some (get k d) ≡ false
missing-runners k [] h = refl
missing-runners k ((j, r) ∷ d) h = ground (arith, missing-runners k d)

loads_of-missing : (k : ℕ) (l : List ℕ) → any_of (k ==◌) l ≡ false → loads_of k l ≡ 0
loads_of-missing k [] h = refl
loads_of-missing k (j ∷ l) h = ground (arith, loads_of-missing k l)

loads_of-held : (k : ℕ) (l : List ℕ) → any_of (k ==◌) l ≡ true → 1 ≤ loads_of k l
loads_of-held k [] h = cc
loads_of-held k (j ∷ l) h = ground (arith, loads_of-held k l)

loads_of-snoc :
    (k j : ℕ) (l : List ℕ)
    → loads_of k (l ++ j ∷ []) ≡ (if k == j then suc (loads_of k l) else loads_of k l)
loads_of-snoc k j [] = refl
loads_of-snoc k j (i ∷ l) = ground (arith, loads_of-snoc k j l)

loads_of-release :
    (k j : ℕ) (l : List ℕ)
    → any_of (j ==◌) l ≡ true
    → loads_of k l
      ≡ (if k == j then suc (loads_of k (release_lock j l)) else loads_of k (release_lock j l))
unfolding release_lock
loads_of-release k j [] h = cc
loads_of-release k j (i ∷ l) h = ground (arith, loads_of-release k j l)

runners-put :
    (k j : ℕ) (r : Runner) (d : Dict Runner)
    → is_some (get j d) ≡ false
    → runners k (put j r d) ≡ (if k == j then suc (runners k d) else runners k d)
runners-put k j r [] h = refl
runners-put k j r ((i, q) ∷ d) h = ground (arith, runners-put k j r d)

runners-modify :
    (k j : ℕ) (f : Runner → Runner) (d : Dict Runner) → runners k (modify j f d) ≡ runners k d
runners-modify k j f [] = refl
runners-modify k j f ((i, q) ∷ d) = ground (arith, runners-modify k j f d)

runners-remove : (k j : ℕ) (d : Dict Runner) → runners k (remove j d) ≤ runners k d
runners-remove k j [] = omega arith
runners-remove k j ((i, q) ∷ d) = ground (arith, runners-remove k j d)

runners-drain : (k : ℕ) (d : Dict Runner) → runners k (drain d) ≡ runners k d
unfolding drain
runners-drain k [] = refl
runners-drain k ((i, q) ∷ d) = ground (arith, runners-drain k d)

-- A session that is admitted to be loaded had neither a runner nor a load.
pub admit-loads :
    (id : ℕ) (o : Orchestrator)
    → admit id o ≡ Ensured.loads
    → (is_live id o ≡ false) × (is_loading id o ≡ false) × (length o.live < max_live_sessions)
unfolding admit
admit-loads id o h = ground arith

pub ensure-cases :
    (id : ℕ) (o : Orchestrator)
    → (ensure id o ≡ o)
      ⊎ ((admit id o ≡ Ensured.loads) × (ensure id o ≡ record o { loading = o.loading ++ id ∷ [] }))
unfolding ensure
ensure-cases id o = ground arith

post-IsExclusive :
    (f : Runner → Runner) (id : ℕ) (o : Orchestrator)
    → IsExclusive o
    → IsExclusive (record o { live = modify id f o.live })
post-IsExclusive f id o h k = omega (arith, h k, runners-modify k id f o.live)

ensure-IsExclusive : (id : ℕ) (o : Orchestrator) → IsExclusive o → IsExclusive (ensure id o)
ensure-IsExclusive id o h k = elim (ensure-cases id o) [
  | inl e ↦ rw e (h k)
  | inr (a, e) ↦
      let (no_runner, no_load, _) = admit-loads id o a in
      rw e (
        ground (
          arith,
          h k,
          loads_of-snoc k id o.loading,
          runners-missing k o.live,
          loads_of-missing k o.loading,
        ))
]

loaded-IsExclusive :
    (id : ℕ) (s : Option DiscussionSession) (o : Orchestrator)
    → is_loading id o ≡ true
    → IsExclusive o
    → IsExclusive (loaded id s o)
unfolding loaded
loaded-IsExclusive id (some s) o w h k =
    let one = loads_of-held id o.loading w in
    let gone = missing-runners id o.live (omega (arith, h id)) in
    ground
      (arith, h k, loads_of-release k id o.loading w, runners-put k id (new_runner s) o.live gone)
loaded-IsExclusive id none o w h k = ground (arith, h k, loads_of-release k id o.loading w)

step-IsExclusive : (o o' : Orchestrator) → IsExclusive o → Step o o' → IsExclusive o'
unfolding post end_session abort_stale give_up task_done
step-IsExclusive o o' h (contacts id) k = ensure-IsExclusive id o h k
step-IsExclusive o o' h (load_ends id s w) k = loaded-IsExclusive id s o w h k
step-IsExclusive o o' h (task_ends id) k = omega (arith, h k, runners-remove k id o.live)
step-IsExclusive o o' h (posts c id) k = post-IsExclusive (submit c) id o h k
step-IsExclusive o o' h (runs f id) k = post-IsExclusive f id o h k
step-IsExclusive o o' h (ends marked reason id) k =
    ground (arith, h k, runners-modify k id (submit (Command.end_session_requested reason)) o.live)
step-IsExclusive o o' h (sweeps marked id) k = ground (arith, h k)
step-IsExclusive o o' h drains k = omega (arith, h k, runners-drain k o.live)
step-IsExclusive o o' h clears k = omega (arith, h k)

pub data Reached : Orchestrator → Type 0 where
  starts : Reached new_orchestrator
  goes : {o o' : Orchestrator} → Reached o → Step o o' → Reached o'

-- In every state that the registry reaches, by requests, loads and ends in any order, a session has at
-- most one runner or load in flight, never both.
pub one_runner : (o : Orchestrator) → Reached o → IsExclusive o
one_runner o starts k = omega arith
one_runner o (goes {o = p} r s) k = step-IsExclusive p o (one_runner p r) s k
