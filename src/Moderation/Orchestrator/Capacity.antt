-- ===== src/Moderation/Orchestrator/Capacity.antt =====
-- How many sessions are live at once: `MAX_LIVE_SESSIONS` of
-- backend/app/modules/moderation/orchestrator.py is tested before the load, and not after it.
use gd_classroom.Prelude.{
  ℕ, suc, ◌+◌, ◌-◌, ◌≤◌, ◌<◌, ◌⊎◌, inl, inr, ◌≡◌, refl, arith, Bool, true, false, not, ◌&&◌, none,
  some, List, [], ◌∷◌, ◌++◌, append_assoc, if◌then◌else◌, ◌==◌, length, append_nil, get-put,
  is_some, any_of, Dict, get, put, modify, remove,
}
use gd_classroom.Domain.Session.{DiscussionSession}
use gd_classroom.Moderation.Commands.{Command}
use gd_classroom.Moderation.State.{Runner, submit, new_runner}
use gd_classroom.Moderation.Orchestrator.{
  Orchestrator, is_live, is_loading, admit, ensure, release_lock, loaded, task_done, post, give_up,
  end_session, abort_stale, drain, new_orchestrator, max_live_sessions,
}
use gd_classroom.Moderation.Orchestrator.Registry.{
  Step, contacts, load_ends, task_ends, posts, runs, ends, sweeps, drains, clears, admit-loads,
  ensure-cases,
}

length-put :
    (id : ℕ) (r : Runner) (d : Dict Runner)
    → length (put id r d) ≡ (if is_some (get id d) then length d else suc (length d))
length-put id r [] = refl
length-put id r ((j, q) ∷ d) = ground (arith, length-put id r d)

length-modify : (id : ℕ) (f : Runner → Runner) (d : Dict Runner) → length (modify id f d) ≡ length d
length-modify id f [] = refl
length-modify id f ((j, q) ∷ d) = ground (arith, length-modify id f d)

length-remove : (id : ℕ) (d : Dict Runner) → length (remove id d) ≤ length d
length-remove id [] = omega arith
length-remove id ((j, q) ∷ d) = ground (arith, length-remove id d)

length-drain : (d : Dict Runner) → length (drain d) ≡ length d
unfolding drain
length-drain [] = refl
length-drain ((j, q) ∷ d) = omega (arith, length-drain d)

length-release :
    (id : ℕ) (l : List ℕ) → any_of (id ==◌) l ≡ true → suc (length (release_lock id l)) ≡ length l
unfolding release_lock
length-release id [] h = cc
length-release id (j ∷ l) h = ground (arith, length-release id l)

-- The sessions that have a runner, or will have one when their load ends.
abbrev pub committed : Orchestrator → ℕ
committed o = length o.live + length o.loading

-- A step commits to a session only while fewer than the maximum have a runner.
step-committed :
    (o o' : Orchestrator)
    → Step o o'
    → (committed o' ≤ committed o) ⊎ (committed o' ≤ max_live_sessions - 1 + length o'.loading)
unfolding post end_session abort_stale give_up task_done loaded
step-committed o o' (contacts id) = elim (ensure-cases id o) [
  | inl e ↦ inl (rw e (omega arith))
  | inr (a, e) ↦ let (_, _, room) = admit-loads id o a in inr (rw e (omega (arith, room)))
]
step-committed o o' (load_ends id (some s) w) =
    inl (ground (arith, length-put id (new_runner s) o.live, length-release id o.loading w))
step-committed o o' (load_ends id none w) = inl (omega (arith, length-release id o.loading w))
step-committed o o' (task_ends id) = inl (omega (arith, length-remove id o.live))
step-committed o o' (posts c id) = inl (omega (arith, length-modify id (submit c) o.live))
step-committed o o' (runs f id) = inl (omega (arith, length-modify id f o.live))
step-committed o o' (ends marked reason id) =
    inl (ground (arith, length-modify id (submit (Command.end_session_requested reason)) o.live))
step-committed o o' (sweeps marked id) = inl (ground arith)
step-committed o o' drains = inl (omega (arith, length-drain o.live))
step-committed o o' clears = inl (omega arith)

-- The states that the registry reaches with at most `m` loads in flight at any time.
pub data ReachedWith (m : ℕ) : Orchestrator → Type 0 where
  starts : ReachedWith m new_orchestrator
  goes :
      {o o' : Orchestrator} → ReachedWith m o → Step o o' → length o'.loading ≤ m → ReachedWith m o'

-- As long as no more than `m` loads are in flight together, the runners and the loads together are never
-- more than 24 + `m`: if loads do not overlap, the limit of 25 live sessions holds.
pub live_bounded :
    (m : ℕ) (o : Orchestrator)
    → ReachedWith m o
    → length o.live + length o.loading ≤ max_live_sessions - 1 + m
live_bounded m o starts = omega arith
live_bounded m o (goes {o = p} r s few) = elim (step-committed p o s) [
  | inl e ↦ omega (arith, e, live_bounded m p r)
  | inr e ↦ omega (arith, e, few)
]

-- `ensure` for each session in turn, and then the end of every load.
abbrev pub contact_all : List ℕ → Orchestrator → Orchestrator
contact_all [] o = o
contact_all (id ∷ ids) o = contact_all ids (ensure id o)

abbrev pub load_all : (ℕ → DiscussionSession) → List ℕ → Orchestrator → Orchestrator
load_all session [] o = o
load_all session (id ∷ ids) o = load_all session ids (loaded id (some (session id)) o)

-- Different sessions, none with a runner or a load.
abbrev pub all_new : List ℕ → Dict Runner → List ℕ → Bool
all_new [] live loading = true
all_new (id ∷ ids) live loading =
    not (is_some (get id live))
    && not (any_of (id ==◌) loading)
    && not (any_of (id ==◌) ids)
    && all_new ids live loading

any_of-snoc :
    (k j : ℕ) (l : List ℕ)
    → any_of (k ==◌) (l ++ j ∷ []) ≡ (if k == j then true else any_of (k ==◌) l)
any_of-snoc k j [] = ground arith
any_of-snoc k j (i ∷ l) = ground (arith, any_of-snoc k j l)

all_new-snoc :
    (id : ℕ) (ids : List ℕ) (live : Dict Runner) (loading : List ℕ)
    → any_of (id ==◌) ids ≡ false
    → all_new ids live loading ≡ true
    → all_new ids live (loading ++ id ∷ []) ≡ true
all_new-snoc id [] live loading n h = refl
all_new-snoc id (j ∷ ids) live loading n h =
    ground (arith, any_of-snoc j id loading, all_new-snoc id ids live loading)

ensure-new :
    (id : ℕ) (o : Orchestrator)
    → is_live id o ≡ false
    → is_loading id o ≡ false
    → length o.live < max_live_sessions
    → ensure id o ≡ record o { loading = o.loading ++ id ∷ [] }
unfolding ensure admit
ensure-new id o a b c = ground arith

contact_all-new :
    (ids : List ℕ) (o : Orchestrator)
    → length o.live < max_live_sessions
    → all_new ids o.live o.loading ≡ true
    → contact_all ids o ≡ record o { loading = o.loading ++ ids }
contact_all-new [] o room new = rw append_nil refl
contact_all-new (id ∷ ids) o room new =
    let e = ensure-new id o (ground arith) (ground arith) room in
    let rest = all_new-snoc id ids o.live o.loading (ground arith) (ground arith) in
    let next = contact_all-new ids (record o { loading = o.loading ++ id ∷ [] }) room rest in
    rw e (rw next (rw append_assoc refl))

all_new-put :
    (id : ℕ) (r : Runner) (ids : List ℕ) (live : Dict Runner) (loading : List ℕ)
    → any_of (id ==◌) ids ≡ false
    → all_new ids live loading ≡ true
    → all_new ids (put id r live) [] ≡ true
all_new-put id r [] live loading n h = refl
all_new-put id r (j ∷ ids) live loading n h =
    ground (arith, get-put j id r live, all_new-put id r ids live loading)

length_live-loaded :
    (id : ℕ) (s : DiscussionSession) (o : Orchestrator)
    → is_live id o ≡ false
    → length (loaded id (some s) o).live ≡ suc (length o.live)
unfolding loaded
length_live-loaded id s o h = ground (arith, length-put id (new_runner s) o.live)

new-loaded :
    (id : ℕ) (s : DiscussionSession) (ids : List ℕ) (o : Orchestrator)
    → any_of (id ==◌) ids ≡ false
    → all_new ids o.live [] ≡ true
    → all_new ids (loaded id (some s) o).live [] ≡ true
unfolding loaded
new-loaded id s ids o n h = all_new-put id (new_runner s) ids o.live [] n h

load_all-new :
    (session : ℕ → DiscussionSession) (ids : List ℕ) (o : Orchestrator)
    → all_new ids o.live [] ≡ true
    → length (load_all session ids o).live ≡ length o.live + length ids
load_all-new session [] o new = omega arith
load_all-new session (id ∷ ids) o new =
    let o' = loaded id (some (session id)) o in
    let one = length_live-loaded id (session id) o (ground arith) in
    let rest =
      load_all-new session ids o'
        (new-loaded id (session id) ids o (ground arith) (ground arith)) in
    omega (arith, one, rest)

all_new_idle :
    (ids : List ℕ) (live : Dict Runner) (loading : List ℕ)
    → all_new ids live loading ≡ true
    → all_new ids live [] ≡ true
all_new_idle [] live loading h = refl
all_new_idle (id ∷ ids) live loading h = ground (arith, all_new_idle ids live loading)

-- However many different new sessions are contacted while fewer than 25 are live, when all the contacts come
-- before the end of the first of their loads, every one of them gets a runner: the limit is passed.
pub capacity_is_passed :
    (session : ℕ → DiscussionSession) (ids : List ℕ) (o : Orchestrator)
    → length o.live < max_live_sessions
    → all_new ids o.live o.loading ≡ true
    → length (load_all session ids (contact_all ids o)).live ≡ length o.live + length ids
capacity_is_passed session ids o room new = rw (contact_all-new ids o room new) (
    load_all-new session ids (record o { loading = o.loading ++ ids })
      (all_new_idle ids o.live o.loading new))
