-- ===== src/Domain/StateMachines/Lives.antt =====
-- Which lives the two tables allow: sequences of accepted events.
use gd_classroom.Prelude.{
  ℕ, ◌+◌, ◌≤◌, ◌<◌, ◌≡◌, refl, sym, ◌⊎◌, Bool, true, false, inl, inr, List, [], ◌∷◌, ok, length,
  IsIn, arith,
}
use gd_classroom.Domain.Enums.{
  ClassroomStatus, ClassroomStatus-discrete, SessionStatus, SessionStatus-discrete,
}
use gd_classroom.Domain.StateMachines.{
  StateMachine, next, ClassroomEvent, ClassroomEvent-discrete, classroom_fsm, SessionEvent,
  SessionEvent-discrete, session_fsm,
}

-- `es` leads from `s` to `t`, every event accepted.
pub data Runs {S E : Type 0} (m : StateMachine S E) : S → List E → S → Type 0 where
  here : {s : S} → Runs m s [] s
  step : {s t u : S} {es : List E} (e : E) → next m s e ≡ ok t → Runs m t es u → Runs m s (e ∷ es) u

-- How far a session has come.
abbrev pub session_rank : SessionStatus → ℕ
session_rank SessionStatus.pending = 0
session_rank SessionStatus.connecting = 1
session_rank SessionStatus.active = 2
session_rank SessionStatus.summarizing = 3
session_rank _ = 4

session_step_up :
    (s : SessionStatus) (e : SessionEvent) {t : SessionStatus}
    → next session_fsm s e ≡ ok t
    → session_rank s < session_rank t
unfolding next SessionStatus-discrete SessionEvent-discrete
session_step_up s e h = ground arith

session_runs_up :
    {s t : SessionStatus} {es : List SessionEvent}
    → Runs session_fsm s es t
    → session_rank s + length es ≤ session_rank t
session_runs_up here = omega arith
session_runs_up (step {s = s} e h r) = omega (arith, session_step_up s e h, session_runs_up r)

session_rank-le : (s : SessionStatus) → session_rank s ≤ 4
session_rank-le SessionStatus.pending = omega arith
session_rank-le _ = omega arith

-- Along the table `SESSION_FSM` no run from any status has more than four transitions. The statement is
-- about the table: the runner and the gateway set the status of a session without it.
pub session_life_bounded :
    {t : SessionStatus} {es : List SessionEvent} (s : SessionStatus)
    → Runs session_fsm s es t
    → length es ≤ 4
session_life_bounded {t} s r = omega (arith, session_runs_up r, session_rank-le t)

abbrev has_started : ClassroomStatus → Bool
has_started ClassroomStatus.live = true
has_started ClassroomStatus.completed = true
has_started _ = false

starting_step :
    (s : ClassroomStatus) (e : ClassroomEvent) {t : ClassroomStatus}
    → next classroom_fsm s e ≡ ok t
    → has_started s ≡ false
    → (e ≡ ClassroomEvent.started) ⊎ (has_started t ≡ false)
unfolding next ClassroomStatus-discrete ClassroomEvent-discrete
starting_step s e h k = ground arith

started-IsIn :
    {s t : ClassroomStatus} {es : List ClassroomEvent}
    → Runs classroom_fsm s es t
    → has_started s ≡ false
    → has_started t ≡ true
    → IsIn ClassroomEvent.started es
started-IsIn here h k = cc
started-IsIn (step {s = s} e a r) h k = elim (starting_step s e a h) [
  | inl p ↦ inl (sym p)
  | inr q ↦ inr (started-IsIn r q k)
]

-- A classroom that came from its draft to a completed discussion was started on the way.
pub completed_was_started :
    {es : List ClassroomEvent}
    → Runs classroom_fsm ClassroomStatus.draft es ClassroomStatus.completed
    → IsIn ClassroomEvent.started es
completed_was_started r = started-IsIn r refl refl
