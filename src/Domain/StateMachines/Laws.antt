-- ===== src/Domain/StateMachines/Laws.antt =====
-- What `can`, `next`, `allowed` and `is_terminal` have to do with one another, for every table and
-- for the two of the program.
use mathlib.Core.Logic.{ite}
use gd_classroom.Prelude.{
  ◌≡◌, refl, ◌↔◌, ◌⊎◌, inl, inr, true, false, some, List, [], ◌∷◌, map, is_ok, is_some, IsIn, arith,
}
use gd_classroom.Domain.Enums.{
  ClassroomStatus, ClassroomStatus-discrete, SessionStatus, SessionStatus-discrete,
}
use gd_classroom.Domain.StateMachines.{
  find, StateMachine, row, can, next, allowed, is_terminal, ClassroomEvent, ClassroomEvent-discrete,
  classroom_fsm, SessionEvent, SessionEvent-discrete, session_fsm,
}

-- A key is found exactly when it is listed.
module _ {K : Type 0} (same : Discrete K) {V : Type 0} where
  find-IsIn :
      (k : K) (d : List (K × V)) → (is_some (find same k d) ≡ true) ↔ IsIn k (map (λ e. e.0) d)
  find-IsIn k [] = (λ h. cc, λ h. absurd h)
  find-IsIn k ((j, v) ∷ d) =
      elim (same k j)
        as (λ t.
          (is_some (ite t (some v) (find same k d)) ≡ true) ↔ (k ≡ j ⊎ IsIn k (map (λ e. e.0) d))) [
            | yes p ↦ (λ _. inl p, λ _. refl)
            | no p ↦ (
              λ h. inr ((find-IsIn k d).0 h),
              λ h. elim h [ inl q ↦ absurd (p q) | inr q ↦ (find-IsIn k d).1 q ],
            )
          ]

module _ {S E : Type 0} (m : StateMachine S E) where
  pub can-eq-next : (s : S) (e : E) → can m s e ≡ is_ok (next m s e)
  unfolding can next
  can-eq-next s e = ground arith

  pub can-allowed : (s : S) (e : E) → (can m s e ≡ true) ↔ IsIn e (allowed m s)
  unfolding can allowed
  can-allowed s e = find-IsIn m.same_event e (row m s)

-- The terminal statuses of a classroom are exactly those that refuse every event.
pub classroom_terminal :
    (s : ClassroomStatus)
    → (is_terminal classroom_fsm s ≡ true) ↔ ((e : ClassroomEvent) → can classroom_fsm s e ≡ false)
unfolding is_terminal can ClassroomStatus-discrete ClassroomEvent-discrete
classroom_terminal ClassroomStatus.draft = (λ h. cc, λ h. cc (h ClassroomEvent.cancelled))
classroom_terminal ClassroomStatus.inviting = (λ h. cc, λ h. cc (h ClassroomEvent.cancelled))
classroom_terminal ClassroomStatus.ready = (λ h. cc, λ h. cc (h ClassroomEvent.cancelled))
classroom_terminal ClassroomStatus.live = (λ h. cc, λ h. cc (h ClassroomEvent.session_ended))
classroom_terminal _ = (λ h e. refl, λ h. refl)

-- The terminal statuses of a session are exactly those that refuse every event.
pub session_terminal :
    (s : SessionStatus)
    → (is_terminal session_fsm s ≡ true) ↔ ((e : SessionEvent) → can session_fsm s e ≡ false)
unfolding is_terminal can SessionStatus-discrete SessionEvent-discrete
session_terminal SessionStatus.ended = (λ h e. refl, λ h. refl)
session_terminal SessionStatus.aborted = (λ h e. refl, λ h. refl)
session_terminal _ = (λ h. cc, λ h. cc (h SessionEvent.fatal))
