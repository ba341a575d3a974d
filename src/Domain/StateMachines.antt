-- ===== src/Domain/StateMachines.antt =====
-- The table-driven state machines of backend/app/domain/state_machines.py: the class
-- `StateMachine` over any states and events, and its two tables.
pub mod Laws
pub mod Lives
use mathlib.Core.Logic.{ite}
use gd_classroom.Prelude.{
  Bool, true, false, Option, none, some, List, [], ◌∷◌, map, String, Result, ok, err, is_some,
}
use gd_classroom.Domain.Enums.{
  ClassroomStatus, ClassroomStatus-discrete, SessionStatus, SessionStatus-discrete,
}

module _ {K : Type 0} (same : Discrete K) {V : Type 0} where
  -- A Python dict with keys of an enumeration.
  abbrev pub find : K → List (K × V) → Option V
  find k [] = none
  find k ((j, v) ∷ d) = ite (same k j) (some v) (find k d)

pub record StateMachine (S E : Type 0) : Type 0 where
  pub name : String
  pub table : List (S × List (E × S))
  pub terminal : List S
  pub same_state : Discrete S
  pub same_event : Discrete E

pub record IllegalTransition (S E : Type 0) : Type 0 where
  pub machine : String
  pub current : S
  pub event : E

module _ {S E : Type 0} (m : StateMachine S E) where
  -- `self._table.get(current, {})`
  abbrev pub row : S → List (E × S)
  row current = elim (find m.same_state current m.table) [ none ↦ [] | some r ↦ r ]

  unfoldable pub can : S → E → Bool
  can current event = is_some (find m.same_event event (row current))

  -- A `KeyError` of either lookup is the illegal transition.
  unfoldable pub next : S → E → Result (IllegalTransition S E) S
  next current event = elim (find m.same_state current m.table) [
    | none ↦ err (record { machine = m.name; current = current; event = event })
    | some r ↦ elim (find m.same_event event r) [
      | none ↦ err (record { machine = m.name; current = current; event = event })
      | some target ↦ ok target
    ]
  ]

  unfoldable pub allowed : S → List E
  allowed current = map (λ e. e.0) (row current)

  abbrev is_listed : S → List S → Bool
  is_listed s [] = false
  is_listed s (t ∷ ts) = ite (m.same_state s t) true (is_listed s ts)

  unfoldable pub is_terminal : S → Bool
  is_terminal current = is_listed current m.terminal

pub data ClassroomEvent : Type 0 where
  invitations_sent quorum_reached quorum_lost started session_ended session_aborted cancelled :
      ClassroomEvent
  expired : ClassroomEvent

unfoldable pub ClassroomEvent-discrete : Discrete ClassroomEvent
ClassroomEvent-discrete = hlevel

abbrev pub classroom_fsm : StateMachine ClassroomStatus ClassroomEvent
classroom_fsm = record {
  name = "Classroom";
  table =
      (
        ClassroomStatus.draft,
        (invitations_sent, ClassroomStatus.inviting) ∷ (cancelled, ClassroomStatus.cancelled) ∷ [],
      )
      ∷ (
        ClassroomStatus.inviting,
        (quorum_reached, ClassroomStatus.ready)
            ∷ (cancelled, ClassroomStatus.cancelled)
            ∷ (expired, ClassroomStatus.expired)
            ∷ [],
      )
      ∷ (
        ClassroomStatus.ready,
        (quorum_lost, ClassroomStatus.inviting)
            ∷ (started, ClassroomStatus.live)
            ∷ (cancelled, ClassroomStatus.cancelled)
            ∷ (expired, ClassroomStatus.expired)
            ∷ [],
      )
      ∷ (
        ClassroomStatus.live,
        (session_ended, ClassroomStatus.completed) ∷ (session_aborted, ClassroomStatus.ready) ∷ [],
      )
      ∷ [];
  terminal = ClassroomStatus.completed ∷ ClassroomStatus.cancelled ∷ ClassroomStatus.expired ∷ [];
  same_state = ClassroomStatus-discrete;
  same_event = ClassroomEvent-discrete;
}

pub data SessionEvent : Type 0 where
  participant_joining all_connected join_timeout discussion_finished summary_done fatal :
      SessionEvent
  host_ended : SessionEvent

unfoldable pub SessionEvent-discrete : Discrete SessionEvent
SessionEvent-discrete = hlevel

abbrev pub session_fsm : StateMachine SessionStatus SessionEvent
session_fsm = record {
  name = "Session";
  table =
      (
        SessionStatus.pending,
        (participant_joining, SessionStatus.connecting)
            ∷ (join_timeout, SessionStatus.aborted)
            ∷ (fatal, SessionStatus.aborted)
            ∷ [],
      )
      ∷ (
        SessionStatus.connecting,
        (all_connected, SessionStatus.active)
            ∷ (join_timeout, SessionStatus.aborted)
            ∷ (host_ended, SessionStatus.aborted)
            ∷ (fatal, SessionStatus.aborted)
            ∷ [],
      )
      ∷ (
        SessionStatus.active,
        (discussion_finished, SessionStatus.summarizing)
            ∷ (host_ended, SessionStatus.summarizing)
            ∷ (fatal, SessionStatus.aborted)
            ∷ [],
      )
      ∷ (
        SessionStatus.summarizing,
        (summary_done, SessionStatus.ended) ∷ (fatal, SessionStatus.ended) ∷ [],
      )
      ∷ [];
  terminal = SessionStatus.ended ∷ SessionStatus.aborted ∷ [];
  same_state = SessionStatus-discrete;
  same_event = SessionEvent-discrete;
}
