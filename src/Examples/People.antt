-- ===== src/Examples/People.antt =====
-- Two people, a session, a runner and the services around it, for the examples of
-- backend/app/domain and backend/app/modules/moderation.
use gd_classroom.Prelude.{
  true, false, none, some, List, [], ◌∷◌, ◌++◌, Text, codes, Uuid, is_nonempty, if◌then◌else◌,
}
use gd_classroom.Domain.Enums.{ModeratorState, SessionStatus}
use gd_classroom.Domain.TurnPolicy.{default_budget}
use gd_classroom.Domain.Session.{DiscussionSession, new_session, add_participant, mark_connected}
use gd_classroom.Domain.Privacy.{Matcher, Pattern, Span}
use gd_classroom.Moderation.State.{Setup, World, Runner, new_runner}

abbrev pub alice : Uuid
alice = record { value = 1; object = 1 }

abbrev pub bob : Uuid
bob = record { value = 2; object = 2 }

abbrev pub empty_session : DiscussionSession
empty_session =
    new_session (record { value = 7; object = 7 }) (record { value = 8; object = 8 })
      (record { title = codes "Tea or coffee"; description = []; guiding_points = [] })
      default_budget 0

abbrev pub seated : DiscussionSession
seated = add_participant bob (codes "Bob") 2 (add_participant alice (codes "Alice") 1 empty_session)

-- An address pattern that matches the first three characters of any text that is not empty.
abbrev find_address : Pattern → Text → List Span
find_address Pattern.email text =
    if is_nonempty text then record { start = 0; end = 3 } ∷ [] else []
find_address _ text = []

abbrev pub matcher : Matcher
matcher = record {
  find_iter = find_address;
  is_decimal_looking = λ text. false;
  is_digit = λ c. false;
}

abbrev pub setup : Setup
setup = record {
  session_join_window_ms = 60000;
  silence_before_speaking_ms = 12000;
  silence_after_nudge_ms = 8000;
  moderator_think_ms = 1500;
  turn_max_seconds = 90;
  remove_on_personal_information = true;
  llm_assessment_enabled = false;
  has_deep_lane = false;
  matcher = matcher;
  lower = λ text. text;
  ground_rules = λ seconds. codes "One at a time.";
  removal_notice = λ name. codes "Please stay off the record, " ++ name;
}

abbrev pub working : World
working = record {
  now = λ m. 5000000;
  mark_active_returns = true;
  flush_returns = true;
  save_returns = true;
  mark_status_returns = true;
  complete_returns = true;
  assessment = none;
  folded = none;
  has_report = false;
}

-- The database is away.
abbrev pub failing : World
failing = record working { flush_returns = false }

-- Both are connected.
abbrev pub present : DiscussionSession
present = mark_connected 2000000 bob (mark_connected 1000000 alice seated)

-- Alice has the floor.
abbrev pub listening : Runner
listening = record (new_runner present) {
  session = record present {
    status = SessionStatus.active;
    moderator_state = ModeratorState.listening;
    floor_holder = some alice;
    floor_granted_at = some 4000000;
    started_at = some 3000000;
  };
  plane_floor = some alice;
}
