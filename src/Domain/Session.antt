-- ===== src/Domain/Session.antt =====
-- The live discussion: backend/app/domain/session.py, with the `TopicBrief` and `TurnRecord` of
-- backend/app/domain/prompts.py. Times are microseconds, the resolution of `datetime`, and the
-- current time is an argument.
pub mod Roster
pub mod Removal
pub mod Transcript
use gd_classroom.Prelude.{
  ℕ, ◌+◌, ◌-◌, ◌/◌, Bool, true, false, Option, none, some, List, [], ◌∷◌, ◌++◌, map, if◌then◌else◌,
  Dict, put, modify, values, get, filter_by, length, append_bounded, Text, codes, Uuid,
}
use gd_classroom.Domain.Enums.{ModeratorState, ParticipantConnection, SessionStatus, TurnKind}
use gd_classroom.Domain.Ledger.{Tallies, register, set_connected}
use gd_classroom.Domain.TurnPolicy.{Assessment, DiscussionBudget}

pub record ParticipantState : Type 0 where
  pub user_id : Uuid
  pub display_name : Text
  pub seat_no : ℕ
  pub connection : ParticipantConnection
  pub connected_at : Option ℕ
  pub disconnected_at : Option ℕ

abbrev pub is_connected : ParticipantConnection → Bool
is_connected ParticipantConnection.connected = true
is_connected _ = false

abbrev pub is_removed_state : ParticipantConnection → Bool
is_removed_state ParticipantConnection.removed = true
is_removed_state _ = false

abbrev pub is_present : ParticipantState → Bool
is_present p = is_connected p.connection

abbrev pub is_removed : ParticipantState → Bool
is_removed p = is_removed_state p.connection

pub record BufferedTurn : Type 0 where
  pub turn_index : ℕ
  pub kind : TurnKind
  pub is_moderator : Bool
  pub speaker_user_id : Option Uuid
  pub speaker_name : Text
  pub text : Text
  pub started_at : ℕ
  pub duration_ms : ℕ

pub record TurnRecord : Type 0 where
  pub index : ℕ
  pub speaker : Text
  pub text : Text
  pub is_moderator : Bool

pub record TopicBrief : Type 0 where
  pub title : Text
  pub description : Text
  pub guiding_points : List Text

abbrev pub recent_turns_kept : ℕ
recent_turns_kept = 4

pub record DiscussionSession : Type 0 where
  pub session_id : Uuid
  pub classroom_id : Uuid
  pub topic : TopicBrief
  pub budget : DiscussionBudget
  pub participants : Dict ParticipantState
  pub status : SessionStatus
  pub moderator_state : ModeratorState
  pub floor_holder : Option Uuid
  pub floor_granted_at : Option ℕ
  pub last_speaker : Option Uuid
  pub turn_index : ℕ
  pub consecutive_silent_turns : ℕ
  pub ledger : Tallies
  pub rolling_summary : Text
  pub recent_turns : List TurnRecord
  pub buffered_turns : List BufferedTurn
  pub assessments : List (Uuid × Assessment)
  pub created_at : ℕ
  pub started_at : Option ℕ
  pub ended_at : Option ℕ

-- `DiscussionSession(session_id, classroom_id, topic, budget)` with the defaults of its fields.
abbrev pub new_session : Uuid → Uuid → TopicBrief → DiscussionBudget → ℕ → DiscussionSession
new_session sid cid topic budget now = record {
  session_id = sid;
  classroom_id = cid;
  topic = topic;
  budget = budget;
  participants = [];
  status = SessionStatus.pending;
  moderator_state = ModeratorState.idle;
  floor_holder = none;
  floor_granted_at = none;
  last_speaker = none;
  turn_index = 0;
  consecutive_silent_turns = 0;
  ledger = [];
  rolling_summary = [];
  recent_turns = [];
  buffered_turns = [];
  assessments = [];
  created_at = now;
  started_at = none;
  ended_at = none;
}

abbrev pub fresh_participant : Uuid → Text → ℕ → ParticipantState
fresh_participant u name seat = record {
  user_id = u;
  display_name = name;
  seat_no = seat;
  connection = ParticipantConnection.invited;
  connected_at = none;
  disconnected_at = none;
}

unfoldable pub add_participant : Uuid → Text → ℕ → DiscussionSession → DiscussionSession
unfolding register set_connected
add_participant u name seat s = record s {
  participants = put u.value (fresh_participant u name seat) s.participants;
  ledger = set_connected u false (register u name s.ledger);
}

-- The bodies of `mark_connected`, `mark_disconnected` and `mark_removed`, by what `get` finds.
abbrev set_present : ℕ → Uuid → DiscussionSession → DiscussionSession
set_present now u s = record s {
  participants =
      modify u.value
        (λ p. record p { connection = ParticipantConnection.connected; connected_at = some now })
        s.participants;
  ledger = set_connected u true s.ledger;
}

abbrev set_absent : ParticipantConnection → ℕ → Uuid → DiscussionSession → DiscussionSession
set_absent how now u s = record s {
  participants =
      modify u.value (λ p. record p { connection = how; disconnected_at = some now })
        s.participants;
  ledger = set_connected u false s.ledger;
}

connect_found : ℕ → Uuid → Option ParticipantState → DiscussionSession → DiscussionSession
connect_found now u none s = s
connect_found now u (some p) s = if is_removed p then s else set_present now u s

disconnect_found : ℕ → Uuid → Option ParticipantState → DiscussionSession → DiscussionSession
disconnect_found now u none s = s
disconnect_found now u (some p) s =
    if is_removed p then s else set_absent ParticipantConnection.disconnected now u s

remove_found : ℕ → Uuid → Option ParticipantState → DiscussionSession → DiscussionSession
remove_found now u none s = s
remove_found now u (some p) s = set_absent ParticipantConnection.removed now u s

unfoldable pub mark_connected : ℕ → Uuid → DiscussionSession → DiscussionSession
unfolding connect_found set_connected
mark_connected now u s = connect_found now u (get u.value s.participants) s

unfoldable pub mark_disconnected : ℕ → Uuid → DiscussionSession → DiscussionSession
unfolding disconnect_found set_connected
mark_disconnected now u s = disconnect_found now u (get u.value s.participants) s

unfoldable pub mark_removed : ℕ → Uuid → DiscussionSession → DiscussionSession
unfolding remove_found set_connected
mark_removed now u s = remove_found now u (get u.value s.participants) s

unfoldable pub connected_count : DiscussionSession → ℕ
connected_count s = length (filter_by is_present (values s.participants))

unfoldable pub expected_count : DiscussionSession → ℕ
expected_count s = length s.participants

unfoldable pub name_of : Option Uuid → DiscussionSession → Text
name_of none s = codes "Moderator"
name_of (some u) s = elim (get u.value s.participants) [
  | none ↦ codes "Someone"
  | some p ↦ p.display_name
]

-- Whole seconds since the start. The clock is taken not to run backwards.
unfoldable pub elapsed_seconds : ℕ → DiscussionSession → ℕ
elapsed_seconds now s = elim s.started_at [ none ↦ 0 | some t ↦ (now - t) / 1000000 ]

-- Milliseconds, exact where the program goes through a float.
unfoldable pub floor_held_ms : ℕ → DiscussionSession → ℕ
floor_held_ms now s = elim s.floor_granted_at [ none ↦ 0 | some t ↦ (now - t) / 1000 ]

unfoldable pub next_turn_index : DiscussionSession → DiscussionSession × ℕ
next_turn_index s = (record s { turn_index = s.turn_index + 1 }, s.turn_index + 1)

abbrev pub is_moderators : Option Uuid → Bool
is_moderators none = true
is_moderators (some u) = false

abbrev pub turn_record : BufferedTurn → TurnRecord
turn_record t = record {
  index = t.turn_index;
  speaker = t.speaker_name;
  text = t.text;
  is_moderator = t.is_moderator;
}

-- `record_turn` without a `started_at` of its own, as every caller calls it.
unfoldable pub record_turn :
    ℕ → TurnKind → Text → Option Uuid → ℕ → DiscussionSession → DiscussionSession × BufferedTurn
unfolding next_turn_index name_of
record_turn now kind text speaker duration_ms s =
    let (s', index) = next_turn_index s in
    let turn : BufferedTurn = record {
      turn_index = index;
      kind = kind;
      is_moderator = is_moderators speaker;
      speaker_user_id = speaker;
      speaker_name = name_of speaker s;
      text = text;
      started_at = now;
      duration_ms = duration_ms;
    } in
    (
      record s' {
        buffered_turns = s.buffered_turns ++ turn ∷ [];
        recent_turns = append_bounded recent_turns_kept (turn_record turn) s.recent_turns;
      },
      turn,
    )

unfoldable pub transcript : DiscussionSession → List TurnRecord
transcript s = map turn_record s.buffered_turns

unfoldable pub wipe : DiscussionSession → DiscussionSession
wipe s = record s {
  rolling_summary = [];
  recent_turns = [];
  buffered_turns = [];
  assessments = [];
  participants = [];
  ledger = [];
  floor_holder = none;
}
