-- ===== src/Moderation/State.antt =====
-- The state of a `SessionRunner` (backend/app/modules/moderation/runner.py) and the small methods
-- that the others call: the queue, the timers, the moderator's speech and the event stream.
use gd_classroom.Prelude.{
  ℕ, Bool, false, Option, none, some, List, [], ◌∷◌, ◌++◌, ltb, if◌then◌else◌, length, Text, Uuid,
}
use gd_classroom.Domain.Enums.{EndReason, ModeratorState, SessionStatus, TurnKind}
use gd_classroom.Domain.TurnPolicy.{Assessment}
use gd_classroom.Domain.Session.{DiscussionSession, TurnRecord}
use gd_classroom.Domain.Privacy.{Matcher}
use gd_classroom.Moderation.Commands.{Command, Event}

-- The settings that the runner reads (backend/app/core/config.py), times in milliseconds, and what
-- the process was started with: the deep lane, the regular expressions, `str.lower`.
pub record Setup : Type 0 where
  pub session_join_window_ms : ℕ
  pub silence_before_speaking_ms : ℕ
  pub silence_after_nudge_ms : ℕ
  pub moderator_think_ms : ℕ
  pub turn_max_seconds : ℕ
  pub remove_on_personal_information : Bool
  pub llm_assessment_enabled : Bool
  pub has_deep_lane : Bool
  pub matcher : Matcher
  pub lower : Text → Text
  -- `ground_rules` and `removal_notice` of backend/app/domain/prompts.py.
  pub ground_rules : ℕ → Text
  pub removal_notice : Text → Text

-- Where a command reads the clock.
pub data Moment : Type 0 where
  connecting leaving removing beginning recording granting holding answering deciding choosing
        ending :
      Moment

-- What the services outside answer while one command is handled.
pub record World : Type 0 where
  pub now : Moment → ℕ
  -- Whether a call of the persistence returns; otherwise it raises.
  pub mark_active_returns : Bool
  pub flush_returns : Bool
  pub save_returns : Bool
  pub mark_status_returns : Bool
  pub complete_returns : Bool
  -- The deep lane's verdict, `none` also when it is late or fails.
  pub assessment : Option Assessment
  -- The folded summary, `none` when the call is late or fails.
  pub folded : Option Text
  -- Whether the closing report came back as a dict that is not empty.
  pub has_report : Bool

pub record Timer : Type 0 where
  pub delay_ms : ℕ
  pub command : Command

pub data TimerName : Type 0 where
  join silence cap cap_grace : TimerName

-- `_timers`: a dict with at most these four keys.
pub record Timers : Type 0 where
  pub join : Option Timer
  pub silence : Option Timer
  pub cap : Option Timer
  pub cap_grace : Option Timer

-- `_speech`: the task that speaks, with the fixed words of `_say`, and whether it is done.
pub record Speech : Type 0 where
  pub kind : TurnKind
  pub script : Option Text
  pub done : Bool

-- A write to the database.
pub data Write : Type 0 where
  active : Write
  transcript : List TurnRecord → Write
  summary : Bool → Write
  status : SessionStatus → EndReason → Write
  classroom : Bool → Write

pub record Runner : Type 0 where
  pub session : DiscussionSession
  -- `plane.mixer.floor_holder`
  pub plane_floor : Option Uuid
  pub timers : Timers
  pub speech : Option Speech
  pub pending_target : Option Uuid
  pub nudged : Option Uuid
  pub folded_upto : ℕ
  pub finished : Bool
  pub end_reason : Option EndReason
  pub queue : List Command
  pub published : List Event
  pub writes : List Write

abbrev pub no_timers : Timers
no_timers = record { join = none; silence = none; cap = none; cap_grace = none }

-- `SessionRunner(session=…)`
unfoldable pub new_runner : DiscussionSession → Runner
new_runner s = record {
  session = s;
  plane_floor = none;
  timers = no_timers;
  speech = none;
  pending_target = none;
  nudged = none;
  folded_upto = 0;
  finished = false;
  end_reason = none;
  queue = [];
  published = [];
  writes = [];
}

abbrev pub queue_size : ℕ
queue_size = 64

-- A full queue drops the command.
unfoldable pub submit : Command → Runner → Runner
submit c r = if ltb (length r.queue) queue_size then record r { queue = r.queue ++ c ∷ [] } else r

unfoldable pub publish : Event → Runner → Runner
publish e r = record r { published = r.published ++ e ∷ [] }

unfoldable pub write : Write → Runner → Runner
write w r = record r { writes = r.writes ++ w ∷ [] }

unfoldable pub set_timer : TimerName → Option Timer → Timers → Timers
set_timer TimerName.join t ts = record ts { join = t }
set_timer TimerName.silence t ts = record ts { silence = t }
set_timer TimerName.cap t ts = record ts { cap = t }
set_timer TimerName.cap_grace t ts = record ts { cap_grace = t }

unfoldable pub cancel_timer : TimerName → Runner → Runner
unfolding set_timer
cancel_timer name r = record r { timers = set_timer name none r.timers }

unfoldable pub arm : TimerName → ℕ → Command → Runner → Runner
unfolding set_timer
arm name delay_ms command r = record r {
  timers = set_timer name (some (record { delay_ms = delay_ms; command = command })) r.timers;
}

unfoldable pub cancel_all_timers : Runner → Runner
cancel_all_timers r = record r { timers = no_timers }

-- The running task is cancelled; the sound that is left in the mixer is the mixer's part.
unfoldable pub interrupt : Runner → Runner
interrupt r = record r { speech = none }

-- The prompt that is sent to the model is not part of the state.
unfoldable pub speak : TurnKind → Runner → Runner
unfolding interrupt
speak kind r = record (interrupt r) {
  speech = some (record { kind = kind; script = none; done = false });
}

unfoldable pub say : TurnKind → Text → Runner → Runner
unfolding interrupt
say kind text r = record (interrupt r) {
  speech = some (record { kind = kind; script = some text; done = false });
}

-- The moderator's state alone.
abbrev pub set_moderator : ModeratorState → Runner → Runner
set_moderator m r = record r { session = record (r.session) { moderator_state = m } }

abbrev pub set_status : SessionStatus → Runner → Runner
set_status st r = record r { session = record (r.session) { status = st } }
