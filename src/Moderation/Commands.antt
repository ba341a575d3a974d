-- ===== src/Moderation/Commands.antt =====
-- What reaches the session runner and what it sends out: the commands of
-- backend/app/modules/moderation/commands.py, and the events that the runner's loop publishes with their
-- payloads (types from backend/app/domain/events.py).
use gd_classroom.Prelude.{ℕ, Bool, Option, List, Text, Uuid}
use gd_classroom.Domain.Enums.{EndReason, SessionStatus, SummaryStatus, TurnKind}
use gd_classroom.Domain.Ledger.{SpeakingTime}
use gd_classroom.Domain.Privacy.{PersonalInfoKind}

pub data Command : Type 0 where
  participant_connected participant_disconnected : Uuid → Command
  join_window_expired : Command
  speech_started : Uuid → Command
  transcript_partial : Uuid → Text → Command
  -- `user_id`, `text`, `forced`
  utterance_final : Uuid → Text → Bool → Command
  -- `UtteranceFinal(None, "", forced=True)`, which the cap on a turn posts with nobody on the floor.
  nobody_final : Command
  floor_released : Uuid → Command
  silence_timeout turn_hard_cap : ℕ → Command
  -- `kind`, `text`, `duration_ms`
  moderator_finished_speaking : TurnKind → Text → ℕ → Command
  moderator_speech_failed : TurnKind → Text → Command
  end_session_requested : EndReason → Command

-- The payload of `transcript.final`; no speaker is the moderator.
pub record FinalLine : Type 0 where
  pub turn_index : ℕ
  pub participant_id : Option ℕ
  pub display_name : Text
  pub text : Text
  pub kind : TurnKind

-- The events of the loop. `MODERATOR_SPEAKING` and `MODERATOR_INTERRUPTED`, which the speech tasks publish
-- beside it, are left out here and in what a runner has published.
pub data Event : Type 0 where
  session_state : SessionStatus → Event
  -- `participant_id`, `display_name`, `connected`, `expected`
  participant_connected : ℕ → Text → ℕ → ℕ → Event
  participant_disconnected : ℕ → Text → ℕ → Event
  -- `participant_id`, `display_name`, `kinds`, `connected`
  participant_removed : ℕ → Text → List PersonalInfoKind → ℕ → Event
  moderator_thinking : ℕ → Event
  -- `participant_id`, `display_name`, `max_seconds`, `seconds_to_begin`, `turn_index`
  floor_granted : ℕ → Text → ℕ → ℕ → ℕ → Event
  floor_released : ℕ → Event
  -- `participant_id`, `display_name`, `text`
  transcript_partial : ℕ → Text → Text → Event
  transcript_final : FinalLine → Event
  speaking_time_updated : List SpeakingTime → Event
  session_summary_ready : SummaryStatus → Event
  session_ended : EndReason → ℕ → Bool → Event
  moderator_error : Event
