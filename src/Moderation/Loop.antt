-- ===== src/Moderation/Loop.antt =====
-- The dispatch on commands, the main loop, the teardown, and the tasks beside the loop that post
-- commands: timers and speech (backend/app/modules/moderation/runner.py).
use gd_classroom.Prelude.{
  ℕ, Bool, true, false, not, Option, none, some, List, [], ◌∷◌, if◌then◌else◌, Text, ◌++◌, codes,
}
use mathlib.Core.Option
use gd_classroom.Domain.Enums.{EndReason, SessionStatus, TurnKind}
use gd_classroom.Domain.Session.{elapsed_seconds, wipe}
use gd_classroom.Moderation.Commands.{Command, Event}
use gd_classroom.Moderation.State.{
  Setup, World, Moment, Runner, TimerName, Timer, Timers, Speech, Write, submit, publish, write,
  cancel_all_timers, arm, interrupt, set_status, set_timer,
}
use gd_classroom.Moderation.Turns.{begin_closing}
use gd_classroom.Moderation.Handlers.{
  Outcome, returned, raised, on_connected, on_disconnected, on_join_expired, on_spoke,
}
use gd_classroom.Moderation.Answers.{
  on_release, on_hard_cap, on_speech_started, on_partial, on_silence, on_answer, on_nobody,
}

-- `_SCRIPTED_FALLBACK.get(kind, "")`
abbrev pub scripted_fallback : TurnKind → Text
scripted_fallback TurnKind.intro = codes "Welcome everyone. Let's begin today's discussion."
scripted_fallback TurnKind.rules =
    codes "One person speaks at a time and I will say whose turn it is. "
    ++ codes "Everyone will get an equal share."
scripted_fallback TurnKind.question = codes "Over to you — what is your take on this?"
scripted_fallback TurnKind.follow_up = codes "Could you say a little more about that?"
scripted_fallback TurnKind.nudge = codes "Would you like a moment, or shall I move on?"
scripted_fallback TurnKind.closing =
    codes "That is where we will stop. Thank you all for taking part."
scripted_fallback TurnKind.answer = []

abbrev pub is_aborted : SessionStatus → Bool
is_aborted SessionStatus.aborted = true
is_aborted _ = false

-- What the main loop does with the end of a handler.
unfoldable pub settle : Outcome → Runner
unfolding publish
settle (returned r) = r
settle (raised r) = publish Event.moderator_error r

-- `run` up to its loop.
unfoldable pub start : Setup → Runner → Runner
unfolding publish arm
start setup r =
    arm TimerName.join setup.session_join_window_ms Command.join_window_expired (
      publish (Event.session_state SessionStatus.connecting)
        (set_status SessionStatus.connecting r))

-- `get_nowait` of the queue.
abbrev pub take_command : List Command → Option (Command × List Command)
take_command [] = none
take_command (c ∷ cs) = some (c, cs)

abbrev pub timer_of : TimerName → Timers → Option Timer
timer_of TimerName.join ts = ts.join
timer_of TimerName.silence ts = ts.silence
timer_of TimerName.cap ts = ts.cap
timer_of TimerName.cap_grace ts = ts.cap_grace

abbrev pub fire_with : TimerName → Option Timer → Runner → Runner
fire_with name none r = r
fire_with name (some t) r = submit t.command (record r { timers = set_timer name none r.timers })

-- A timer whose delay is over takes itself out of the dict and posts its command.
unfoldable pub fire : TimerName → Runner → Runner
unfolding submit set_timer
fire name r = fire_with name (timer_of name r.timers) r

-- The words that a speech ends with: fixed ones, or what the model produced, with the fallback if it
-- produced nothing.
abbrev pub spoken_text : Speech → Text → Text
spoken_text s generated = elim s.script [ none ↦ generated | some text ↦ text ]

abbrev pub finish_with : Option Speech → Text → ℕ → Runner → Runner
finish_with none generated duration_ms r = r
finish_with (some s) generated duration_ms r =
    if s.done
    then r
    else submit (Command.moderator_finished_speaking s.kind (spoken_text s generated) duration_ms)
        (record r { speech = some (record s { done = true }) })

-- The end of `_say_task` and of `_speak_task`, after which the task is done.
unfoldable pub finish_speech : Text → ℕ → Runner → Runner
unfolding submit
finish_speech generated duration_ms r = finish_with r.speech generated duration_ms r

module _ (setup : Setup) (world : World) where
  unfoldable pub handle : Command → Runner → Outcome
  handle (Command.participant_connected u) r = on_connected setup world u r
  handle (Command.participant_disconnected u) r = returned (on_disconnected setup world u r)
  handle Command.join_window_expired r = on_join_expired setup world r
  handle (Command.speech_started u) r = returned (on_speech_started setup world u r)
  handle (Command.transcript_partial u text) r = returned (on_partial setup world u text r)
  handle (Command.utterance_final u text forced) r =
      returned (on_answer setup world u text forced r)
  handle Command.nobody_final r = returned (on_nobody setup world r)
  handle (Command.floor_released u) r = returned (on_release u r)
  handle (Command.silence_timeout index) r = returned (on_silence setup world index r)
  handle (Command.turn_hard_cap index) r = returned (on_hard_cap index r)
  handle (Command.moderator_finished_speaking kind text duration_ms) r =
      on_spoke setup world kind text duration_ms r
  handle (Command.moderator_speech_failed kind error) r =
      on_spoke setup world kind (scripted_fallback kind) 0 r
  handle (Command.end_session_requested reason) r = returned (begin_closing reason r)

  -- One round of the loop: nothing once the runner has finished or while the queue is empty.
  abbrev pub round_with : Option (Command × List Command) → Runner → Runner
  round_with none r = r
  round_with (some (c, rest)) r = settle (handle c (record r { queue = rest }))

  unfoldable pub round : Runner → Runner
  unfolding handle settle
  round r = if r.finished then r else round_with (take_command r.queue) r

  -- `_end_reason`, or what the status says.
  abbrev pub reason_of : Runner → EndReason
  reason_of r =
      Option.get_or r.end_reason
        (if is_aborted r.session.status then EndReason.fatal_error else EndReason.completed)

  -- A failing write ends the writes of the teardown, and nothing else.
  abbrev pub final_writes : Runner → Runner
  final_writes r =
      let aborted = is_aborted r.session.status in
      let r' : Runner = if aborted then r else record r {
        session = record (r.session) { ended_at = some (world.now Moment.ending) };
      } in
      let status : SessionStatus = if aborted then SessionStatus.aborted else SessionStatus.ended in
      let marked = write (Write.status status (reason_of r)) r' in
      if not world.mark_status_returns
      then r'
      else if not world.complete_returns
      then marked
      else write (Write.classroom aborted) marked

  -- The bus then drops the topic of the session, which is no part of the state of the runner.
  unfoldable pub teardown : Runner → Runner
  unfolding cancel_all_timers interrupt write publish wipe elapsed_seconds
  teardown r =
      let quiet = interrupt (cancel_all_timers r) in
      let written = final_writes quiet in
      let told =
        publish
          (Event.session_ended (reason_of r)
            (elapsed_seconds (world.now Moment.ending) written.session)
            (is_aborted r.session.status))
          written in
      record told { session = wipe told.session; finished = true }

-- What may happen to a live discussion: a round of the loop, a timer that fires, a speech that ends,
-- a command from outside.
pub data Step (setup : Setup) : Type 0 where
  rounds : World → Step setup
  fires : TimerName → Step setup
  speech_ends : Text → ℕ → Step setup
  arrives : Command → Step setup

unfoldable pub step : (setup : Setup) → Step setup → Runner → Runner
unfolding round fire finish_speech submit
step setup (rounds w) r = round setup w r
step setup (fires name) r = fire name r
step setup (speech_ends text duration_ms) r = finish_speech text duration_ms r
step setup (arrives c) r = submit c r

unfoldable pub steps : (setup : Setup) → List (Step setup) → Runner → Runner
unfolding step
steps setup [] r = r
steps setup (s ∷ ss) r = steps setup ss (step setup s r)
