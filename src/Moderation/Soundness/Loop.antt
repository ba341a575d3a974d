-- ===== src/Moderation/Soundness/Loop.antt =====
-- A live discussion is sound after any rounds of its loop, timers, ends of speech and arrivals of
-- commands, whatever the services outside answer.
use gd_classroom.Prelude.{
  ℕ, ◌≤◌, ◌≡◌, refl, sym, true, Option, none, some, List, [], ◌∷◌, length, Text, arith,
}
use gd_classroom.Domain.Session.{DiscussionSession}
use gd_classroom.Domain.Session.Roster.{IsAligned}
use gd_classroom.Domain.Session.Transcript.{IsRecorded}
use gd_classroom.Moderation.Commands.{Command}
use gd_classroom.Moderation.State.{
  Setup, World, Runner, Timer, TimerName, Speech, queue_size, new_runner, publish,
}
use gd_classroom.Moderation.Handlers.{Outcome, returned, raised}
use gd_classroom.Moderation.Loop.{
  scripted_fallback, settle, start, take_command, timer_of, fire_with, fire, finish_with,
  finish_speech, spoken_text, handle, round_with, round, Step, rounds, fires, speech_ends, arrives,
  step, steps,
}
use gd_classroom.Moderation.Soundness.{IsSound, if-IsSound, begin_closing-IsSound, submit-IsSound}
use gd_classroom.Moderation.Soundness.Handlers.{
  LeavesSound, on_connected-LeavesSound, on_disconnected-IsSound, on_join_expired-LeavesSound,
  on_spoke-LeavesSound,
}
use gd_classroom.Moderation.Soundness.Answers.{
  on_release-IsSound, on_hard_cap-IsSound, on_speech_started-IsSound, on_partial-IsSound,
  on_silence-IsSound, on_answer-IsSound, on_nobody-IsSound,
}

settle-IsSound : (o : Outcome) → LeavesSound o → IsSound (settle o)
unfolding settle publish
settle-IsSound (returned r) h = h
settle-IsSound (raised r) h = h

fire_with-IsSound :
    (name : TimerName) (o : Option Timer) (r : Runner) → IsSound r → IsSound (fire_with name o r)
fire_with-IsSound name none r h = h
fire_with-IsSound name (some t) r h = submit-IsSound t.command _ h

fire-IsSound : (name : TimerName) (r : Runner) → IsSound r → IsSound (fire name r)
unfolding fire
fire-IsSound name r h = fire_with-IsSound name (timer_of name r.timers) r h

finish_with-IsSound :
    (o : Option Speech) (text : Text) (duration_ms : ℕ) (r : Runner)
    → IsSound r
    → IsSound (finish_with o text duration_ms r)
finish_with-IsSound none text duration_ms r h = h
finish_with-IsSound (some s) text duration_ms r h =
    let said : Runner = record r { speech = some (record s { done = true }) } in
    if-IsSound s.done r _ h (
      submit-IsSound (Command.moderator_finished_speaking s.kind (spoken_text s text) duration_ms)
        said h)

finish_speech-IsSound :
    (text : Text) (duration_ms : ℕ) (r : Runner)
    → IsSound r
    → IsSound (finish_speech text duration_ms r)
unfolding finish_speech
finish_speech-IsSound text duration_ms r h = finish_with-IsSound r.speech text duration_ms r h

-- The rest of a queue that was bounded.
rest-IsSound :
    (c : Command) (rest : List Command) (r : Runner)
    → r.queue ≡ c ∷ rest
    → IsSound r
    → IsSound (record r { queue = rest })
rest-IsSound c rest r e h = record {
  floors = h.floors;
  timed = h.timed;
  aligned = h.aligned;
  recorded = h.recorded;
  bounded = rest_bounded r.queue e h.bounded;
}
  where
    rest_bounded :
        (q : List Command) → q ≡ c ∷ rest → length q ≤ queue_size → length rest ≤ queue_size
    rest_bounded q f b = ground (arith, f, b)

module _ (setup : Setup) where
  handle-LeavesSound :
      (world : World) (c : Command) (r : Runner) → IsSound r → LeavesSound (handle setup world c r)
  unfolding handle
  handle-LeavesSound w (Command.participant_connected u) r h =
      on_connected-LeavesSound setup w u r h
  handle-LeavesSound w (Command.participant_disconnected u) r h =
      on_disconnected-IsSound setup w u r h
  handle-LeavesSound w Command.join_window_expired r h = on_join_expired-LeavesSound setup w r h
  handle-LeavesSound w (Command.speech_started u) r h = on_speech_started-IsSound setup w u r h
  handle-LeavesSound w (Command.transcript_partial u text) r h =
      on_partial-IsSound setup w u text r h
  handle-LeavesSound w (Command.utterance_final u text forced) r h =
      on_answer-IsSound setup w u text forced r h
  handle-LeavesSound w Command.nobody_final r h = on_nobody-IsSound setup w r h
  handle-LeavesSound w (Command.floor_released u) r h = on_release-IsSound u r h
  handle-LeavesSound w (Command.silence_timeout index) r h = on_silence-IsSound setup w index r h
  handle-LeavesSound w (Command.turn_hard_cap index) r h = on_hard_cap-IsSound index r h
  handle-LeavesSound w (Command.moderator_finished_speaking kind text ms) r h =
      on_spoke-LeavesSound setup w kind text ms r h
  handle-LeavesSound w (Command.moderator_speech_failed kind error) r h =
      on_spoke-LeavesSound setup w kind (scripted_fallback kind) 0 r h
  handle-LeavesSound w (Command.end_session_requested reason) r h = begin_closing-IsSound reason r h

  round_with-IsSound :
      (w : World) (q : List Command) (r : Runner)
      → r.queue ≡ q
      → IsSound r
      → IsSound (round_with setup w (take_command q) r)
  round_with-IsSound w [] r e h = h
  round_with-IsSound w (c ∷ rest) r e h =
      settle-IsSound (handle setup w c (record r { queue = rest }))
        (handle-LeavesSound w c (record r { queue = rest }) (rest-IsSound c rest r e h))

  round-IsSound : (w : World) (r : Runner) → IsSound r → IsSound (round setup w r)
  unfolding round
  round-IsSound w r h = if-IsSound r.finished r _ h (round_with-IsSound w r.queue r refl h)

  step-IsSound : (x : Step setup) (r : Runner) → IsSound r → IsSound (step setup x r)
  unfolding step
  step-IsSound (rounds w) r h = round-IsSound w r h
  step-IsSound (fires name) r h = fire-IsSound name r h
  step-IsSound (speech_ends text ms) r h = finish_speech-IsSound text ms r h
  step-IsSound (arrives c) r h = submit-IsSound c r h

  -- From a sound runner, any sequence of rounds, timers, ends of speech and arrivals ends sound.
  pub steps-IsSound : (xs : List (Step setup)) (r : Runner) → IsSound r → IsSound (steps setup xs r)
  unfolding steps
  steps-IsSound [] r h = h
  steps-IsSound (x ∷ xs) r h = steps-IsSound xs (step setup x r) (step-IsSound x r h)

  -- A runner that starts on a session with nobody on the floor, an aligned roster and a numbered
  -- transcript is sound after any steps: the voice plane forwards exactly the holder of the floor, the
  -- floor has a time of granting while somebody holds it, the roster agrees with the ledger, the
  -- transcript is numbered from 1 with its end in the recent turns, and the queue is bounded.
  pub start-IsSound :
      (xs : List (Step setup)) (s : DiscussionSession)
      → s.floor_holder ≡ none
      → s.floor_granted_at ≡ none
      → IsAligned s
      → IsRecorded s
      → IsSound (steps setup xs (start setup (new_runner s)))
  unfolding start new_runner
  start-IsSound xs s free untimed aligned recorded =
      steps-IsSound xs (start setup (new_runner s)) (record {
        floors = sym free;
        timed = rw (free, untimed);
        aligned = aligned;
        recorded = recorded;
        bounded = ground arith;
      })
