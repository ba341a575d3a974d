-- ===== src/Moderation/Behaviour/Stuck.antt =====
-- A discussion whose transcript could not be stored: it neither ends nor can be ended.
use mathlib.Core.Path.{subst}
use gd_classroom.Prelude.{
  ℕ, ◌≡◌, refl, sym, ap, ◌∙◌, inl, inr, Bool, true, false, not, ◌&&◌, ◌||◌, Option, none, some,
  List, [], ◌∷◌, ◌++◌, if◌then◌else◌, is_nonempty, Bool-cases, ltb, length, All, Text, Uuid,
  holds_id, ◌==◌,
}
use gd_classroom.Domain.Enums.{ModeratorState, SessionStatus, TurnKind}
use gd_classroom.Domain.Session.{record_turn, mark_disconnected}
use gd_classroom.Domain.Session.Roster.{Mark, connect, disconnect, apply_mark, apply_mark_frame}
use gd_classroom.Moderation.Commands.{Command}
use gd_classroom.Moderation.State.{
  Setup, World, Moment, Runner, Timers, TimerName, Speech, no_timers, queue_size, publish, submit,
}
use gd_classroom.Moderation.Turns.{is_connecting, is_closing, begin_closing}
use gd_classroom.Moderation.Handlers.{
  returned, set_session, on_connected, on_disconnected, on_join_expired, summarize, record_line,
  after_line, on_spoke,
}
use gd_classroom.Moderation.Answers.{
  is_listening, is_speaking, is_stale, on_release, on_hard_cap, on_speech_started, on_partial,
  on_silence, on_answer,
}
use gd_classroom.Moderation.Loop.{
  settle, handle, take_command, round_with, round, fire, fire_with, timer_of, finish_speech,
  finish_with, Step, rounds, fires, speech_ends, arrives, step, steps,
}

-- The commands that do not come from the moderator's own speech, or from the cap on a turn that
-- nobody has.
abbrev pub is_outside : Command → Bool
is_outside Command.nobody_final = false
is_outside (Command.moderator_finished_speaking kind text duration_ms) = false
is_outside (Command.moderator_speech_failed kind error) = false
is_outside _ = true

abbrev pub is_silent : Option Speech → Bool
is_silent none = true
is_silent (some s) = s.done

record Stuck (finished : Bool) (status : SessionStatus) (state : ModeratorState)
    (holder : Option Uuid) (timers : Timers) (speech : Option Speech) (queue : List Command)
    : Type 0 where
  going : finished ≡ false
  summing : status ≡ SessionStatus.summarizing
  closed : state ≡ ModeratorState.summarizing
  free : holder ≡ none
  untimed : timers ≡ no_timers
  silent : is_silent speech ≡ true
  outside : All (λ c. is_outside c ≡ true) queue

abbrev IsStuck : Runner → Type 0
IsStuck r =
    Stuck r.finished r.session.status r.session.moderator_state r.session.floor_holder r.timers
      r.speech r.queue

marked-IsStuck :
    (m : Mark) (r : Runner) → IsStuck r → IsStuck (set_session (apply_mark m r.session) r)
marked-IsStuck m r h =
    subst (λ s. IsStuck (set_session s r)) (sym (apply_mark_frame m r.session))
      (record {
        going = h.going;
        summing = h.summing;
        closed = h.closed;
        free = h.free;
        untimed = h.untimed;
        silent = h.silent;
        outside = h.outside;
      })

All-append :
    (q : List Command) (c : Command)
    → is_outside c ≡ true
    → All (λ d. is_outside d ≡ true) q
    → All (λ d. is_outside d ≡ true) (q ++ c ∷ [])
All-append [] c e h = (e, tt)
All-append (d ∷ q) c e h = (h.0, All-append q c e h.1)

submit-IsStuck : (c : Command) (r : Runner) → is_outside c ≡ true → IsStuck r → IsStuck (submit c r)
unfolding submit
submit-IsStuck c r e h = elim (Bool-cases (ltb (length r.queue) queue_size)) [
  | inl t ↦ rw t (record {
    going = h.going;
    summing = h.summing;
    closed = h.closed;
    free = h.free;
    untimed = h.untimed;
    silent = h.silent;
    outside = All-append r.queue c e h.outside;
  })
  | inr t ↦ rw t h
]

then-IsStuck : (b : Bool) (x y : Runner) → b ≡ true → IsStuck x → IsStuck (if b then x else y)
then-IsStuck b x y e h = rw e h

else-IsStuck : (b : Bool) (x y : Runner) → b ≡ false → IsStuck y → IsStuck (if b then x else y)
else-IsStuck b x y e h = rw e h

or-true : (a b : Bool) → b ≡ true → (a || b) ≡ true
or-true true b e = refl
or-true false b e = e

stale : (index : ℕ) (r : Runner) → IsStuck r → is_stale index r ≡ true
stale index r h =
    or-true (not (index == r.session.turn_index)) (not (is_listening r.session.moderator_state))
      (rw h.closed)

module _ (setup : Setup) (world : World) where
  on_connected-IsStuck :
      (u : Uuid) (r : Runner) → IsStuck r → IsStuck (settle (on_connected setup world u r))
  unfolding settle on_connected publish apply_mark
  on_connected-IsStuck u r h =
      let k = marked-IsStuck (connect (world.now Moment.connecting) u) r h in rw k.summing k

  on_disconnected-IsStuck :
      (u : Uuid) (r : Runner) → IsStuck r → IsStuck (on_disconnected setup world u r)
  unfolding on_disconnected publish apply_mark mark_disconnected
  on_disconnected-IsStuck u r h =
      let k = marked-IsStuck (disconnect (world.now Moment.leaving) u) r h in rw k.summing k

  on_join_expired-IsStuck :
      (r : Runner) → IsStuck r → IsStuck (settle (on_join_expired setup world r))
  unfolding on_join_expired settle
  on_join_expired-IsStuck r h = subst (λ o. IsStuck (settle o)) (sym (skipped r (rw h.summing))) h
    where
      skipped :
          (r : Runner)
          → is_connecting r.session.status ≡ false
          → on_join_expired setup world r ≡ returned r
      skipped r e = rw e

  handle-IsStuck :
      (c : Command) (r : Runner)
      → is_outside c ≡ true
      → IsStuck r
      → IsStuck (settle (handle setup world c r))
  unfolding settle handle on_speech_started on_partial on_answer on_release on_silence on_hard_cap
      begin_closing
  handle-IsStuck (Command.participant_connected u) r e h = on_connected-IsStuck u r h
  handle-IsStuck (Command.participant_disconnected u) r e h = on_disconnected-IsStuck u r h
  handle-IsStuck Command.join_window_expired r e h = on_join_expired-IsStuck r h
  handle-IsStuck (Command.speech_started u) r e h =
      else-IsStuck (is_listening r.session.moderator_state) _ _ (rw h.closed) (
        else-IsStuck (is_speaking r.session.moderator_state && holds_id u r.pending_target) _ r
          (rw h.closed) h)
  handle-IsStuck (Command.transcript_partial u text) r e h =
      then-IsStuck (not (holds_id u r.session.floor_holder) || not (is_nonempty text)) r _
        (rw h.free) h
  handle-IsStuck (Command.utterance_final u text forced) r e h =
      then-IsStuck (not (holds_id u r.session.floor_holder)) r _ (rw h.free) h
  handle-IsStuck Command.nobody_final r e h = cc
  handle-IsStuck (Command.floor_released u) r e h =
      else-IsStuck (holds_id u r.session.floor_holder) _ r (rw h.free) h
  handle-IsStuck (Command.silence_timeout index) r e h =
      then-IsStuck (is_stale index r) r _ (stale index r h) h
  handle-IsStuck (Command.turn_hard_cap index) r e h =
      then-IsStuck (is_stale index r) r _ (stale index r h) h
  handle-IsStuck (Command.moderator_finished_speaking kind text ms) r e h = cc
  handle-IsStuck (Command.moderator_speech_failed kind error) r e h = cc
  handle-IsStuck (Command.end_session_requested reason) r e h =
      then-IsStuck (is_closing r.session.moderator_state) r _ (rw h.closed) h

  round_with-IsStuck :
      (q : List Command) (r : Runner)
      → r.queue ≡ q
      → IsStuck r
      → IsStuck (round_with setup world (take_command q) r)
  round_with-IsStuck [] r e h = h
  round_with-IsStuck (c ∷ rest) r e h =
      let outside = subst (All (λ d. is_outside d ≡ true)) e h.outside in
      handle-IsStuck c (record r { queue = rest }) outside.0
        (record {
          going = h.going;
          summing = h.summing;
          closed = h.closed;
          free = h.free;
          untimed = h.untimed;
          silent = h.silent;
          outside = outside.1;
        })

  round-IsStuck : (r : Runner) → IsStuck r → IsStuck (round setup world r)
  unfolding round
  round-IsStuck r h = else-IsStuck r.finished r _ h.going (round_with-IsStuck r.queue r refl h)

no_timer : (name : TimerName) → timer_of name no_timers ≡ none
no_timer TimerName.join = refl
no_timer TimerName.silence = refl
no_timer TimerName.cap = refl
no_timer TimerName.cap_grace = refl

fire-IsStuck : (name : TimerName) (r : Runner) → IsStuck r → IsStuck (fire name r)
unfolding fire
fire-IsStuck name r h =
    subst (λ o. IsStuck (fire_with name o r)) (sym (ap (timer_of name) h.untimed ∙ no_timer name)) h

finish_with-IsStuck :
    (o : Option Speech) (text : Text) (duration_ms : ℕ) (r : Runner)
    → is_silent o ≡ true
    → IsStuck r
    → IsStuck (finish_with o text duration_ms r)
finish_with-IsStuck none text duration_ms r e h = h
finish_with-IsStuck (some s) text duration_ms r e h = then-IsStuck s.done r _ e h

module _ (setup : Setup) where
  -- A step that brings no command of the moderator's own.
  abbrev pub Outside : Step setup → Type 0
  Outside (arrives c) = is_outside c ≡ true
  Outside _ = Unit

  step-IsStuck : (x : Step setup) (r : Runner) → Outside x → IsStuck r → IsStuck (step setup x r)
  unfolding step finish_speech
  step-IsStuck (rounds w) r o h = round-IsStuck setup w r h
  step-IsStuck (fires name) r o h = fire-IsStuck name r h
  step-IsStuck (speech_ends text ms) r o h = finish_with-IsStuck r.speech text ms r h.silent h
  step-IsStuck (arrives c) r o h = submit-IsStuck c r o h

  steps-IsStuck :
      (xs : List (Step setup)) (r : Runner)
      → All Outside xs
      → IsStuck r
      → IsStuck (steps setup xs r)
  unfolding steps
  steps-IsStuck [] r o h = h
  steps-IsStuck (x ∷ xs) r o h = steps-IsStuck xs _ o.1 (step-IsStuck x r o.0 h)

  -- A line of the moderator keeps what the end of a discussion reads.
  record_line-rest :
      (world : World) (kind : TurnKind) (text : Text) (duration_ms : ℕ) (r : Runner)
      → let line = record_line setup world kind text duration_ms r in
        (line.finished ≡ r.finished)
        × (line.session.floor_holder ≡ r.session.floor_holder)
        × (line.timers ≡ r.timers)
        × (line.speech ≡ r.speech)
        × (line.queue ≡ r.queue)
  unfolding record_line publish record_turn
  record_line-rest world kind text duration_ms r = elim (Bool-cases (is_nonempty text)) [
    | inl e ↦ rw e (refl, refl, refl, refl, refl)
    | inr e ↦ rw e (refl, refl, refl, refl, refl)
  ]

  -- What the end of the closing words leaves when the transcript cannot be stored.
  flush_failure-IsStuck :
      (world : World) (r : Runner)
      → world.flush_returns ≡ false
      → r.finished ≡ false
      → r.session.floor_holder ≡ none
      → r.timers ≡ no_timers
      → is_silent r.speech ≡ true
      → All (λ c. is_outside c ≡ true) r.queue
      → IsStuck (settle (summarize setup world r))
  unfolding settle summarize publish
  flush_failure-IsStuck world r e going free untimed silent outside = rw e (record {
    going = going;
    summing = refl;
    closed = refl;
    free = free;
    untimed = untimed;
    silent = silent;
    outside = outside;
  })

  -- When storing the transcript fails at the end of the closing words, with nobody on the floor, no
  -- timer, the speech done and no command of the moderator's own in the queue, the runner never
  -- finishes: not after any rounds, timers, ends of speech and arrivals of other commands, requests
  -- to end the discussion included.
  pub flush_failure_hangs :
      (world : World) (text : Text) (duration_ms : ℕ) (r : Runner) (xs : List (Step setup))
      → world.flush_returns ≡ false
      → r.finished ≡ false
      → r.session.floor_holder ≡ none
      → r.timers ≡ no_timers
      → is_silent r.speech ≡ true
      → All (λ c. is_outside c ≡ true) r.queue
      → All Outside xs
      → let stored = settle (
          handle setup world
            (Command.moderator_finished_speaking TurnKind.closing text duration_ms)
            r) in
        (steps setup xs stored).finished ≡ false
  unfolding settle handle on_spoke after_line
  flush_failure_hangs world text duration_ms r xs e going free untimed silent outside o =
      let line = record_line setup world TurnKind.closing text duration_ms r in
      let (a, b, c, d, f) = record_line-rest world TurnKind.closing text duration_ms r in
      let stored =
        flush_failure-IsStuck world line e (a ∙ going) (b ∙ free) (c ∙ untimed)
          (ap is_silent d ∙ silent) (subst (All (λ k. is_outside k ≡ true)) (sym f) outside) in
      (steps-IsStuck xs (settle (summarize setup world line)) o stored).going
