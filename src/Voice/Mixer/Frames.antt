-- ===== src/Voice/Mixer/Frames.antt =====
-- What a frame plays, and what it leaves to hear (backend/app/modules/voice/mixer.py).
use gd_classroom.Prelude.{
  ℕ, ◌+◌, ◌-◌, ◌≡◌, refl, sym, ap, ◌∙◌, inl, inr, true, false, Option, none, some, if◌then◌else◌,
  ltb, leb, leb→le, ◌==◌, Option-cases, length, length-drop, holds_id, take, drop, drop-drop,
  Bool-cases, get, get-modify, modify, Text, Uuid, arith,
}
use mathlib.Core.Option
use gd_classroom.Voice.Mixer.Queue.{
  unheard, unheard_of, drop-all, trim-unheard, take_frame-position,
}
use gd_classroom.Voice.Mixer.{
  Cursor, SessionMixer, bytes_per_frame, silence, padded, mixed, max_lag_bytes, take_frame, Audioop,
  read_at, read_frame,
}

-- The first frame of some audio, filled up with silence.
abbrev pub next_frame : Text → Text
next_frame audio = padded (take bytes_per_frame audio)

-- Of live audio that has waited too long only the end is played.
abbrev pub newest : Text → Text
newest audio =
    if ltb max_lag_bytes (length audio) then drop (length audio - bytes_per_frame) audio else audio

take_frame-next :
    (buffer : Text) (position : ℕ)
    → (take_frame false buffer position).0 ≡ next_frame (drop position buffer)
unfolding take_frame silence
take_frame-next buffer position = elim (Bool-cases (leb (length buffer) position)) [
  | inl t ↦
      let gone = drop-all position buffer (leb→le (length buffer) position t) in
      rw t (sym (ap next_frame gone))
  | inr t ↦ rw t refl
]

take_frame-newest :
    (buffer : Text) (position : ℕ)
    → (take_frame true buffer position).0 ≡ next_frame (newest (drop position buffer))
unfolding take_frame silence
take_frame-newest buffer position = elim (Bool-cases (leb (length buffer) position)) [
  | inl t ↦
      let gone = drop-all position buffer (leb→le (length buffer) position t) in
      rw t (sym (ap (λ q. next_frame (newest q)) gone))
  | inr t ↦
      let waiting = length-drop position buffer in
      elim (Bool-cases (ltb max_lag_bytes (length buffer - position))) [
        | inl lag ↦
            let end : position + (length buffer - position - bytes_per_frame)
                ≡ length buffer - bytes_per_frame =
              ground (arith, lag) in
            rw (t, waiting, lag)
              (ap next_frame (
                sym (
                  drop-drop (length buffer - position - bytes_per_frame) position buffer
                  ∙ ap (λ i. drop i buffer) end)))
        | inr lag ↦ rw (t, waiting, lag) refl
      ]
]

module _ (audioop : Audioop) where
  read_nobody :
      (u : Uuid) (m : SessionMixer)
      → get u.value m.cursors ≡ none
      → read_frame audioop u m ≡ (silence, m)
  unfolding read_frame
  read_nobody u m e =
      ap (λ (o : Option Cursor). elim o [ none ↦ (silence, m) | some c ↦ read_at audioop u c m ]) e

  read_peer :
      (u : Uuid) (c : Cursor) (m : SessionMixer)
      → get u.value m.cursors ≡ some c
      → read_frame audioop u m ≡ read_at audioop u c m
  unfolding read_frame
  read_peer u c m e =
      ap (λ (o : Option Cursor). elim o [ none ↦ (silence, m) | some b ↦ read_at audioop u b m ]) e

  -- The cursors of a peer that has read a frame, and of the others.
  moved-unheard :
      (u : Uuid) (k : ℕ) (c : Cursor) (human : ℕ) (m : SessionMixer)
      → get u.value m.cursors ≡ some c
      → let heard = (take_frame false m.moderator c.moderator).1 in
        let moved : Cursor = record { moderator = heard; human = human } in
        unheard_of m.moderator (get k (modify u.value (λ b. moved) m.cursors))
        ≡ (if k == u.value then Option.map (drop bytes_per_frame) (unheard k m) else unheard k m)
  unfolding unheard_of
  moved-unheard u k c human m e =
      ap (unheard_of m.moderator) (get-modify k u.value _ m.cursors)
      ∙ elim (Bool-cases (k == u.value)) [
        | inl t ↦
            let same : k ≡ u.value = ground (arith, t) in
            let found : get k m.cursors ≡ some c = ap (λ i. get i m.cursors) same ∙ e in
            rw (t, found) (ap some (take_frame-position m.moderator c.moderator))
        | inr t ↦ rw t
      ]

  moved :
      (u : Uuid) (k : ℕ) (m : SessionMixer)
      → unheard k (read_frame audioop u m).1
        ≡ (if k == u.value then Option.map (drop bytes_per_frame) (unheard k m) else unheard k m)
  unfolding unheard_of
  moved u k m = elim (Option-cases (get u.value m.cursors)) [
    | inl e ↦ ap (λ p. unheard k p.1) (read_nobody u m e) ∙ elim (Bool-cases (k == u.value)) [
      | inl t ↦
          let same : k ≡ u.value = ground (arith, t) in
          let nobody : get k m.cursors ≡ none = ap (λ i. get i m.cursors) same ∙ e in rw (t, nobody)
      | inr t ↦ rw t
    ]
    | inr (c, e) ↦
        ap (λ p. unheard k p.1) (read_peer u c m e)
        ∙ trim-unheard k _
        ∙ moved-unheard u k c (take_frame true m.human c.human).1 m e
  ]

  abbrev spoken : Uuid → SessionMixer → Option Cursor → Text
  spoken u m o = elim o [
    | none ↦ silence
    | some c ↦
        mixed audioop (next_frame (drop c.moderator m.moderator)) (
          if holds_id u m.floor_holder then silence else next_frame (newest (drop c.human m.human)))
  ]

  -- What a peer hears of a cursor's two queues.
  heard_by :
      (u : Uuid) (c : Cursor) (m : SessionMixer)
      → (read_at audioop u c m).0
        ≡ mixed audioop (next_frame (drop c.moderator m.moderator)) (
            if holds_id u m.floor_holder
            then silence
            else next_frame (newest (drop c.human m.human)))
  heard_by u c m =
      ap
        (λ a.
          mixed audioop a
            (if holds_id u m.floor_holder then silence else (take_frame true m.human c.human).0))
        (take_frame-next m.moderator c.moderator)
      ∙ ap
          (λ a.
            mixed audioop (next_frame (drop c.moderator m.moderator))
              (if holds_id u m.floor_holder then silence else a))
          (take_frame-newest m.human c.human)

  -- A frame for one peer plays, mixed, the next 1920 bytes of the moderator's audio that this peer has
  -- still to hear, and the next 1920 of the live speech, which the speaker does not hear and of which
  -- a peer that is more than 96000 bytes behind gets the last 1920; what is missing is silence, and a
  -- peer that is not attached hears nothing else. Of the moderator's audio the frame is taken from this
  -- peer's queue, and the queues of all others stay: no peer ever skips any of it.
  pub read_frame-unheard :
      (u : Uuid) (k : ℕ) (m : SessionMixer)
      → ((read_frame audioop u m).0 ≡ elim (get u.value m.cursors) [
        | none ↦ silence
        | some c ↦ mixed audioop (next_frame (drop c.moderator m.moderator)) (
            if holds_id u m.floor_holder
            then silence
            else next_frame (newest (drop c.human m.human)))
      ])
        × (unheard k (read_frame audioop u m).1 ≡ (
            if k == u.value then Option.map (drop bytes_per_frame) (unheard k m) else unheard k m))
  read_frame-unheard u k m = (
    elim (Option-cases (get u.value m.cursors)) [
      | inl e ↦ ap (λ p. p.0) (read_nobody u m e) ∙ sym (ap (λ o. spoken u m o) e)
      | inr (c, e) ↦
          ap (λ p. p.0) (read_peer u c m e) ∙ heard_by u c m ∙ sym (ap (λ o. spoken u m o) e)
    ],
    moved u k m,
  )
