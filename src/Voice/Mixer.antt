-- ===== src/Voice/Mixer.antt =====
-- The audio mixer of backend/app/modules/voice/mixer.py. Bytes are numbers; `audioop`, which is not
-- part of the repository, is a parameter.
pub mod Queue
pub mod Frames
use gd_classroom.Prelude.{
  ℕ, zero, suc, ◌+◌, ◌-◌, ◌*◌, ◌/◌, min, Bool, true, false, ◌&&◌, Option, none, some, List, [], ◌∷◌,
  ◌++◌, map, if◌then◌else◌, ltb, leb, ◌==◌, length, take, drop, is_nonempty, Dict, get, put, modify,
  remove, values, Text, text_eq, Uuid, holds_id,
}

abbrev pub sample_rate : ℕ
sample_rate = 48000

abbrev pub bytes_per_frame : ℕ
bytes_per_frame = 1920

abbrev pub zeros : ℕ → Text
zeros zero = []
zeros (suc n) = 0 ∷ zeros n

unfoldable pub silence : Text
silence = zeros bytes_per_frame

abbrev pub max_lag_bytes : ℕ
max_lag_bytes = 96000

-- `audioop.ratecv` from one rate to another, and `audioop.add`.
pub record Audioop : Type 0 where
  pub ratecv : Text → ℕ → ℕ → Text
  pub add : Text → Text → Text

pub record Cursor : Type 0 where
  pub moderator : ℕ
  pub human : ℕ

pub record SessionMixer : Type 0 where
  pub moderator : Text
  pub human : Text
  pub cursors : Dict Cursor
  pub floor_holder : Option Uuid

-- `min(…, default=0)`
abbrev pub least_from : ℕ → List ℕ → ℕ
least_from x [] = x
least_from x (y ∷ ys) = min x (least_from y ys)

abbrev pub min_default : List ℕ → ℕ
min_default [] = 0
min_default (x ∷ xs) = least_from x xs

abbrev pub moderator_marks : SessionMixer → List ℕ
moderator_marks m = map (λ (c : Cursor). c.moderator) (values m.cursors)

abbrev pub human_marks : SessionMixer → List ℕ
human_marks m = map (λ (c : Cursor). c.human) (values m.cursors)

-- A change of every cursor.
abbrev pub each_cursor : (Cursor → Cursor) → Dict Cursor → Dict Cursor
each_cursor f [] = []
each_cursor f ((k, c) ∷ d) = (k, f c) ∷ each_cursor f d

unfoldable pub attach : Uuid → SessionMixer → SessionMixer
attach u m = record m {
  cursors =
      put u.value (record { moderator = length m.moderator; human = length m.human }) m.cursors;
}

-- The two halves of `_trim`, for a mixer with peers.
unfoldable pub trim_moderator : SessionMixer → SessionMixer
trim_moderator m =
    let heard = min_default (moderator_marks m) in
    if ltb (bytes_per_frame * 50) heard
    then record m {
      moderator = drop heard m.moderator;
      cursors = each_cursor (λ c. record c { moderator = c.moderator - heard }) m.cursors;
    }
    else m

unfoldable pub trim_human : SessionMixer → SessionMixer
trim_human m =
    let heard = min_default (human_marks m) in
    if ltb (bytes_per_frame * 50) heard
    then record m {
      human = drop heard m.human;
      cursors = each_cursor (λ c. record c { human = c.human - heard }) m.cursors;
    }
    else m

unfoldable pub trim : SessionMixer → SessionMixer
trim m =
    if is_nonempty m.cursors
    then trim_human (trim_moderator m)
    else record m { moderator = []; human = [] }

unfoldable pub detach : Uuid → SessionMixer → SessionMixer
detach u m = trim (record m { cursors = remove u.value m.cursors })

module _ (audioop : Audioop) where
  abbrev pub resample : Text → ℕ → Text
  resample pcm from_rate =
      if from_rate == sample_rate then pcm else audioop.ratecv pcm from_rate sample_rate

  unfoldable pub push_moderator : Text → ℕ → SessionMixer → SessionMixer
  push_moderator pcm rate m = record m { moderator = m.moderator ++ resample pcm rate }

  unfoldable pub push_human : Text → ℕ → SessionMixer → SessionMixer
  push_human pcm rate m = record m { human = m.human ++ resample pcm rate }

unfoldable pub clear_moderator : SessionMixer → SessionMixer
clear_moderator m =
    let played = min_default (moderator_marks m) in
    record m {
      moderator = drop played m.moderator;
      cursors = each_cursor (λ c. record c { moderator = 0 }) m.cursors;
    }

unfoldable pub moderator_backlog_ms : SessionMixer → ℕ
moderator_backlog_ms m =
    if is_nonempty m.cursors
    then (length m.moderator - min_default (moderator_marks m)) * 1000 / (sample_rate * 2)
    else 0

abbrev pub padded : Text → Text
padded chunk = chunk ++ zeros (bytes_per_frame - length chunk)

-- `_take`: the frame and the new position.
unfoldable pub take_frame : Bool → Text → ℕ → Text × ℕ
unfolding silence
take_frame stay_live buffer position =
    if leb (length buffer) position
    then (silence, position)
    else let from : ℕ =
        if stay_live && ltb max_lag_bytes (length buffer - position)
        then length buffer - bytes_per_frame
        else position in
      (
        padded (take bytes_per_frame (drop from buffer)),
        min (from + bytes_per_frame) (length buffer),
      )

module _ (audioop : Audioop) where
  abbrev pub mixed : Text → Text → Text
  mixed moderator human =
      if text_eq human silence
      then moderator
      else if text_eq moderator silence
      then human
      else audioop.add moderator human

  -- `read_frame` of a peer that is attached.
  abbrev pub read_at : Uuid → Cursor → SessionMixer → Text × SessionMixer
  read_at u c m =
      let (moderator, heard) = take_frame false m.moderator c.moderator in
      let (live, listened) = take_frame true m.human c.human in
      let human = if holds_id u m.floor_holder then silence else live in
      (
        mixed moderator human,
        trim (record m {
          cursors = modify u.value (λ k. record { moderator = heard; human = listened }) m.cursors;
        }),
      )

  unfoldable pub read_frame : Uuid → SessionMixer → Text × SessionMixer
  unfolding silence take_frame trim text_eq
  read_frame u m = elim (get u.value m.cursors) [ none ↦ (silence, m) | some c ↦ read_at u c m ]
