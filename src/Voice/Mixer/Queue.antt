-- ===== src/Voice/Mixer/Queue.antt =====
-- What a peer has still to hear of the moderator, and what the operations do to it
-- (backend/app/modules/voice/mixer.py).
use gd_classroom.Prelude.{
  ℕ, zero, suc, ◌+◌, ◌-◌, ◌*◌, ◌≤◌, ◌≡◌, refl, sym, ap, ◌∙◌, inl, inr, Bool, true, false, Option,
  none, some, List, [], ◌∷◌, map, min, ltb, leb, leb→le, ◌==◌, length, length-append, length-take,
  take, drop, drop-drop, is_nonempty, Bool-cases, Dict, get, values, Text, arith,
}
use mathlib.Core.Option
use gd_classroom.Voice.Mixer.{
  Cursor, SessionMixer, bytes_per_frame, least_from, min_default, moderator_marks, human_marks,
  each_cursor, trim_moderator, trim_human, trim, clear_moderator, silence, zeros, padded,
  take_frame,
}

-- The moderator's audio that a peer has not heard: none for one that is not attached.
abbrev pub unheard : ℕ → SessionMixer → Option Text
unheard k m = Option.map (λ (c : Cursor). drop c.moderator m.moderator) (get k m.cursors)

get-each_cursor :
    (k : ℕ) (f : Cursor → Cursor) (d : Dict Cursor)
    → get k (each_cursor f d) ≡ Option.map f (get k d)
get-each_cursor k f [] = refl
get-each_cursor k f ((j, c) ∷ d) = ground (arith, get-each_cursor k f d)

least_from-first : (x : ℕ) (xs : List ℕ) → least_from x xs ≤ x
least_from-first x [] = omega arith
least_from-first x (y ∷ ys) = omega arith

abbrev marks : Dict Cursor → List ℕ
marks d = map (λ (c : Cursor). c.moderator) (values d)

least_from-mark :
    (x k : ℕ) (c : Cursor) (d : Dict Cursor)
    → get k d ≡ some c
    → least_from x (marks d) ≤ c.moderator
least_from-mark x k c [] e = cc
least_from-mark x k c ((j, b) ∷ d) e = elim (Bool-cases (k == j)) [
  | inl same ↦
      let found : some b ≡ some c = rw same at e in
      let one : b ≡ c = cc in
      let first : least_from b.moderator (marks d) ≤ b.moderator =
        least_from-first b.moderator (marks d) in
      let mark : b.moderator ≡ c.moderator = ap (λ q. q.moderator) one in omega (arith, first, mark)
  | inr other ↦
      let found : get k d ≡ some c = rw other at e in
      let rest = least_from-mark b.moderator k c d found in omega (arith, rest)
]

-- The least mark is not above any peer's.
marks-le :
    (k : ℕ) (c : Cursor) (d : Dict Cursor) → get k d ≡ some c → min_default (marks d) ≤ c.moderator
marks-le k c [] e = cc
marks-le k c ((j, b) ∷ d) e =
    let low = least_from-mark b.moderator k c ((j, b) ∷ d) e in
    omega (arith, low, least_from-first b.moderator (marks d))

pub drop-all : (n : ℕ) (xs : Text) → length xs ≤ n → drop n xs ≡ []
drop-all zero [] h = refl
drop-all zero (x ∷ xs) h = absurd (omega (arith, h))
drop-all (suc n) [] h = refl
drop-all (suc n) (x ∷ xs) h = drop-all n xs (omega (arith, h))

drop-min : (n : ℕ) (xs : Text) → drop (min n (length xs)) xs ≡ drop n xs
drop-min n xs = elim (Bool-cases (leb n (length xs))) [
  | inl t ↦ let low : min n (length xs) ≡ n = ground (arith, t) in ap (λ i. drop i xs) low
  | inr t ↦
      let high : min n (length xs) ≡ length xs = ground (arith, t) in
      let over : length xs ≤ n = ground (arith, t) in
      ap (λ i. drop i xs) high ∙ drop-all (length xs) xs (omega arith) ∙ sym (drop-all n xs over)
]

unfoldable pub unheard_of : Text → Option Cursor → Option Text
unheard_of buffer o = Option.map (λ (c : Cursor). drop c.moderator buffer) o

trimmed :
    (k : ℕ) (m : SessionMixer) (o : Option Cursor)
    → get k m.cursors ≡ o
    → let heard = min_default (moderator_marks m) in
      unheard_of
        (drop heard m.moderator)
        (Option.map (λ (c : Cursor). record c { moderator = c.moderator - heard }) o)
      ≡ unheard_of m.moderator o
unfolding unheard_of
trimmed k m none e = refl
trimmed k m (some c) e =
    let heard = min_default (moderator_marks m) in
    let low = marks-le k c m.cursors e in
    let sum : heard + (c.moderator - heard) ≡ c.moderator = omega (arith, low) in
    ap some (drop-drop (c.moderator - heard) heard m.moderator ∙ ap (λ i. drop i m.moderator) sum)

trim_moderator-unheard : (k : ℕ) (m : SessionMixer) → unheard k (trim_moderator m) ≡ unheard k m
unfolding trim_moderator unheard_of
trim_moderator-unheard k m =
    let heard = min_default (moderator_marks m) in
    elim (Bool-cases (ltb (bytes_per_frame * 50) heard)) [
      | inl t ↦ rw t (
          ap (unheard_of (drop heard m.moderator)) (get-each_cursor k _ m.cursors)
          ∙ trimmed k m (get k m.cursors) refl)
      | inr t ↦ rw t
    ]

trim_human-unheard : (k : ℕ) (m : SessionMixer) → unheard k (trim_human m) ≡ unheard k m
unfolding trim_human unheard_of
trim_human-unheard k m =
    elim (Bool-cases (ltb (bytes_per_frame * 50) (min_default (human_marks m)))) [
      | inl t ↦
          rw t
            (ap (unheard_of m.moderator) (get-each_cursor k _ m.cursors) ∙ same (get k m.cursors))
      | inr t ↦ rw t
    ]
  where
    same :
        (o : Option Cursor)
        → unheard_of m.moderator (
            Option.map
              (λ (c : Cursor). record c { human = c.human - min_default (human_marks m) })
              o)
          ≡ unheard_of m.moderator o
    same none = refl
    same (some c) = refl

trim-busy :
    (m : SessionMixer) → is_nonempty m.cursors ≡ true → trim m ≡ trim_human (trim_moderator m)
unfolding trim
trim-busy m e = rw e

trim-alone :
    (m : SessionMixer)
    → is_nonempty m.cursors ≡ false
    → trim m ≡ record m { moderator = []; human = [] }
unfolding trim
trim-alone m e = rw e

get-empty : (k : ℕ) (d : Dict Cursor) → is_nonempty d ≡ false → get k d ≡ none
get-empty k [] e = refl
get-empty k (x ∷ d) e = cc

-- Reclaiming what every peer has heard takes nothing of the moderator's audio from anybody who has
-- still to hear it.
pub trim-unheard : (k : ℕ) (m : SessionMixer) → unheard k (trim m) ≡ unheard k m
unfolding unheard_of
trim-unheard k m = elim (Bool-cases (is_nonempty m.cursors)) [
  | inl t ↦
      ap (unheard k) (trim-busy m t)
      ∙ trim_human-unheard k (trim_moderator m)
      ∙ trim_moderator-unheard k m
  | inr t ↦
      let nobody = get-empty k m.cursors t in
      ap (unheard k) (trim-alone m t)
      ∙ ap (unheard_of []) nobody
      ∙ sym (ap (unheard_of m.moderator) nobody)
]

-- The position after a frame of the moderator's audio.
pub take_frame-position :
    (buffer : Text) (position : ℕ)
    → drop (take_frame false buffer position).1 buffer ≡ drop bytes_per_frame (drop position buffer)
unfolding take_frame
take_frame-position buffer position = elim (Bool-cases (leb (length buffer) position)) [
  | inl t ↦
      let gone = drop-all position buffer (leb→le (length buffer) position t) in
      rw t (gone ∙ sym (ap (drop bytes_per_frame) gone))
  | inr t ↦ rw t (
      drop-min (position + bytes_per_frame) buffer
      ∙ sym (drop-drop bytes_per_frame position buffer))
]

-- When the moderator's audio is cleared, a peer that is as far behind as any other still has to hear
-- exactly what it had to hear before.
pub clear_moderator_keeps_unheard :
    (k : ℕ) (c : Cursor) (m : SessionMixer)
    → get k m.cursors ≡ some c
    → c.moderator ≡ min_default (moderator_marks m)
    → unheard k (clear_moderator m) ≡ unheard k m
unfolding clear_moderator unheard_of
clear_moderator_keeps_unheard k c m e last =
    let played = min_default (moderator_marks m) in
    ap (unheard_of (drop played m.moderator)) (
      get-each_cursor k (λ b. record b { moderator = 0 }) m.cursors
      ∙ ap (Option.map (λ (b : Cursor). record b { moderator = 0 })) e)
    ∙ ap (λ i. some (drop i m.moderator)) (sym last)
    ∙ ap (unheard_of m.moderator) (sym e)

length-zeros : (n : ℕ) → length (zeros n) ≡ n
length-zeros zero = refl
length-zeros (suc n) = ap suc (length-zeros n)

length-padded :
    (chunk : Text) → length chunk ≤ bytes_per_frame → length (padded chunk) ≡ bytes_per_frame
length-padded chunk h = omega (
  arith,
  h,
  length-append chunk (zeros (bytes_per_frame - length chunk)),
  length-zeros (bytes_per_frame - length chunk),
)

-- Every frame that is taken from a buffer, live or not, and wherever the peer is, has 1920 bytes.
pub length-take_frame :
    (stay_live : Bool) (buffer : Text) (position : ℕ)
    → length (take_frame stay_live buffer position).0 ≡ bytes_per_frame
unfolding take_frame silence
length-take_frame stay_live buffer position = elim (Bool-cases (leb (length buffer) position)) [
  | inl t ↦ rw t (length-zeros bytes_per_frame)
  | inr t ↦ rw t (length-padded (take bytes_per_frame (drop _ buffer)) (short (drop _ buffer)))
]
  where
    short : (xs : Text) → length (take bytes_per_frame xs) ≤ bytes_per_frame
    short xs = omega (arith, length-take bytes_per_frame xs)
