-- ===== src/Llm/Router/Replies/Fences.antt =====
-- Replies fenced in markdown (backend/app/infrastructure/llm/router.py).
use gd_classroom.Prelude.{
  ℕ, ◌≡◌, refl, sym, ap, ◌∙◌, Bool, true, false, not, ◌&&◌, ◌==◌, arith, [], ◌∷◌, ◌++◌,
  append_assoc, Option, some, Text, codes, is_space, strip, strip_left, has_prefix,
}
use mathlib.Core.List.{reverse, reverse-append, reverse-reverse}
use gd_classroom.Llm.Failures.{after}
use gd_classroom.Llm.Router.Replies.{fence, newline, before_last, unfence, checked, parse_json}

-- A line has no end of line inside.
abbrev pub is_line : Text → Bool
is_line [] = true
is_line (c ∷ t) = not (c == 10) && is_line t

-- A text of a model between the lines of a code block; the label of the block is the language.
abbrev pub fenced : Text → Text → Text
fenced label text = fence ++ (label ++ (newline ++ (text ++ (newline ++ fence))))

strip_left-word : (c : ℕ) (t : Text) → is_space c ≡ false → strip_left (c ∷ t) ≡ c ∷ t
unfolding strip_left
strip_left-word c t h = rw h refl

-- A text that begins and ends with other characters than spaces is stripped.
strip-words :
    (c : ℕ) (t : Text) (d : ℕ)
    → is_space c ≡ false
    → is_space d ≡ false
    → strip (c ∷ t ++ d ∷ []) ≡ c ∷ t ++ d ∷ []
unfolding strip
strip-words c t d h k =
    let turned : reverse (c ∷ t ++ d ∷ []) ≡ d ∷ reverse (c ∷ t) =
      reverse-append (c ∷ t) (d ∷ []) in
    rw (strip_left-word c (t ++ d ∷ []) h) (
      rw turned (
        rw (strip_left-word d (reverse (c ∷ t)) k)
          (sym (ap reverse turned) ∙ reverse-reverse (c ∷ t ++ d ∷ []))))

strip_left-newline : (t : Text) → strip_left (newline ++ t) ≡ strip_left t
unfolding strip_left is_space
strip_left-newline t = refl

-- The end of a line is no part of what is stripped.
strip-newline : (c : ℕ) (t : Text) → is_space c ≡ false → strip (c ∷ t ++ newline) ≡ strip (c ∷ t)
unfolding strip
strip-newline c t h =
    let turned : reverse (c ∷ t ++ newline) ≡ newline ++ reverse (c ∷ t) =
      reverse-append (c ∷ t) newline in
    rw (strip_left-word c (t ++ newline) h, strip_left-word c t h)
      (rw turned (ap reverse (strip_left-newline (reverse (c ∷ t)))))

before_last-append : (s : Text) → before_last fence (s ++ fence) ≡ some s
unfolding before_last
before_last-append [] = refl
before_last-append (c ∷ s) = rw (before_last-append s) refl

fenced-is_stripped : (label text : Text) → strip (fenced label text) ≡ fenced label text
unfolding is_space
fenced-is_stripped label text =
    let inner = codes "``" ++ (label ++ (newline ++ (text ++ (newline ++ codes "``")))) in
    let tail : (label ++ (newline ++ (text ++ (newline ++ codes "``")))) ++ 96 ∷ []
        ≡ label ++ (newline ++ (text ++ (newline ++ fence))) =
      append_assoc label (newline ++ (text ++ (newline ++ codes "``"))) (96 ∷ [])
      ∙ ap (λ t. label ++ (newline ++ t)) (append_assoc text (newline ++ codes "``") (96 ∷ [])) in
    let split : fenced label text ≡ 96 ∷ inner ++ 96 ∷ [] = ap (λ t. fence ++ t) (sym tail) in
    ap strip split ∙ strip-words 96 inner 96 refl refl ∙ sym split

after-line :
    (label text : Text)
    → is_line label ≡ true
    → after newline (label ++ (newline ++ text)) ≡ some text
unfolding after has_prefix
after-line [] text h = refl
after-line (c ∷ label) text h =
    let other : (c == 10) ≡ false = ground (arith, h) in
    let rest : is_line label ≡ true = ground (arith, h) in
    let other' : (10 == c) ≡ false = ground (arith, other) in
    rw (other', after-line label text rest)

after-fenced :
    (label text : Text)
    → is_line label ≡ true
    → after newline (fenced label text) ≡ some (text ++ (newline ++ fence))
after-fenced label text h = after-line (fence ++ label) (text ++ (newline ++ fence)) h

before_last-closed :
    (text : Text) → before_last fence (text ++ (newline ++ fence)) ≡ some (text ++ newline)
before_last-closed text =
    ap (before_last fence) (sym (append_assoc text newline fence))
    ∙ before_last-append (text ++ newline)

unfence-parts :
    (text body front : Text)
    → after newline text ≡ some body
    → before_last fence body ≡ some front
    → unfence text ≡ strip front
unfolding unfence
unfence-parts text body front e f = rw (e, f) refl

unfence-fenced :
    (label : Text) (c : ℕ) (t : Text)
    → is_line label ≡ true
    → is_space c ≡ false
    → unfence (fenced label (c ∷ t)) ≡ strip (c ∷ t)
unfence-fenced label c t line h =
    unfence-parts (fenced label (c ∷ t)) ((c ∷ t) ++ (newline ++ fence)) (c ∷ t ++ newline)
      (after-fenced label (c ∷ t) line) (before_last-closed (c ∷ t))
    ∙ strip-newline c t h

module _ {J : Type 0} (loads : Text → Option J) (is_dict : J → Bool) where
  -- A reply between two lines of fences, with any label behind the first, or none, reads like the bare
  -- one, whatever fences or lines it has inside: the bare text begins with no space and with no fence of
  -- its own.
  pub parse_json-fenced :
      (label : Text) (c : ℕ) (t : Text)
      → is_line label ≡ true
      → is_space c ≡ false
      → has_prefix fence (strip (c ∷ t)) ≡ false
      → parse_json loads is_dict (fenced label (c ∷ t)) ≡ parse_json loads is_dict (c ∷ t)
  unfolding parse_json has_prefix
  parse_json-fenced label c t line h bare =
      rw (fenced-is_stripped label (c ∷ t), bare)
        (ap (λ text. checked is_dict (loads text)) (unfence-fenced label c t line h))
