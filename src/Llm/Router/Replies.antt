-- ===== src/Llm/Router/Replies.antt =====
-- What the callers of the router get: `invoke`, `invoke_structured` and `_parse_json` of
-- backend/app/infrastructure/llm/router.py. The parser of JSON is Python's own: `loads` is none where it
-- raises, and `is_dict` tells whether the value is an object.
pub mod Fences
use gd_classroom.Prelude.{
  ℕ, Bool, [], ◌∷◌, Option, none, some, if◌then◌else◌, Text, codes, strip, has_prefix, Result, ok,
  err,
}
use mathlib.Core.Option
use gd_classroom.Llm.Quota.{TierSpec}
use gd_classroom.Llm.Failures.{Python, after}
use gd_classroom.Llm.Router.{Config, Books, Reply, ChainExhausted, walk}

pub record Answer : Type 0 where
  pub value : Text
  pub tier : ℕ

abbrev pub fence : Text
fence = codes "```"

abbrev pub newline : Text
newline = 10 ∷ []

-- What stands before the last occurrence of the separator.
unfoldable pub before_last : Text → Text → Option Text
unfolding has_prefix
before_last sep [] = none
before_last sep (c ∷ t) = elim (before_last sep t) [
  | some front ↦ some (c ∷ front)
  | none ↦ if has_prefix sep (c ∷ t) then some [] else none
]

-- `text.split("\n", 1)[-1].rsplit("```", 1)[0].strip()`
unfoldable pub unfence : Text → Text
unfolding after before_last strip
unfence text =
    let body = Option.get_or (after newline text) text in
    strip (Option.get_or (before_last fence body) body)

-- What a call returns to the program.
abbrev pub on_value :
    {A B : Type 0} → (A × ℕ → B) → Result ChainExhausted (A × ℕ) → Result ChainExhausted B
on_value f (ok r) = ok (f r)
on_value f (err e) = err e

abbrev pub checked : {J : Type 0} → (J → Bool) → Option J → Option J
checked is_dict none = none
checked is_dict (some parsed) = if is_dict parsed then some parsed else none

module _ {J : Type 0} (loads : Text → Option J) (is_dict : J → Bool) where
  unfoldable pub parse_json : Text → Option J
  unfolding unfence strip has_prefix
  parse_json raw =
      let text = strip raw in
      checked is_dict (loads (if has_prefix fence text then unfence text else text))

module _ (py : Python) (config : Config) (complete : TierSpec → ℕ → Reply Text) where
  unfoldable pub invoke : ℕ → ℕ → Books → Books × Result ChainExhausted Answer
  unfolding walk
  invoke purpose now b =
      let w = walk py config complete purpose now b in
      (w.books, on_value (λ r. record { value = r.0; tier = r.1 }) w.result)

  module _ {J : Type 0} (loads : Text → Option J) (is_dict : J → Bool) where
    -- An unusable reply is no failure of the rung.
    unfoldable pub invoke_structured : ℕ → ℕ → Books → Books × Result ChainExhausted (Option J × ℕ)
    unfolding walk parse_json
    invoke_structured purpose now b =
        let w = walk py config complete purpose now b in
        (w.books, on_value (λ r. (parse_json loads is_dict r.0, r.1)) w.result)
