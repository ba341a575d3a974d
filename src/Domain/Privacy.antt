-- ===== src/Domain/Privacy.antt =====
-- Contact details in what somebody says: backend/app/domain/privacy.py. The regular expressions run
-- on Python's `re`, which is a parameter: `Matcher`.
pub mod Spans
pub mod Redaction
use gd_classroom.Prelude.{
  ℕ, ◌-◌, Bool, true, false, not, ◌&&◌, ◌||◌, Option, none, some, List, [], ◌∷◌, ◌++◌, map, ltb,
  ◌==◌, if◌then◌else◌, take, drop, length, filter_by, any_of, is_nonempty, sorted, Text, codes,
  strip,
}

pub data PersonalInfoKind : Type 0 where
  email phone identifier : PersonalInfoKind

-- The compiled patterns of `_PATTERNS`, by the names that the source gives them.
pub data Pattern : Type 0 where
  email spoken_email disclosed_id pan phone spoken_digits : Pattern

pub record Span : Type 0 where
  pub start : ℕ
  pub end : ℕ

-- `pattern.finditer`, `_DECIMAL_LOOKING.match` and `str.isdigit`.
pub record Matcher : Type 0 where
  pub find_iter : Pattern → Text → List Span
  pub is_decimal_looking : Text → Bool
  pub is_digit : ℕ → Bool

pub record PersonalInfoMatch : Type 0 where
  pub kind : PersonalInfoKind
  pub start : ℕ
  pub end : ℕ

abbrev pub redaction : Text
redaction = codes "[removed]"

abbrev pub min_bare_digits : ℕ
min_bare_digits = 8

abbrev pub patterns : List (PersonalInfoKind × Pattern)
patterns =
    (PersonalInfoKind.email, Pattern.email)
    ∷ (PersonalInfoKind.email, Pattern.spoken_email)
    ∷ (PersonalInfoKind.identifier, Pattern.disclosed_id)
    ∷ (PersonalInfoKind.identifier, Pattern.pan)
    ∷ (PersonalInfoKind.phone, Pattern.phone)
    ∷ (PersonalInfoKind.phone, Pattern.spoken_digits)
    ∷ []

abbrev is_phone_pattern : Pattern → Bool
is_phone_pattern Pattern.phone = true
is_phone_pattern _ = false

-- `text[start:end]`
abbrev pub slice : ℕ → ℕ → Text → Text
slice start end text = take (end - start) (drop start text)

-- The sort key `(m.start, -m.end)`.
abbrev pub span_lt : PersonalInfoMatch → PersonalInfoMatch → Bool
span_lt a b = ltb a.start b.start || (a.start == b.start && ltb b.end a.end)

-- The loop over the sorted matches; the option is the end of `merged[-1]`.
unfoldable pub merge : Option ℕ → List PersonalInfoMatch → List PersonalInfoMatch
merge last [] = []
merge none (m ∷ ms) = m ∷ merge (some m.end) ms
merge (some e) (m ∷ ms) = elim (ltb m.start e) [
  | true ↦ merge (some e) ms
  | false ↦ m ∷ merge (some m.end) ms
]

-- The slices that `redact` appends, from the cursor on.
unfoldable pub redact_from : ℕ → Text → List PersonalInfoMatch → Text
redact_from cursor text [] = drop cursor text
redact_from cursor text (m ∷ ms) =
    slice cursor m.start text ++ (redaction ++ redact_from m.end text ms)

unfoldable pub same_kind : PersonalInfoKind → PersonalInfoKind → Bool
same_kind PersonalInfoKind.email PersonalInfoKind.email = true
same_kind PersonalInfoKind.phone PersonalInfoKind.phone = true
same_kind PersonalInfoKind.identifier PersonalInfoKind.identifier = true
same_kind _ _ = false

module _ (re : Matcher) where
  unfoldable pub digit_count : Text → ℕ
  digit_count text = length (filter_by re.is_digit text)

  -- The `continue` on a match of `_PHONE` with too few digits or the look of a decimal.
  unfoldable pub is_accepted : Pattern → Text → Span → Bool
  unfolding digit_count strip
  is_accepted pattern text s = not (
      is_phone_pattern pattern
      && (ltb (digit_count (strip (slice s.start s.end text))) min_bare_digits
          || re.is_decimal_looking (strip (slice s.start s.end text))))

  abbrev as_match : PersonalInfoKind → Span → PersonalInfoMatch
  as_match kind s = record { kind = kind; start = s.start; end = s.end }

  unfoldable pub find_all : List (PersonalInfoKind × Pattern) → Text → List PersonalInfoMatch
  unfolding is_accepted
  find_all [] text = []
  find_all ((kind, pattern) ∷ ps) text =
      map (as_match kind) (filter_by (is_accepted pattern text) (re.find_iter pattern text))
      ++ find_all ps text

  unfoldable pub find_personal_information : Text → List PersonalInfoMatch
  unfolding find_all merge sorted
  find_personal_information text = merge none (sorted span_lt (find_all patterns text))

  unfoldable pub contains_personal_information : Text → Bool
  unfolding find_personal_information
  contains_personal_information text = is_nonempty (find_personal_information text)

  unfoldable pub redact : Text → Text
  unfolding find_personal_information redact_from
  redact text =
      let matches = find_personal_information text in
      if is_nonempty matches then redact_from 0 text matches else text

  -- `kinds_in`, whose labels are the kinds in lower case.
  unfoldable pub collect_kinds :
      List PersonalInfoKind → List PersonalInfoMatch → List PersonalInfoKind
  unfolding same_kind
  collect_kinds seen [] = seen
  collect_kinds seen (m ∷ ms) =
      collect_kinds (if any_of (same_kind m.kind) seen then seen else seen ++ m.kind ∷ []) ms

  unfoldable pub kinds_in : Text → List PersonalInfoKind
  unfolding find_personal_information collect_kinds
  kinds_in text = collect_kinds [] (find_personal_information text)
