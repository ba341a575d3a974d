-- ===== src/Domain/Privacy/Spans.antt =====
-- The spans that backend/app/domain/privacy.py keeps: apart from one another, and none forgotten.
use mathlib.Core.Path.{subst}
use gd_classroom.Prelude.{
  ℕ, ◌≤◌, ◌<◌, ◌≡◌, refl, sym, ◌⊎◌, inl, inr, true, false, none, some, List, [], ◌∷◌, ltb, ltb→lt,
  Bool-cases, All, Text, insert_sorted, sort_onto, sorted, All-of_sorted, arith,
}
use gd_classroom.Domain.Privacy.{
  Matcher, PersonalInfoMatch, span_lt, merge, patterns, find_all, find_personal_information,
}

-- Each span begins where the one before has ended, or later.
abbrev pub IsApart : ℕ → List PersonalInfoMatch → Type 0
IsApart n [] = Unit
IsApart n (m ∷ ms) = (n ≤ m.start) × IsApart m.end ms

merge-IsApart_after : (e : ℕ) (ms : List PersonalInfoMatch) → IsApart e (merge (some e) ms)
unfolding merge
merge-IsApart_after e [] = tt
merge-IsApart_after e (m ∷ ms) =
    ground (arith, merge-IsApart_after e ms, merge-IsApart_after m.end ms)

merge-IsApart : (ms : List PersonalInfoMatch) → IsApart 0 (merge none ms)
unfolding merge
merge-IsApart [] = tt
merge-IsApart (m ∷ ms) = (omega arith, merge-IsApart_after m.end ms)

-- The spans that are kept do not overlap.
pub find-IsApart : (re : Matcher) (text : Text) → IsApart 0 (find_personal_information re text)
unfolding find_personal_information
find-IsApart re text = merge-IsApart (sorted span_lt (find_all re patterns text))

abbrev Ascending : ℕ → List PersonalInfoMatch → Type 0
Ascending n [] = Unit
Ascending n (m ∷ ms) = (n ≤ m.start) × Ascending m.start ms

insert_sorted-Ascending :
    (n : ℕ) (x : PersonalInfoMatch) (ys : List PersonalInfoMatch)
    → n ≤ x.start
    → Ascending n ys
    → Ascending n (insert_sorted span_lt x ys)
unfolding insert_sorted
insert_sorted-Ascending n x [] h a = (h, tt)
insert_sorted-Ascending n x (y ∷ ys) h a = ground (arith, insert_sorted-Ascending y.start x ys)

sort_onto-Ascending :
    (done xs : List PersonalInfoMatch) → Ascending 0 done → Ascending 0 (sort_onto span_lt done xs)
unfolding sort_onto
sort_onto-Ascending done [] h = h
sort_onto-Ascending done (x ∷ xs) h =
    sort_onto-Ascending (insert_sorted span_lt x done) xs
      (insert_sorted-Ascending 0 x done (omega arith) h)

-- `m` begins inside `k`, or is `k`.
abbrev BeginsIn : PersonalInfoMatch → PersonalInfoMatch → Type 0
BeginsIn m k = ((k.start ≤ m.start) × (m.start < k.end)) ⊎ (m ≡ k)

abbrev pub BeginsInside : List PersonalInfoMatch → PersonalInfoMatch → Type 0
BeginsInside [] m = ⊥
BeginsInside (k ∷ ks) m = BeginsIn m k ⊎ BeginsInside ks m

inside_later :
    (k : PersonalInfoMatch) (ks ms : List PersonalInfoMatch)
    → All (BeginsInside ks) ms
    → All (BeginsInside (k ∷ ks)) ms
inside_later k ks [] h = tt
inside_later k ks (m ∷ ms) h = (inr h.0, inside_later k ks ms h.1)

merge_skip :
    (e : ℕ) (m : PersonalInfoMatch) (ms : List PersonalInfoMatch)
    → ltb m.start e ≡ true
    → merge (some e) (m ∷ ms) ≡ merge (some e) ms
unfolding merge
merge_skip e m ms h = ground arith

merge_keep :
    (e : ℕ) (m : PersonalInfoMatch) (ms : List PersonalInfoMatch)
    → ltb m.start e ≡ false
    → merge (some e) (m ∷ ms) ≡ m ∷ merge (some m.end) ms
unfolding merge
merge_keep e m ms h = ground arith

inside_after :
    (k : PersonalInfoMatch) (ms : List PersonalInfoMatch) (n : ℕ)
    → k.start ≤ n
    → Ascending n ms
    → All (BeginsInside (k ∷ merge (some k.end) ms)) ms
inside_after k [] n h a = tt
inside_after k (m ∷ ms) n h a = elim (Bool-cases (ltb m.start k.end)) [
  | inl t ↦
      subst (λ r. All (BeginsInside (k ∷ r)) (m ∷ ms)) (sym (merge_skip k.end m ms t))
        (
          inl (inl (omega arith, ltb→lt m.start k.end t)),
          inside_after k ms m.start (omega arith) a.1,
        )
  | inr f ↦
      subst (λ r. All (BeginsInside (k ∷ r)) (m ∷ ms)) (sym (merge_keep k.end m ms f))
        (
          inr (inl (inr refl)),
          inside_later k (m ∷ merge (some m.end) ms) ms
              (inside_after m ms m.start (omega arith) a.1),
        )
]

merge_inside :
    (ms : List PersonalInfoMatch) → Ascending 0 ms → All (BeginsInside (merge none ms)) ms
unfolding merge
merge_inside [] a = tt
merge_inside (m ∷ ms) a = (inl (inr refl), inside_after m ms m.start (omega arith) a.1)

-- Every match of every pattern that passes the digit test is kept, or begins inside a span that is
-- kept.
pub find_inside :
    (re : Matcher) (text : Text)
    → All (BeginsInside (find_personal_information re text)) (find_all re patterns text)
unfolding find_personal_information sorted
find_inside re text =
    let found = find_all re patterns text in
    All-of_sorted span_lt (BeginsInside (find_personal_information re text)) found
      (merge_inside (sorted span_lt found) (sort_onto-Ascending [] found tt))
