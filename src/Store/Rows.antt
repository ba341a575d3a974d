-- ===== src/Store/Rows.antt =====
-- Reading and changing the first row that a condition finds: `find_one` of backend/app/db/repository.py,
-- and an assignment to the object that it returned.
use gd_classroom.Prelude.{
  ◌≡◌, refl, sym, ap, ◌∙◌, inl, inr, Bool, true, Option, none, some, List, [], ◌∷◌, ◌++◌, map,
  if◌then◌else◌, Bool-cases,
}
use mathlib.Core.Option

abbrev pub first_of : {A : Type 0} → (A → Bool) → List A → Option A
first_of p [] = none
first_of p (x ∷ xs) = if p x then some x else first_of p xs

abbrev pub change_first : {A : Type 0} → (A → Bool) → (A → A) → List A → List A
change_first p f [] = []
change_first p f (x ∷ xs) = if p x then f x ∷ xs else x ∷ change_first p f xs

module _ {A : Type 0} (p : A → Bool) where
  pub first_of-change_first :
      (f : A → A) (xs : List A) (x : A)
      → ((a : A) → p (f a) ≡ p a)
      → first_of p xs ≡ some x
      → first_of p (change_first p f xs) ≡ some (f x)
  first_of-change_first f [] x keeps h = cc
  first_of-change_first f (a ∷ xs) x keeps h = elim (Bool-cases (p a)) [
    | inl e ↦
        let found : some a ≡ some x = rw e at h in
        rw e (rw (keeps a) (rw e (ap (λ o. Option.map f o) found)))
    | inr e ↦
        let later : first_of p xs ≡ some x = rw e at h in
        rw e (rw e (first_of-change_first f xs x keeps later))
  ]

  pub first_of-append :
      (xs ys : List A) (x : A) → first_of p xs ≡ some x → first_of p (xs ++ ys) ≡ some x
  first_of-append [] ys x h = cc
  first_of-append (a ∷ xs) ys x h = elim (Bool-cases (p a)) [
    | inl e ↦ let found : some a ≡ some x = rw e at h in rw e found
    | inr e ↦ let later : first_of p xs ≡ some x = rw e at h in rw e (first_of-append xs ys x later)
  ]

  pub first_of-map :
      (f : A → A) (xs : List A)
      → ((a : A) → p (f a) ≡ p a)
      → first_of p (map f xs) ≡ Option.map f (first_of p xs)
  first_of-map f [] keeps = refl
  first_of-map f (a ∷ xs) keeps = elim (Bool-cases (p a)) [
    | inl e ↦ rw (keeps a) (rw e refl)
    | inr e ↦ rw (keeps a) (rw e (first_of-map f xs keeps))
  ]

  -- What is found satisfies the condition.
  pub first_of-test : (xs : List A) (x : A) → first_of p xs ≡ some x → p x ≡ true
  first_of-test [] x h = cc
  first_of-test (a ∷ xs) x h = elim (Bool-cases (p a)) [
    | inl e ↦
        let found : some a ≡ some x = rw e at h in let same : a ≡ x = cc in sym (ap p same) ∙ e
    | inr e ↦ let later : first_of p xs ≡ some x = rw e at h in first_of-test xs x later
  ]
