-- ===== src/Prelude/Sorting.antt =====
-- `sorted(xs, key=…)` and `min(xs, key=…)`: stable, so the first of equal items stays first.
use Prim.Native.Nat.{suc}
use mathlib.Core.Path.{◌≡◌, refl}
use mathlib.Core.Bool.{Bool}
use mathlib.Core.List.{List, [], ◌∷◌}
use native.Mathlib.Omega.{arith}
use gd_classroom.Prelude.Tests.{if◌then◌else◌}
use gd_classroom.Prelude.Lists.{length, All}

module _ {A : Type 0} (lt : A → A → Bool) where
  -- `x` stands before the first item that is greater: an equal item that came earlier stays first.
  unfoldable pub insert_sorted : A → List A → List A
  insert_sorted x [] = x ∷ []
  insert_sorted x (y ∷ ys) =
      let rest = insert_sorted x ys in if lt x y then x ∷ y ∷ ys else y ∷ rest

  unfoldable pub sort_onto : List A → List A → List A
  unfolding insert_sorted
  sort_onto done [] = done
  sort_onto done (x ∷ xs) = sort_onto (insert_sorted x done) xs

  -- `sorted(xs)` by the order `lt` on the keys.
  unfoldable pub sorted : List A → List A
  unfolding sort_onto
  sorted xs = sort_onto [] xs

  -- `min` from the left: the best so far gives way to a smaller item only.
  unfoldable pub least : A → List A → A
  least best [] = best
  least best (x ∷ xs) = least (if lt x best then x else best) xs

  pub All-insert_sorted :
      (P : A → Type 0) (x : A) (ys : List A) → P x → All P ys → All P (insert_sorted x ys)
  unfolding insert_sorted
  All-insert_sorted P x [] px h = (px, tt)
  All-insert_sorted P x (y ∷ ys) px h = ground (arith, All-insert_sorted P x ys px h.1)

  pub length-insert_sorted : (x : A) (ys : List A) → length (insert_sorted x ys) ≡ suc (length ys)
  unfolding insert_sorted
  length-insert_sorted x [] = refl
  length-insert_sorted x (y ∷ ys) = ground (arith, length-insert_sorted x ys)

  -- Sorting loses no item: what holds of the sorted list held of the given one.
  All-of_insert_sorted :
      (P : A → Type 0) (x : A) (ys : List A) → All P (insert_sorted x ys) → P x × All P ys
  unfolding insert_sorted
  All-of_insert_sorted P x [] h = (h.0, tt)
  All-of_insert_sorted P x (y ∷ ys) h = ground (arith, All-of_insert_sorted P x ys)

  All-of_sort_onto :
      (P : A → Type 0) (done xs : List A) → All P (sort_onto done xs) → All P done × All P xs
  unfolding sort_onto
  All-of_sort_onto P done [] h = (h, tt)
  All-of_sort_onto P done (x ∷ xs) h =
      let (before, rest) = All-of_sort_onto P (insert_sorted x done) xs h in
      let (px, old) = All-of_insert_sorted P x done before in (old, (px, rest))

  pub All-of_sorted : (P : A → Type 0) (xs : List A) → All P (sorted xs) → All P xs
  unfolding sorted
  All-of_sorted P xs h = (All-of_sort_onto P [] xs h).1
