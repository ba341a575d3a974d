-- ===== src/Prelude/Sublists.antt =====
-- A list that another one becomes when some of its items are left out.
use mathlib.Core.Path.{◌≡◌, ◌∙◌}
use mathlib.Core.Logic.{◌⊎◌, inl, inr}
use mathlib.Core.List.{List, [], ◌∷◌}

abbrev pub IsSublist : {A : Type 0} → List A → List A → Type 0
IsSublist [] ys = Unit
IsSublist (x ∷ xs) [] = ⊥
IsSublist (x ∷ xs) (y ∷ ys) = ((x ≡ y) × IsSublist xs ys) ⊎ IsSublist (x ∷ xs) ys

module _ {A : Type 0} where
  pub IsSublist-cons : (xs : List A) (y : A) (ys : List A) → IsSublist xs ys → IsSublist xs (y ∷ ys)
  IsSublist-cons [] y ys s = tt
  IsSublist-cons (x ∷ xs) y ys s = inr s

  pub sublist_trans : (xs ys zs : List A) → IsSublist xs ys → IsSublist ys zs → IsSublist xs zs
  sublist_trans [] ys zs s t = tt
  sublist_trans (x ∷ xs) [] zs s t = absurd s
  sublist_trans (x ∷ xs) (y ∷ ys) [] s t = absurd t
  sublist_trans (x ∷ xs) (y ∷ ys) (z ∷ zs) s (inr t) = inr (sublist_trans (x ∷ xs) (y ∷ ys) zs s t)
  sublist_trans (x ∷ xs) (y ∷ ys) (z ∷ zs) (inl (e, s)) (inl (f, t)) =
      inl (e ∙ f, sublist_trans xs ys zs s t)
  sublist_trans (x ∷ xs) (y ∷ ys) (z ∷ zs) (inr s) (inl (f, t)) =
      inr (sublist_trans (x ∷ xs) ys zs s t)
