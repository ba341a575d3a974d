-- ===== src/Store/Binds.antt =====
-- What the first action of a chain makes of the whole.
use gd_classroom.Prelude.{◌≡◌, refl, ap, inl, inr, false, ok, err, is_ok, Result-cases}
use gd_classroom.Store.Actions.{Action, ◌>>=◌}

module _ {S A B : Type 0} (m : Action S A) (f : A → Action S B) (s : S) where
  pub >>=-ok : (a : A) (s' : S) → m s ≡ (ok a, s') → (m >>= f) s ≡ f a s'
  unfolding ◌>>=◌
  >>=-ok a s' h = ap (λ r. elim r.0 [ ok b ↦ f b r.1 | err e ↦ (err e, r.1) ]) h

  pub >>=-is_ok : is_ok (m s).0 ≡ false → is_ok ((m >>= f) s).0 ≡ false
  unfolding ◌>>=◌
  >>=-is_ok h = elim (Result-cases (m s).0) [
    | inl (a, e) ↦ let good = ap is_ok e in absurd cc
    | inr (x, e) ↦ rw (e, ◌>>=◌) refl
  ]
