-- ===== src/Prelude/Dicts.antt =====
-- A Python dict keyed by numbers, in insertion order.
use Prim.Native.Nat.{ℕ}
use mathlib.Core.Path.{◌≡◌, refl}
use mathlib.Core.Option
use mathlib.Core.Option.{Option, none, some}
use mathlib.Core.List.{List, [], ◌∷◌}
use native.Mathlib.Omega.{arith}
use gd_classroom.Prelude.Tests.{◌==◌, if◌then◌else◌}

abbrev pub Dict {ℓ} : Type ℓ → Type ℓ
Dict V = List (ℕ × V)

module _ {ℓ} {V : Type ℓ} where
  -- `d.get(k)`
  abbrev pub get : ℕ → Dict V → Option V
  get k [] = none
  get k ((j, v) ∷ d) = if k == j then some v else get k d

  -- `d[k] = v`
  abbrev pub put : ℕ → V → Dict V → Dict V
  put k v [] = (k, v) ∷ []
  put k v ((j, w) ∷ d) = if k == j then (j, v) ∷ d else (j, w) ∷ put k v d

  -- `d.setdefault(k, v)`
  abbrev pub set_default : ℕ → V → Dict V → Dict V
  set_default k v [] = (k, v) ∷ []
  set_default k v ((j, w) ∷ d) = if k == j then (j, w) ∷ d else (j, w) ∷ set_default k v d

  -- `if x := d.get(k): x.field = ...`
  abbrev pub modify : ℕ → (V → V) → Dict V → Dict V
  modify k f [] = []
  modify k f ((j, w) ∷ d) = if k == j then (j, f w) ∷ d else (j, w) ∷ modify k f d

  -- `d.pop(k, None)`
  abbrev pub remove : ℕ → Dict V → Dict V
  remove k [] = []
  remove k ((j, w) ∷ d) = if k == j then d else (j, w) ∷ remove k d

  -- `d.values()`
  abbrev pub values : Dict V → List V
  values [] = []
  values ((j, v) ∷ d) = v ∷ values d

  pub get-put :
      (j k : ℕ) (v : V) (d : Dict V) → get j (put k v d) ≡ (if j == k then some v else get j d)
  get-put j k v [] = refl
  get-put j k v ((i, w) ∷ d) = ground (arith, get-put j k v d)

  pub get-modify :
      (j k : ℕ) (f : V → V) (d : Dict V)
      → get j (modify k f d) ≡ (if j == k then Option.map f (get j d) else get j d)
  get-modify j k f [] = ground arith
  get-modify j k f ((i, w) ∷ d) = ground (arith, get-modify j k f d)

  pub get-set_default :
      (j k : ℕ) (v : V) (d : Dict V)
      → get j (set_default k v d) ≡ (if j == k then some (Option.get_or (get k d) v) else get j d)
  get-set_default j k v [] = refl
  get-set_default j k v ((i, w) ∷ d) = ground (arith, get-set_default j k v d)

  pub modify-missing : (k : ℕ) (f : V → V) (d : Dict V) → get k d ≡ none → modify k f d ≡ d
  modify-missing k f [] h = refl
  modify-missing k f ((i, w) ∷ d) h = ground (arith, modify-missing k f d)
