-- ===== src/Prelude/Uuids.antt =====
-- Python's `UUID`: two objects may carry one value. `==` and dict keys read the value, `is` asks
-- for the same object.
use Prim.Native.Nat.{ℕ}
use mathlib.Core.Bool.{Bool, false, ◌&&◌}
use mathlib.Core.Option.{Option, none, some}
use gd_classroom.Prelude.Tests.{◌==◌}

pub record Uuid : Type 0 where
  pub value : ℕ
  pub object : ℕ

-- `a == b`
abbrev pub same_id : Uuid → Uuid → Bool
same_id a b = a.value == b.value

-- `a is b`
abbrev pub same_object : Uuid → Uuid → Bool
same_object a b = a.value == b.value && a.object == b.object

-- `a == b` and `a is b` where `b` may be `None`.
abbrev pub holds_id : Uuid → Option Uuid → Bool
holds_id a none = false
holds_id a (some b) = same_id a b

abbrev pub holds_object : Uuid → Option Uuid → Bool
holds_object a none = false
holds_object a (some b) = same_object a b
