-- ===== src/Common/IdMap.antt =====
-- `std::collections::HashMap` keyed by order ids. The program never iterates over it.
use mexchange_study.Common.Tests.{◌==◌, if◌then◌else◌}
use Prim.Native.Nat.{ℕ}
use mathlib.Core.Path.{◌≡◌}
use mathlib.Core.Option.{Option, none, some}
use mathlib.Core.List.{List, [], ◌∷◌}
use native.Mathlib.Omega.{arith}

abbrev pub IdMap {ℓ} : Type ℓ → Type ℓ
IdMap V = List (ℕ × V)

module _ {ℓ} {V : Type ℓ} where
  -- `HashMap::get`
  unfoldable pub get : ℕ → IdMap V → Option V
  get k [] = none
  get k ((j, v) ∷ m) = if k == j then some v else get k m

  -- `HashMap::remove`
  unfoldable pub remove : ℕ → IdMap V → IdMap V
  remove k [] = []
  remove k ((j, v) ∷ m) = let rest = remove k m in if k == j then rest else (j, v) ∷ rest

  -- `HashMap::insert`
  unfoldable pub insert : ℕ → V → IdMap V → IdMap V
  insert k v m = (k, v) ∷ remove k m

  pub get-remove : (j k : ℕ) (m : IdMap V) → get j (remove k m) ≡ (if j == k then none else get j m)
  unfolding get remove
  get-remove j k [] = ground arith
  get-remove j k ((i, v) ∷ m) = ground (arith, get-remove j k m)

  pub get-insert :
      (j k : ℕ) (v : V) (m : IdMap V) → get j (insert k v m) ≡ (if j == k then some v else get j m)
  unfolding get insert
  get-insert j k v m = ground (arith, get-remove j k m)
