-- ===== src/Base/Map.antt =====
-- Go's maps with string keys. The latest binding stands first, so a lookup finds the last write.
use landman.Base.Text.{◌==◌, if◌then◌else◌}
use Prim.Native.String.{String}
use mathlib.Core.Path.{◌≡◌}
use mathlib.Core.Bool.{Bool, true, false}
use mathlib.Core.Option.{Option, none, some}
use mathlib.Core.List.{List, [], ◌∷◌}
use native.Mathlib.Omega.{arith}

abbrev pub Map {ℓ} : Type ℓ → Type ℓ
Map V = List (String × V)

module _ {ℓ} {V : Type ℓ} where
  abbrev pub lookup : String → Map V → Option V
  lookup k [] = none
  lookup k ((j, v) ∷ m) = if j == k then some v else lookup k m

  abbrev pub insert : String → V → Map V → Map V
  insert k v m = (k, v) ∷ m

  -- `m[k]`, with the zero value for a key that is not there.
  abbrev pub get_or : V → String → Map V → V
  get_or z k m = elim (lookup k m) [ none ↦ z | some v ↦ v ]

  -- `_, ok := m[k]`
  abbrev pub has : String → Map V → Bool
  has k m = elim (lookup k m) [ none ↦ false | some v ↦ true ]

  -- `delete(m, k)`
  abbrev pub erase : String → Map V → Map V
  erase k [] = []
  erase k ((j, v) ∷ m) = let rest = erase k m in if j == k then rest else (j, v) ∷ rest

  pub lookup-erase :
      (k j : String) (m : Map V) → lookup j (erase k m) ≡ (if k == j then none else lookup j m)
  lookup-erase k j [] = ground arith
  lookup-erase k j ((i, v) ∷ m) = ground (arith, lookup-erase k j m)

  pub has-true : (k : String) (m : Map V) → has k m ≡ true → (v : V) × (lookup k m ≡ some v)
  has-true k m h = ground arith
