-- ===== src/Manifest/Extends.antt =====
-- The walk along `identity.extends` (pkg/manifest/validate.go, detectExtendsCycle).
use landman.Base.{String, none, some, List, [], ◌∷◌, Result, ok, err, ℕ, zero, suc}
use landman.Base.{◌==◌, if◌then◌else◌, contains}
use landman.Base.Map.{Map, lookup}

pub data ExtendsError : Type 0 where
  circular : String → ExtendsError
  too_deep : String → ExtendsError

-- The rounds `i` to `maxDepth` of the loop: `fuel` is how many are left.
unfoldable pub walk :
    String → Map String → ℕ → List String → String → Result ExtendsError (Unit {0})
walk origin targets zero visited cur = err (too_deep origin)
walk origin targets (suc fuel) visited cur = elim (lookup cur targets) [
  | none ↦ ok tt
  | some next ↦
      if next == origin
      then err (circular origin)
      else if contains visited next
      then err (circular origin)
      else walk origin targets fuel (next ∷ visited) next
]

unfoldable pub detect_extends_cycle : String → Map String → ℕ → Result ExtendsError (Unit {0})
unfolding walk
detect_extends_cycle origin targets max_depth = walk origin targets (suc max_depth) [] origin
