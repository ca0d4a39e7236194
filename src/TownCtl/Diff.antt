-- ===== src/TownCtl/Diff.antt =====
-- The comparison of desired rows with the rows in a table, which pkg/townctl/costpolicy.go
-- (DryRunPlan) and customroles.go (DiffCustomRoles) make in the same two loops.
pub mod Laws
pub mod Presence
use landman.Base.{Bool, true, false, Option, none, some, List, [], ◌∷◌, ◌++◌, ◌||◌, if◌then◌else◌}
use mathlib.Core.Logic.{ite}

-- The `Action` strings "add", "update" and "remove".
pub data Action : Type 0 where
  add update remove : Action

pub record DiffOp (R : Type 0) : Type 0 where
  pub action : Action
  pub row : R

module _ {K R : Type 0} (dec : Discrete K) (key : R → K) where
  -- A lookup in the map that is filled from the rows in turn: the last row of a key counts.
  abbrev pub find : K → List R → Option R
  find k [] = none
  find k (r ∷ rs) = elim (find k rs) [ some s ↦ some s | none ↦ ite (dec (key r) k) (some r) none ]

  -- A lookup in the set of the rows' keys.
  abbrev pub keeps : List R → K → Bool
  keeps [] k = false
  keeps (r ∷ rs) k = ite (dec (key r) k) true (keeps rs k)

  -- The loop over the desired rows.
  unfoldable pub plan_writes : (R → R → Bool) → List R → List R → List (DiffOp R)
  plan_writes same current [] = []
  plan_writes same current (row ∷ rows) =
      let rest = plan_writes same current rows in
      elim (find (key row) current) [
        | none ↦ record { action = add; row = row } ∷ rest
        | some cur ↦ if same cur row then rest else record { action = update; row = row } ∷ rest
      ]

  -- The loop over the current rows.
  unfoldable pub plan_removals : List R → List R → List (DiffOp R)
  plan_removals desired [] = []
  plan_removals desired (cur ∷ rows) =
      let rest = plan_removals desired rows in
      if keeps desired (key cur) then rest else record { action = remove; row = cur } ∷ rest

  unfoldable pub plan : (R → R → Bool) → List R → List R → List (DiffOp R)
  unfolding plan_writes plan_removals
  plan same desired current = plan_writes same current desired ++ plan_removals desired current
