-- ===== src/Manifest/Cost.antt =====
-- `validateCostPolicy` (pkg/manifest/validate.go).
use landman.Base.{String, Option, none, some, List, [], ◌∷◌, ◌++◌, Result, ok, err}
use landman.Manifest.Types.{CostPolicy}

-- The errors of a cost block, with its context: no budget at all, or the first budget and the others.
pub data CostError : Type 0 where
  no_budget : String → CostError
  two_budgets : String → String → List String → CostError

abbrev named {ℓ} : {A : Type ℓ} → Option A → String → List String
named none field = []
named (some a) field = field ∷ []

-- The names of the budgets that are set, in the source's order.
unfoldable pub set_fields : CostPolicy → List String
set_fields c =
    named c.daily_budget_usd "daily_budget_usd"
    ++ (named c.daily_budget_messages "daily_budget_messages"
        ++ named c.daily_budget_tokens "daily_budget_tokens")

check_fields : String → List String → Result CostError (Unit {0})
check_fields ctx [] = err (no_budget ctx)
check_fields ctx (f ∷ []) = ok tt
check_fields ctx (f ∷ g ∷ rest) = err (two_budgets ctx f (g ∷ rest))

unfoldable pub validate_cost_policy : CostPolicy → String → Result CostError (Unit {0})
unfolding set_fields check_fields
validate_cost_policy c ctx = check_fields ctx (set_fields c)
