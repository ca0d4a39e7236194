-- ===== src/Surveyor/Queries.antt =====
-- The rows of the tables that are scored, as the readers of pkg/townctl/status.go and
-- pkg/k8s/operator/controllers/gastown_controller.go get them from their queries.
use landman.Base.{String, Bool, Option, List, ℤ, Result}
use landman.Surveyor.Topology.{
  DesiredCustomRole, DesiredFormula, RigState, AgentState, WorktreeState, CustomRoleState,
}

-- The rows of a query: what each `Scan` gives, and `rows.Err()`.
pub record Rows (A : Type 0) : Type 0 where
  pub scans : List (Result String A)
  pub last : Option String

-- `desired_rigs` without the witness flag, and the pairs of `desired_agent_config`.
pub record RigScan : Type 0 where
  pub name : String
  pub enabled : Bool
  pub max_polecats : ℤ

pub record Queries : Type 0 where
  pub desired_rigs : Result String (Rows RigScan)
  pub desired_agents : Result String (Rows (String × String))
  pub desired_custom_roles : Result String (Rows DesiredCustomRole)
  pub desired_formulas : Result String (Rows DesiredFormula)
  pub actual_rigs : Result String (Rows RigState)
  pub actual_agents : Result String (Rows AgentState)
  pub actual_worktrees : Result String (Rows WorktreeState)
  pub actual_custom_roles : Result String (Rows CustomRoleState)
