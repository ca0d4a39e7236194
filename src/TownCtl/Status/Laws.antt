-- ===== src/TownCtl/Status/Laws.antt =====
-- The two readers of a town's score, on the same answers of the database.
use landman.Base.{String, ◌≡◌, map, ℤ, Result, ok, err, arith}
use landman.Surveyor.Topology.{DesiredTopology, ActualTopology}
use landman.Surveyor.Queries.{Queries}
use landman.Base.Float.{FloatOps}
use landman.Surveyor.Config.{default_production_config}
use landman.Surveyor.Score.{compute_score}
use landman.Operator.Town.Status.{optional, desired_rig}
use landman.TownCtl.Status.{StatusResult, in_status}

module _ {A : Type 0} where
  in_status-ok :
      (table : String) (r : Result String A) {a : A} → in_status table r ≡ ok a → r ≡ ok a
  in_status-ok table (ok a) h = h
  in_status-ok table (err x) h = ground arith

-- Both topologies, where a table that cannot be read is empty and a row that cannot be read is
-- passed over.
abbrev topologies : Queries → DesiredTopology × ActualTopology
topologies q = (
  record {
    rigs = map (desired_rig (optional q.desired_agents)) (optional q.desired_rigs);
    custom_roles = optional q.desired_custom_roles;
    formulas = optional q.desired_formulas;
  },
  record {
    rigs = optional q.actual_rigs;
    agents = optional q.actual_agents;
    worktrees = optional q.actual_worktrees;
    custom_roles = optional q.actual_custom_roles;
  },
)

-- The score and the rigs' names in a status are those of the two topologies.
abbrev Scores : FloatOps → ℤ → StatusResult → DesiredTopology × ActualTopology → Type 0
Scores ops now r (desired, actual) =
    (r.score ≡ (compute_score ops desired actual (default_production_config ops) now).score)
    × (map (λ x. x.name) r.rigs ≡ map (λ x. x.name) desired.rigs)
