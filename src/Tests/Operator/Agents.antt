-- ===== src/Tests/Operator/Agents.antt =====
-- The agent rows of the operator and of `town-ctl` on samples.
use landman.Base.{◌≡◌, refl, true, false, [], none, pos, map, select, str_dec}
use landman.Manifest.Types
use landman.TownCtl.Topology.{rig_agent_rows}
use landman.Operator.Types.{Rig, GasTown}
use landman.Operator.Tables.{Tables, run, upsert}
use landman.Operator.Dolt.{transaction, exec_all, check_topology_lock, is_locked_out}
use landman.Operator.Rig.{
  ResolvedRigDefaults, resolve_rig_defaults, sync_to_dolt, sync_writes, agent_cfgs, desired_agents,
}
use landman.Operator.Rig.Agreement.{
  of_operator, of_town_ctl, SameAgents, SameDefaults, desired_agents-rig_agent_rows,
}
use landman.Operator.Rig.Witness.{
  pair_of, pair_of_row, sync_to_dolt_witness, rig_agent_rows_witness,
}
use landman.Operator.Town.Status.{witness_enabled}
use landman.Tests.Samples
use landman.Tests.Operator.{rig, town, empty, engine}

-- The manifest's rig `alpha`, as resources.
abbrev spec : Types.RigSpec
spec = Samples.rig "alpha" Samples.no_cost []

abbrev defaults : Types.RigDefaults
defaults = Samples.sample.defaults

abbrev as_rig : Rig
as_rig = record (rig false []) {
  spec = record (rig false []).spec {
    agents = record {
      mayor = true;
      witness = true;
      refinery = false;
      deacon = false;
      mayor_model = "";
      polecat_model = "";
      max_polecats = pos 2;
      mayor_claude_md_ref = none;
    };
  };
}

abbrev as_town : GasTown
as_town = record town {
  spec = record town.spec {
    defaults = record { mayor_model = "m"; polecat_model = "p"; max_polecats = pos 3 };
  };
}

same_agents : SameAgents as_rig spec
same_agents = record {
  mayor = refl;
  witness = refl;
  refinery = refl;
  deacon = refl;
  mayor_model = refl;
  polecat_model = refl;
  max_polecats = refl;
}

same_defaults : SameDefaults as_town defaults
same_defaults = record { mayor_model = refl; polecat_model = refl; max_polecats = refl }

desired_agents-rig_agent_rows_example :
    map of_operator (desired_agents as_rig (resolve_rig_defaults as_rig as_town))
    ≡ map of_town_ctl (select (λ r. r.enabled) (rig_agent_rows Samples.as_is defaults spec))
desired_agents-rig_agent_rows_example =
    desired_agents-rig_agent_rows Samples.as_is as_rig spec as_town defaults same_agents
      same_defaults

abbrev resolved : ResolvedRigDefaults
resolved = record { mayor_model = "opus"; polecat_model = "haiku"; max_polecats = pos 5 }

abbrev after_sync : Tables
after_sync = (sync_to_dolt engine (rig false []) resolved empty).1

sync_to_dolt_witness_example : witness_enabled (map pair_of after_sync.agents) "alpha" ≡ false
unfolding sync_to_dolt sync_writes agent_cfgs desired_agents transaction exec_all run upsert
    check_topology_lock is_locked_out str_dec
sync_to_dolt_witness_example =
    sync_to_dolt_witness engine (rig false []) resolved empty after_sync "abc" tt refl

-- A rig whose witness is off.
abbrev unwatched : Types.RigSpec
unwatched = record spec { agents = record spec.agents { witness = false } }

rig_agent_rows_witness_example :
    witness_enabled (map pair_of_row (rig_agent_rows Samples.as_is defaults unwatched)) "alpha"
    ≡ true
rig_agent_rows_witness_example = rig_agent_rows_witness Samples.as_is defaults unwatched
