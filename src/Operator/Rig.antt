-- ===== src/Operator/Rig.antt =====
-- The Rig controller (pkg/k8s/operator/controllers/rig_controller.go).
pub mod Reconcile
pub mod Sync
pub mod View
pub mod Drain
pub mod Lifecycle
pub mod Witness
pub mod Progress
pub mod Agreement
pub mod Defaults
use landman.Base.{
  String, ◌<>◌, Bool, true, false, not, ◌||◌, Option, none, some, List, [], ◌∷◌, ◌++◌, ℤ, pos,
  Result, ok, err, ◌>>=◌, select, ◌==◌, if◌then◌else◌, eqb_ℤ,
}
use landman.TownCtl.Topology.{FormulaRow, or_text, or_number}
use landman.Operator.Types.{
  Rig, RigAgents, RigFormula, GasTown, Condition, Fetch, found, not_found, failed,
}
use landman.Operator.Tables.{
  Tables, TableVersion, AgentRow, RigRow, RigRoleRow, upsert_rig, disable_rig, delete_agents,
  insert_agent, delete_formulas, insert_formula, delete_rig_roles, insert_rig_role,
}
use landman.Operator.Dolt.{
  Engine, Write, write, upsert_topology_versions, upsert_topology_lock, transaction,
  check_topology_lock, with_hash, get_or_fail, open_dolt_connection_from_spec,
}
use landman.Operator.Machinery.{
  Machinery, CtrlResult, done, again, after_seconds, Event, event, Outcome, outcome, written,
}

-- What the reconciler reads and calls besides the database's tables of desired state.
pub record Client : Type 0 where
  pub engine : Engine
  pub machinery : Machinery
  pub update : Option String
  pub status_update : Option String
  -- `SELECT status FROM actual_rigs WHERE name = ?`: an error, no row, or the status
  pub actual_status : String → Result String (Option String)
  -- the count of `actual_agent_config` for the running polecats of a rig
  pub count_running : String → Result String ℤ

pub record ResolvedRigDefaults : Type 0 where
  pub mayor_model : String
  pub polecat_model : String
  pub max_polecats : ℤ

unfoldable pub resolve_rig_defaults : Rig → GasTown → ResolvedRigDefaults
resolve_rig_defaults rig gt = record {
  mayor_model =
      or_text rig.spec.agents.mayor_model (or_text gt.spec.defaults.mayor_model "claude-opus-4-6");
  polecat_model =
      or_text rig.spec.agents.polecat_model
        (or_text gt.spec.defaults.polecat_model "claude-sonnet-4-6");
  max_polecats =
      or_number rig.spec.agents.max_polecats (or_number gt.spec.defaults.max_polecats (pos 20));
}

agent_cfg : Rig → String → Bool → Option String → Option ℤ → Option String → AgentRow
agent_cfg rig role enabled model max path = record {
  rig_name = rig.meta.name;
  role = role;
  enabled = enabled;
  model = model;
  max_polecats = max;
  claude_md_path = path;
}

-- `agentRows`
unfoldable pub agent_cfgs : Rig → ResolvedRigDefaults → List AgentRow
unfolding agent_cfg
agent_cfgs rig resolved =
    agent_cfg rig "mayor" a.mayor (some resolved.mayor_model) none
      (some ("/gt/rigs/" <> (rig.meta.name <> "/CLAUDE.md")))
    ∷ agent_cfg rig "witness" a.witness none none none
    ∷ agent_cfg rig "refinery" a.refinery none none none
    ∷ agent_cfg rig "deacon" a.deacon none none none
    ∷ agent_cfg rig "polecat" true (some resolved.polecat_model) (some resolved.max_polecats) none
    ∷ []
  where
    open rig.spec use {agents as a}

-- The rows of the roles that are enabled.
unfoldable pub desired_agents : Rig → ResolvedRigDefaults → List AgentRow
unfolding agent_cfgs
desired_agents rig resolved = select (λ r. r.enabled) (agent_cfgs rig resolved)

abbrev pub insert_agents : Engine → List AgentRow → List Write
insert_agents e [] = []
insert_agents e (r ∷ rows) =
    write (insert_agent r) ("insert desired_agent_config " <> (e.quote r.role <> ": "))
    ∷ insert_agents e rows

abbrev pub formula_row : String → RigFormula → FormulaRow
formula_row rig_name f = record { rig_name = rig_name; name = f.name; schedule = f.schedule }

abbrev pub insert_formulas : Engine → String → List RigFormula → List Write
insert_formulas e rig_name [] = []
insert_formulas e rig_name (f ∷ fs) =
    write (insert_formula (formula_row rig_name f))
      ("insert desired_formulas " <> (e.quote f.name <> ": "))
    ∷ insert_formulas e rig_name fs

abbrev pub rig_role_row : String → String → RigRoleRow
rig_role_row rig_name role_name = record {
  rig_name = rig_name;
  role_name = role_name;
  enabled = true;
}

abbrev pub insert_rig_roles : Engine → String → List String → List Write
insert_rig_roles e rig_name [] = []
insert_rig_roles e rig_name (role ∷ roles) =
    write (insert_rig_role (rig_role_row rig_name role))
      ("insert desired_rig_custom_roles " <> (e.quote role <> ": "))
    ∷ insert_rig_roles e rig_name roles

abbrev pub table_version : String → TableVersion
table_version table = record { table = table; version = 1 }

abbrev pub rig_row : Rig → RigRow
rig_row rig = record {
  name = rig.meta.name;
  repo = rig.spec.repo;
  branch = rig.spec.branch;
  enabled = rig.spec.enabled;
}

abbrev pub rig_versions : List TableVersion
rig_versions =
    table_version "desired_rigs"
    ∷ table_version "desired_agent_config"
    ∷ table_version "desired_formulas"
    ∷ table_version "desired_rig_custom_roles"
    ∷ []

-- The statements of `syncToDolt`, in order.
unfoldable pub sync_writes : Engine → Rig → ResolvedRigDefaults → List Write
unfolding desired_agents
sync_writes e rig resolved =
    upsert_topology_versions e rig_versions
    ++ (upsert_topology_lock
        ∷ write (upsert_rig (rig_row rig)) "upsert desired_rigs: "
        ∷ write (delete_agents rig.meta.name) "delete desired_agent_config: "
        ∷ (insert_agents e (desired_agents rig resolved)
            ++ (write (delete_formulas rig.meta.name) "delete desired_formulas: "
                ∷ (insert_formulas e rig.meta.name rig.spec.formulas
                    ++ (write (delete_rig_roles rig.meta.name) "delete desired_rig_custom_roles: "
                        ∷ insert_rig_roles e rig.meta.name rig.spec.roles)))))

-- `syncToDolt`: the hash of the commit or an error, and the tables afterwards.
unfoldable pub sync_to_dolt :
    Engine → Rig → ResolvedRigDefaults → Tables → Result String String × Tables
unfolding sync_writes
sync_to_dolt e rig resolved t = elim (check_topology_lock e t) [
  | err x ↦ (err x, t)
  | ok _ ↦ with_hash e (transaction e (sync_writes e rig resolved) t)
]

abbrev pub rig_drain_finalizer : String
rig_drain_finalizer = "gastown.io/rig-drain"

abbrev pub disable_writes : Engine → String → List Write
disable_writes e rig_name =
    upsert_topology_versions e (table_version "desired_rigs" ∷ [])
    ++ (upsert_topology_lock ∷ write (disable_rig rig_name) "disable rig in desired_rigs: " ∷ [])

-- `setRigDisabled`
unfoldable pub set_rig_disabled : Engine → String → Tables → Result String (Unit {0}) × Tables
set_rig_disabled e rig_name t = elim (check_topology_lock e t) [
  | err x ↦ (err x, t)
  | ok _ ↦ transaction e (disable_writes e rig_name) t
]

-- `isRigStopped`: a rig that was never active counts as stopped.
unfoldable pub is_rig_stopped : Client → String → Result String Bool
is_rig_stopped c rig_name = elim (c.actual_status rig_name) [
  | err x ↦ err ("query actual_rigs: " <> x)
  | ok none ↦ ok true
  | ok (some status) ↦ ok (status == "stopped")
]
