-- ===== src/Operator/Role.antt =====
-- The AgentRole controller (pkg/k8s/operator/controllers/agentrole_controller.go).
pub mod Laws
use landman.Base.{
  String, ◌<>◌, Bool, true, false, not, ◌||◌, Option, none, some, List, [], ◌∷◌, ◌++◌, ℤ, pos,
  Result, ok, err, contains, ◌==◌, if◌then◌else◌, eqb_ℤ,
}
use landman.TownCtl.Topology.{or_text, or_number}
use landman.Operator.Types.{AgentRole, Fetch, found, not_found, failed}
use landman.Operator.Webhooks.{reserved_role_names}
use landman.Operator.Tables.{
  Tables, TableVersion, RoleRow, upsert_role, delete_role, delete_role_uses,
}
use landman.Operator.Dolt.{
  Engine, Write, write, upsert_topology_versions, transaction, with_hash, open_dolt_connection,
}
use landman.Operator.Machinery.{
  Machinery, CtrlResult, done, again, after_seconds, Outcome, outcome, written,
}

pub record Client : Type 0 where
  pub engine : Engine
  pub machinery : Machinery
  pub update : Option String
  pub status_update : Option String
  -- `SELECT COUNT(*), MAX(last_seen) FROM actual_custom_roles WHERE role_name = ?`
  pub actual_instances : String → Result String (ℤ × Option ℤ)

abbrev pub agent_role_cleanup_finalizer : String
agent_role_cleanup_finalizer = "gastown.io/role-cleanup"

-- An empty text is NULL.
abbrev null_text : String → Option String
null_text s = if s == "" then none else some s

unfoldable pub role_row : AgentRole → RoleRow
role_row ar = record {
  name = ar.meta.name;
  scope = ar.spec.scope;
  claude_md_path = "/gt/roles/" <> (ar.meta.name <> "/CLAUDE.md");
  trigger_type = ar.spec.trigger.trigger_type;
  trigger_schedule = null_text ar.spec.trigger.schedule;
  trigger_event = null_text ar.spec.trigger.event;
  parent_role = ar.spec.supervision.parent;
  reports_to = or_text ar.spec.supervision.reports_to ar.spec.supervision.parent;
  max_instances = or_number ar.spec.resources.max_instances (pos 1);
}

abbrev pub role_versions : List TableVersion
role_versions =
    record { table = "desired_custom_roles"; version = 1 }
    ∷ record { table = "desired_rig_custom_roles"; version = 1 }
    ∷ []

abbrev pub role_writes : Engine → AgentRole → List Write
role_writes e ar =
    upsert_topology_versions e role_versions
    ++ (write (upsert_role (role_row ar)) "upsert desired_custom_roles: " ∷ [])

-- `syncToDolt`. The advisory lock is neither checked nor taken.
unfoldable pub sync_to_dolt : Engine → AgentRole → Tables → Result String String × Tables
unfolding role_row
sync_to_dolt e ar t = with_hash e (transaction e (role_writes e ar) t)

abbrev pub delete_writes : Engine → String → List Write
delete_writes e role_name =
    upsert_topology_versions e role_versions
    ++ (write (delete_role_uses role_name) "delete desired_rig_custom_roles: "
        ∷ write (delete_role role_name) "delete desired_custom_roles: "
        ∷ [])

-- `deleteFromDolt`
unfoldable pub delete_from_dolt : Engine → String → Tables → Result String (Unit {0}) × Tables
delete_from_dolt e role_name t = transaction e (delete_writes e role_name) t

abbrev pub has_finalizer : Client → AgentRole → Bool
has_finalizer c ar = c.machinery.contains_finalizer ar.meta.finalizers agent_role_cleanup_finalizer

abbrev pub without_finalizer : Client → AgentRole → AgentRole
without_finalizer c ar = record ar {
  meta = record ar.meta {
    finalizers = c.machinery.remove_finalizer ar.meta.finalizers agent_role_cleanup_finalizer;
  };
}

abbrev with_finalizer : Client → AgentRole → AgentRole
with_finalizer c ar = record ar {
  meta = record ar.meta {
    finalizers = c.machinery.add_finalizer ar.meta.finalizers agent_role_cleanup_finalizer;
  };
}

abbrev pub release : Client → AgentRole → Result String (Unit {0}) × Tables → Outcome AgentRole
release c ar (err x, t) = outcome done (some ("delete from dolt: " <> x)) (some ar) t []
release c ar (ok _, t) =
    outcome done (elim c.update [ none ↦ none | some x ↦ some ("remove finalizer: " <> x) ])
      (some (written c.update ar (without_finalizer c ar))) t []

abbrev pub delete_connected : Client → AgentRole → Tables → Result String String → Outcome AgentRole
delete_connected c ar t (err x) =
    outcome (after_seconds 10) (some ("dolt not ready during deletion: " <> x)) (some ar) t []
delete_connected c ar t (ok _) = release c ar (delete_from_dolt c.engine ar.meta.name t)

-- `handleDeletion`
unfoldable pub handle_deletion : Client → AgentRole → Tables → Outcome AgentRole
unfolding delete_from_dolt
handle_deletion c ar t =
    if has_finalizer c ar
    then delete_connected c ar t (open_dolt_connection c.engine ar.spec.town_ref ar.meta.namespace)
    else outcome done none (some ar) t []

-- `setCondition`
abbrev with_condition : Client → AgentRole → String → String → String → AgentRole
with_condition c ar status reason message = record ar {
  status = record ar.status {
    conditions = c.machinery.set_status_condition ar.status.conditions (record {
      condition_type = "DesiredTopologyInSync";
      status = status;
      observed_generation = ar.meta.generation;
      reason = reason;
      message = message;
    });
  };
}

-- A reconcile that stops with the condition false; the error of the status update is only logged.
abbrev not_in_sync :
    Client → AgentRole → Tables → CtrlResult → Option String → String → String → Outcome AgentRole
not_in_sync c ar t result error reason message =
    outcome result error
      (some (written c.status_update ar (with_condition c ar "False" reason message))) t []

abbrev synced_status : Client → AgentRole → String → AgentRole
synced_status c ar commit =
    with_condition c
      (record ar {
        status = record ar.status {
          dolt_commit = commit;
          observed_generation = ar.meta.generation;
        };
      })
      "True" "Synced" "desired_custom_roles written successfully"

-- Steps 6 and 7.
abbrev report_sync : Client → AgentRole → Result String String × Tables → Outcome AgentRole
report_sync c ar (err x, t) = not_in_sync c ar t done (some x) "DoltWriteFailed" x
report_sync c ar (ok commit, t) = elim c.status_update [
  | some x ↦ outcome done (some ("update status: " <> x)) (some ar) t []
  | none ↦ outcome done none (some (synced_status c ar commit)) t []
]

-- Step 5.
abbrev reconcile_connected : Client → AgentRole → Tables → Result String String → Outcome AgentRole
reconcile_connected c ar t (err x) = not_in_sync c ar t (after_seconds 10) none "DoltNotReady" x
reconcile_connected c ar t (ok _) = report_sync c ar (sync_to_dolt c.engine ar t)

abbrev add_cleanup_finalizer : Client → AgentRole → Tables → Outcome AgentRole
add_cleanup_finalizer c ar t = elim c.update [
  | some x ↦ outcome done (some ("add finalizer: " <> x)) (some ar) t []
  | none ↦ outcome again none (some (with_finalizer c ar)) t []
]

-- `Reconcile`, with the answer of the API server to the read of the role.
unfoldable pub reconcile : Client → Fetch AgentRole → Tables → Outcome AgentRole
unfolding handle_deletion sync_to_dolt
reconcile c (not_found x) t = outcome done none none t []
reconcile c (failed x) t = outcome done (some ("get agentrole: " <> x)) none t []
reconcile c (found ar) t =
    if ar.meta.deleting
    then handle_deletion c ar t
    else if not (has_finalizer c ar)
    then add_cleanup_finalizer c ar t
    else if contains reserved_role_names ar.meta.name
    then not_in_sync c ar t done none "ReservedName"
        ("name " <> (c.engine.quote ar.meta.name <> " is reserved"))
    else reconcile_connected c ar t
        (open_dolt_connection c.engine ar.spec.town_ref ar.meta.namespace)

-- `timeEqual`
abbrev time_equal : Option ℤ → Option ℤ → Bool
time_equal none none = true
time_equal none (some b) = false
time_equal (some a) none = false
time_equal (some a) (some b) = eqb_ℤ a b

abbrev patch_role_status : Client → AgentRole → ℤ → Option ℤ → Option String × AgentRole
patch_role_status c ar active seen =
    if not (eqb_ℤ active ar.status.active_instances) || not (time_equal seen ar.status.last_seen_at)
    then (
      elim c.status_update [ none ↦ none | some x ↦ some ("update status: " <> x) ],
      written c.status_update ar (record ar {
        status = record ar.status { active_instances = active; last_seen_at = seen };
      }),
    )
    else (none, ar)

-- `patchStatusFromActual`: the error, and the role as it is stored. A NULL time keeps the old one.
unfoldable pub patch_status_from_actual : Client → AgentRole → Option String × AgentRole
patch_status_from_actual c ar = elim (c.actual_instances ar.meta.name) [
  | err x ↦ (some ("query actual_custom_roles: " <> x), ar)
  | ok (active, none) ↦ patch_role_status c ar active ar.status.last_seen_at
  | ok (active, some t) ↦ patch_role_status c ar active (some t)
]
