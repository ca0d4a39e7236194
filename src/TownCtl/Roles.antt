-- ===== src/TownCtl/Roles.antt =====
-- Custom roles: the rows, the diff and the statements of `desired_custom_roles` and
-- `desired_rig_custom_roles` (pkg/townctl/customroles.go).
pub mod Laws
use landman.Base.{String, ◌<>◌, Bool, true, ◌&&◌, List, [], ◌∷◌, ◌++◌, map}
use landman.Base.{◌==◌, str_dec, if◌then◌else◌, length, ℤ, pos, eqb_ℤ}
use mathlib.Core.Logic.{dite}
use landman.Base.{ap}
use landman.Manifest.Types.{TownManifest, RigSpec, RoleSpec}
use landman.TownCtl.Stmt.{Stmt, str, number, placeholders, pair_placeholders}
use landman.TownCtl.Version.{TableSchemaVersion, topology_versions_upsert}
use landman.TownCtl.Topology.{or_text, or_number, text_or_null, pair_args}
use landman.TownCtl.Diff.{DiffOp, add, update, remove, plan}

pub record CustomRoleRow : Type 0 where
  pub name : String
  pub description : String
  pub scope : String
  pub lifespan : String
  pub trigger_type : String
  pub trigger_schedule : String
  pub trigger_event : String
  pub claude_md_path : String
  pub model : String
  pub parent_role : String
  pub reports_to : String
  pub max_instances : ℤ
  pub extends_role : String

pub record RigCustomRoleRow : Type 0 where
  pub rig_name : String
  pub role_name : String

unfoldable pub role_spec_to_row : (String → String) → RoleSpec → CustomRoleRow
role_spec_to_row expand r = record {
  name = r.name;
  description = r.description;
  scope = r.scope;
  lifespan = or_text r.lifespan "ephemeral";
  trigger_type = r.trigger.type;
  trigger_schedule = r.trigger.schedule;
  trigger_event = r.trigger.event;
  claude_md_path = expand r.identity.claude_md;
  model = r.identity.model;
  parent_role = r.supervision.parent;
  reports_to = r.supervision.reports_to;
  max_instances = or_number r.resources.max_instances (pos 1);
  extends_role = r.identity.extends;
}

unfoldable pub resolve_custom_roles : (String → String) → TownManifest → List CustomRoleRow
resolve_custom_roles expand m = map (role_spec_to_row expand) m.roles

rig_role_rows : List RigSpec → List RigCustomRoleRow
rig_role_rows [] = []
rig_role_rows (rig ∷ rigs) =
    map (λ role. record { rig_name = rig.name; role_name = role }) rig.agents.roles
    ++ rig_role_rows rigs

unfoldable pub resolve_rig_custom_roles : TownManifest → List RigCustomRoleRow
unfolding rig_role_rows
resolve_rig_custom_roles m = rig_role_rows m.rigs

-- Go's `==` on two rows.
unfoldable pub same_role : CustomRoleRow → CustomRoleRow → Bool
same_role a b =
    a.name == b.name
    && a.description == b.description
    && a.scope == b.scope
    && a.lifespan == b.lifespan
    && a.trigger_type == b.trigger_type
    && a.trigger_schedule == b.trigger_schedule
    && a.trigger_event == b.trigger_event
    && a.claude_md_path == b.claude_md_path
    && a.model == b.model
    && a.parent_role == b.parent_role
    && a.reports_to == b.reports_to
    && eqb_ℤ a.max_instances b.max_instances
    && a.extends_role == b.extends_role

-- The key (rig, role).
pub record RigRoleKey : Type 0 where
  pub rig : String
  pub role : String

unfoldable pub key_dec : Discrete RigRoleKey
key_dec a b =
    dite (str_dec a.rig b.rig)
      (λ p.
        dite (str_dec a.role b.role) (λ q. yes (λ i. record { rig = p i; role = q i }))
          (λ differ. no (λ e. differ (ap (λ k. k.role) e))))
      (λ differ. no (λ e. differ (ap (λ k. k.rig) e)))

abbrev pub rig_role_key : RigCustomRoleRow → RigRoleKey
rig_role_key r = record { rig = r.rig_name; role = r.role_name }

pub record CustomRolesDiff : Type 0 where
  pub role_ops : List (DiffOp CustomRoleRow)
  pub rig_role_ops : List (DiffOp RigCustomRoleRow)

-- A rig's opt-in has no fields but its key, so none is ever updated.
unfoldable pub diff_custom_roles :
    (String → String) → TownManifest → List CustomRoleRow → List RigCustomRoleRow → CustomRolesDiff
diff_custom_roles expand m current_roles current_rig_roles = record {
  role_ops = plan str_dec (λ r. r.name) same_role (resolve_custom_roles expand m) current_roles;
  rig_role_ops =
      plan key_dec rig_role_key (λ _ _. true) (resolve_rig_custom_roles m) current_rig_roles;
}

unfoldable pub upsert_custom_role_row : CustomRoleRow → Stmt
upsert_custom_role_row r = record {
  query =
      "INSERT INTO desired_custom_roles (name, description, scope, lifespan, trigger_type, trigger_schedule, trigger_event, claude_md_path, model, parent_role, reports_to, max_instances, extends_role) VALUES (?, ?, ?, ?, ?, ?, ?, ?, ?, ?, ?, ?, ?) ON DUPLICATE KEY UPDATE description = VALUES(description), scope = VALUES(scope), lifespan = VALUES(lifespan), trigger_type = VALUES(trigger_type), trigger_schedule = VALUES(trigger_schedule), trigger_event = VALUES(trigger_event), claude_md_path = VALUES(claude_md_path), model = VALUES(model), parent_role = VALUES(parent_role), reports_to = VALUES(reports_to), max_instances = VALUES(max_instances), extends_role = VALUES(extends_role);";
  args =
      str r.name
      ∷ str r.description
      ∷ str r.scope
      ∷ str r.lifespan
      ∷ str r.trigger_type
      ∷ text_or_null r.trigger_schedule
      ∷ text_or_null r.trigger_event
      ∷ str r.claude_md_path
      ∷ text_or_null r.model
      ∷ str r.parent_role
      ∷ text_or_null r.reports_to
      ∷ number r.max_instances
      ∷ text_or_null r.extends_role
      ∷ [];
}

unfoldable pub upsert_rig_custom_role_row : RigCustomRoleRow → Stmt
upsert_rig_custom_role_row r = record {
  query =
      "INSERT INTO desired_rig_custom_roles (rig_name, role_name, enabled) VALUES (?, ?, TRUE) ON DUPLICATE KEY UPDATE enabled = TRUE;";
  args = str r.rig_name ∷ str r.role_name ∷ [];
}

unfoldable pub delete_removed_custom_roles : List CustomRoleRow → Stmt
delete_removed_custom_roles [] = record { query = "DELETE FROM desired_custom_roles;"; args = [] }
delete_removed_custom_roles (r ∷ rows) = record {
  query =
      "DELETE FROM desired_custom_roles WHERE name NOT IN ("
      <> (placeholders (length (r ∷ rows)) <> ");");
  args = map (λ row. str row.name) (r ∷ rows);
}

unfoldable pub delete_removed_rig_custom_roles : List RigCustomRoleRow → Stmt
delete_removed_rig_custom_roles [] = record {
  query = "DELETE FROM desired_rig_custom_roles;";
  args = [];
}
delete_removed_rig_custom_roles (r ∷ rows) = record {
  query =
      "DELETE FROM desired_rig_custom_roles WHERE (rig_name, role_name) NOT IN ("
      <> (pair_placeholders (length (r ∷ rows)) <> ");");
  args = pair_args (map (λ row. (row.rig_name, row.role_name)) (r ∷ rows));
}

unfoldable pub custom_roles_apply_sql : (String → String) → String → TownManifest → List Stmt
custom_roles_apply_sql expand binary m =
    let desired = resolve_custom_roles expand m in
    let desired_rig = resolve_rig_custom_roles m in
    topology_versions_upsert binary (
      record { table = "desired_custom_roles"; version = 1 }
      ∷ record { table = "desired_rig_custom_roles"; version = 1 }
      ∷ [])
    ∷ (map upsert_custom_role_row desired
        ++ (delete_removed_custom_roles desired
            ∷ (map upsert_rig_custom_role_row desired_rig
                ++ (delete_removed_rig_custom_roles desired_rig ∷ []))))
