-- ===== src/TownCtl/Costs.antt =====
-- Cost policies: the inheritance chain, the statements, and the dry-run plan
-- (pkg/townctl/costpolicy.go).
pub mod Laws
use landman.Base.{String, ◌<>◌, Bool, ◌&&◌, Option, none, some, List, [], ◌∷◌, ◌++◌, map}
use landman.Base.{◌==◌, str_dec, if◌then◌else◌, length, ℤ, pos, eqb_ℤ}
use landman.Base.Decimal.{show_ℤ}
use landman.Base.Float.{Float64, FloatOps}
use landman.Manifest.Types.{TownManifest, RigSpec, RigDefaults, CostPolicy, is_empty}
use landman.TownCtl.Stmt.{Stmt, str, number, float, placeholders}
use landman.TownCtl.Version.{TableSchemaVersion, topology_versions_upsert}
use landman.TownCtl.Diff.{DiffOp, add, update, remove, plan}

pub record CostPolicyRow : Type 0 where
  pub rig_name : String
  pub budget_type : String
  pub daily_budget : Float64
  pub warn_at_pct : ℤ

abbrev or_default : Option ℤ → ℤ → ℤ
or_default none d = d
or_default (some n) d = n

-- The type and the amount of the budget that is set: the first of the three counts.
unfoldable pub budget : FloatOps → Option Float64 → Option ℤ → Option ℤ → String × Float64
budget ops (some usd) messages tokens = ("usd", usd)
budget ops none (some n) tokens = ("messages", ops.of_int n)
budget ops none none (some n) = ("tokens", ops.of_int n)
budget ops none none none = ("", ops.of_int (pos 0))

unfoldable pub cost_policy_to_row : FloatOps → String → CostPolicy → CostPolicyRow
unfolding budget
cost_policy_to_row ops rig p =
    let (budget_type, amount) =
      budget ops p.daily_budget_usd p.daily_budget_messages p.daily_budget_tokens in
    record {
      rig_name = rig;
      budget_type = budget_type;
      daily_budget = amount;
      warn_at_pct = or_default p.warn_at_pct (pos 80);
    }

-- `none` is the unrestricted rig, which has no row.
unfoldable pub resolve_rig_policy : FloatOps → RigSpec → RigDefaults → Option CostPolicyRow
resolve_rig_policy ops rig defaults =
    if is_empty rig.cost
    then if is_empty defaults.cost
      then none
      else some (cost_policy_to_row ops rig.name defaults.cost)
    else some (cost_policy_to_row ops rig.name rig.cost)

unfoldable pub policies : FloatOps → RigDefaults → List RigSpec → List CostPolicyRow
policies ops defaults [] = []
policies ops defaults (rig ∷ rigs) =
    let rest = policies ops defaults rigs in
    elim (resolve_rig_policy ops rig defaults) [ none ↦ rest | some row ↦ row ∷ rest ]

unfoldable pub resolve_cost_policies : FloatOps → TownManifest → List CostPolicyRow
unfolding policies
resolve_cost_policies ops m = policies ops m.defaults m.rigs

unfoldable pub upsert_row : CostPolicyRow → Stmt
upsert_row r = record {
  query =
      "INSERT INTO desired_cost_policy (rig_name, budget_type, daily_budget, warn_at_pct) VALUES (?, ?, ?, ?) ON DUPLICATE KEY UPDATE budget_type = VALUES(budget_type), daily_budget = VALUES(daily_budget), warn_at_pct = VALUES(warn_at_pct);";
  args = str r.rig_name ∷ str r.budget_type ∷ float r.daily_budget ∷ number r.warn_at_pct ∷ [];
}

unfoldable pub cleanup_rows : List CostPolicyRow → Stmt
cleanup_rows [] = record { query = "DELETE FROM desired_cost_policy;"; args = [] }
cleanup_rows (r ∷ desired) = record {
  query =
      "DELETE FROM desired_cost_policy WHERE rig_name NOT IN ("
      <> (placeholders (length (r ∷ desired)) <> ");");
  args = map (λ row. str row.rig_name) (r ∷ desired);
}

unfoldable pub apply_sql : FloatOps → String → TownManifest → List Stmt
apply_sql ops binary m =
    let desired = resolve_cost_policies ops m in
    topology_versions_upsert binary (record { table = "desired_cost_policy"; version = 1 } ∷ [])
    ∷ (map upsert_row desired ++ (cleanup_rows desired ∷ []))

-- Go's `==` on two rows.
unfoldable pub same_row : FloatOps → CostPolicyRow → CostPolicyRow → Bool
same_row ops a b =
    a.rig_name == b.rig_name
    && a.budget_type == b.budget_type
    && ops.eq a.daily_budget b.daily_budget
    && eqb_ℤ a.warn_at_pct b.warn_at_pct

unfoldable pub dry_run_plan :
    FloatOps → TownManifest → List CostPolicyRow → List (DiffOp CostPolicyRow)
dry_run_plan ops m current =
    plan str_dec (λ r. r.rig_name) (same_row ops) (resolve_cost_policies ops m) current

-- `%.4f` is a parameter.
format_values : (Float64 → String) → CostPolicyRow → String
format_values f4 r =
    r.rig_name
    <> (" budget_type="
        <> (r.budget_type
            <> (" daily_budget="
                <> (f4 r.daily_budget <> (" warn_at_pct=" <> (show_ℤ r.warn_at_pct <> "\n"))))))

format_op : (Float64 → String) → DiffOp CostPolicyRow → String
format_op f4 op = elim op.action [
  | add ↦ "+ desired_cost_policy: rig_name=" <> format_values f4 op.row
  | update ↦ "~ desired_cost_policy: rig_name=" <> format_values f4 op.row
  | remove ↦ "- desired_cost_policy: rig_name=" <> (op.row.rig_name <> "\n")
]

format_ops : (Float64 → String) → List (DiffOp CostPolicyRow) → String
format_ops f4 [] = ""
format_ops f4 (op ∷ ops) = format_op f4 op <> format_ops f4 ops

unfoldable pub format_dry_run : (Float64 → String) → List (DiffOp CostPolicyRow) → String
unfolding format_ops format_op format_values
format_dry_run f4 [] = "desired_cost_policy: no changes\n"
format_dry_run f4 (op ∷ ops) = format_ops f4 (op ∷ ops)
