-- ===== src/Tests/TownCtl.antt =====
-- The plans, the statements, the includes, the patrol and the merged files on sample data.
use landman.Base.{
  ◌≡◌, refl, ◌<>◌, ◌==◌, if◌then◌else◌, str_dec, String, true, none, some, ℕ, List, [], ◌∷◌, ◌++◌,
  map, select, All, pos, arith, ok, err,
}
use landman.Manifest.Types.{TownManifest, RoleSpec, is_empty}
use landman.Manifest.Validate.Names.{Unique, names_of_rigs, names_of_roles}
use landman.Manifest.Merge.{resolve_extends_chain, by_name, merge_extends_chain}
use landman.TownCtl.Diff.{Action, add, update, remove, find, plan, plan_writes, plan_removals}
use landman.TownCtl.Diff.Laws.{Agrees, after}
use landman.TownCtl.Costs.{
  CostPolicyRow, same_row, dry_run_plan, resolve_cost_policies, policies, resolve_rig_policy,
  cost_policy_to_row, budget,
}
use landman.TownCtl.Costs.Laws as CostLaws
use landman.TownCtl.Costs.Laws.{dry_run_plan-Agrees, policy_of, rig_name}
use landman.TownCtl.Roles.{diff_custom_roles, resolve_custom_roles, resolve_rig_custom_roles}
use landman.TownCtl.Roles.Laws as RoleLaws
use landman.TownCtl.Roles.Laws.{diff_custom_roles-after, diff_custom_roles_self, row_of, role_name}
use landman.Base.{not}
use landman.Manifest.Types.{is_nil}
use landman.TownCtl.Roles.{RigRoleKey, key_dec, rig_role_key}
use landman.TownCtl.Roles.Laws.{opts_in, diff_custom_roles_opt_ins}
use landman.TownCtl.Stmt.Marks.{IsBound}
use landman.TownCtl.Apply.{transaction}
use landman.TownCtl.Apply.Bound.{transaction-IsBound}
use landman.TownCtl.Includes.{duplicate_rig, merge_includes, merge_files, merge_rigs, merge_roles}
use landman.TownCtl.Includes.Laws.{all_rigs, all_roles, merge_includes-Unique}
use landman.TownCtl.Patrol.{
  PatrolRow, Formats, PatrolAction, patrol_drain, pct_used, drain_bead, warn_bead,
  compute_patrol_beads,
}
use landman.TownCtl.Patrol.Laws.{
  is_drain, is_warn, is_drain_bead, is_warn_bead, IsOrdered, IsFiled, spent,
  compute_patrol_beads_rules,
}
use landman.TownCtl.Merged.{
  Host, Files, redirect, merge_and_write_extends_chains, merge_loop, write_merged,
}
use landman.TownCtl.Merged.Laws.{redirected, merge_and_write_extends_chains-redirected}
use landman.Tests.Samples.{
  sample_ops, float, as_is, sample, town, rig, role, base, mid, deep, no_cost,
}
use landman.Tests.Manifest.{sample_valid}

abbrev table : List CostPolicyRow
table =
    record {
      rig_name = "alpha";
      budget_type = "messages";
      daily_budget = float 50;
      warn_at_pct = pos 80;
    }
    ∷ record {
      rig_name = "gone";
      budget_type = "usd";
      daily_budget = float 5;
      warn_at_pct = pos 80;
    }
    ∷ []

-- `alpha` has a policy of its own, `beta` takes the default's.
cost_plan :
    map {B = Action × String × ℕ}
      (λ op. (op.action, op.row.rig_name, op.row.daily_budget.bits))
      (dry_run_plan sample_ops sample table)
    ≡ (update, "alpha", 100) ∷ (add, "beta", 500) ∷ (remove, "gone", 5) ∷ []
unfolding dry_run_plan plan plan_writes plan_removals resolve_cost_policies policies
    resolve_rig_policy cost_policy_to_row budget is_empty same_row str_dec
cost_plan = refl

included_twice : merge_includes sample (sample ∷ []) ≡ err (duplicate_rig "alpha")
unfolding merge_includes merge_files merge_rigs merge_roles str_dec
included_twice = refl

abbrev more : TownManifest
more = town (rig "gamma" no_cost [] ∷ []) (role "other" "" ∷ [])

abbrev merged : TownManifest
merged = record sample { rigs = sample.rigs ++ more.rigs; roles = sample.roles ++ more.roles }

included : merge_includes sample (more ∷ []) ≡ ok merged
unfolding merge_includes merge_files merge_rigs merge_roles str_dec
included = refl

abbrev patrolled : List PatrolRow
patrolled =
    record {
      rig_name = "a";
      budget_type = "usd";
      daily_budget = float 10;
      warn_at_pct = pos 80;
      spend = float 20;
    }
    ∷ record {
      rig_name = "b";
      budget_type = "usd";
      daily_budget = float 1;
      warn_at_pct = pos 80;
      spend = float 0;
    }
    ∷ []

abbrev formats : Formats
formats = record { f0 = λ x. "n"; f1 = λ x. "n"; f4 = λ x. "n" }

one_drain :
    map {B = PatrolAction × String}
      (λ b. (b.action, b.rig_name))
      (compute_patrol_beads sample_ops formats patrolled)
    ≡ (patrol_drain, "a") ∷ []
unfolding compute_patrol_beads pct_used drain_bead warn_bead
one_drain = refl

abbrev host : Host
host = record {
  expand = as_is;
  join = λ dir name. dir <> ("/" <> name);
  can_make = λ dir. true;
  can_write = λ path. true;
}

abbrev disk : Files
disk path =
    if path == "/base"
    then some "B"
    else if path == "/mid"
    then some "M"
    else if path == "/deep"
    then some "D"
    else none

abbrev redirected_sample : TownManifest
redirected_sample = record sample { roles = base ∷ at mid ∷ at deep ∷ [] }
  where
    at : RoleSpec → RoleSpec
    at r = record r {
      identity = record r.identity { claude_md = "/gt/roles/merged/" <> (r.name <> ".md") };
    }

merged_run :
    (out : Files × TownManifest) × (merge_and_write_extends_chains host sample "/gt" disk ≡ ok out)
unfolding merge_and_write_extends_chains merge_loop write_merged redirect resolve_extends_chain
    by_name merge_extends_chain str_dec
merged_run = (_, refl)

-- The base's text stands twice in the file of `deep`: `mid` points to its merged file by then.
base_twice :
    merged_run.0.0 "/gt/roles/merged/deep.md"
    ≡ some
        "B\n\n---\n<!-- extends override -->\n\nB\n\n---\n<!-- extends override -->\n\nM\n\n---\n<!-- extends override -->\n\nD"
unfolding merged_run str_dec
base_twice = refl

dry_run_plan-Agrees_example :
    Agrees
      (same_row sample_ops)
      (after str_dec CostLaws.row_name "beta"
        (find str_dec CostLaws.row_name "beta" table)
        (dry_run_plan sample_ops sample table))
      (policy_of sample_ops sample.defaults (find str_dec rig_name "beta" sample.rigs))
dry_run_plan-Agrees_example = dry_run_plan-Agrees sample_ops sample table "beta" sample_valid

diff_custom_roles-after_example :
    after str_dec RoleLaws.row_name "deep"
      (find str_dec RoleLaws.row_name "deep" [])
      (diff_custom_roles as_is sample [] []).role_ops
    ≡ row_of as_is (find str_dec role_name "deep" sample.roles)
diff_custom_roles-after_example =
    diff_custom_roles-after sample_ops as_is sample [] [] "deep" sample_valid

diff_custom_roles_self_example :
    diff_custom_roles as_is sample
      (resolve_custom_roles as_is sample)
      (resolve_rig_custom_roles sample)
    ≡ record { role_ops = []; rig_role_ops = [] }
diff_custom_roles_self_example = diff_custom_roles_self sample_ops as_is sample sample_valid

transaction-IsBound_example :
    All IsBound (transaction sample_ops as_is "town-ctl" "town.toml" sample)
transaction-IsBound_example = transaction-IsBound sample_ops as_is "town-ctl" "town.toml" sample

sample_rigs-Unique : Unique (names_of_rigs sample.rigs)
unfolding str_dec
sample_rigs-Unique = (refl, (refl, tt))

sample_roles-Unique : Unique (names_of_roles sample.roles)
unfolding str_dec
sample_roles-Unique = (refl, (refl, (refl, tt)))

merge_includes-Unique_example :
    (merged ≡ record sample {
      rigs = sample.rigs ++ all_rigs (more ∷ []);
      roles = sample.roles ++ all_roles (more ∷ []);
    })
    × Unique (names_of_rigs merged.rigs)
    × Unique (names_of_roles merged.roles)
merge_includes-Unique_example =
    merge_includes-Unique sample (more ∷ []) {m = merged} sample_rigs-Unique sample_roles-Unique
      included

sample_ops-IsOrdered : IsOrdered sample_ops
sample_ops-IsOrdered = record {
  lt_of_not_le = λ x a b h l. ground arith;
  not_lt_of_le = λ x b h. ground arith;
}

compute_patrol_beads_rules_example :
    let beads = compute_patrol_beads sample_ops formats patrolled in
    (select is_drain_bead beads
      ≡ map
          (λ r. drain_bead formats r (spent sample_ops r))
          (select (is_drain sample_ops) patrolled))
    × (select is_warn_bead beads
        ≡ map
            (λ r. warn_bead formats r (spent sample_ops r))
            (select (is_warn sample_ops) patrolled))
    × (map (λ b. b.rig_name) (select is_drain_bead beads)
        ≡ map (λ r. r.rig_name) (select (is_drain sample_ops) patrolled))
    × (map (λ b. b.rig_name) (select is_warn_bead beads)
        ≡ map (λ r. r.rig_name) (select (is_warn sample_ops) patrolled))
    × All IsFiled beads
compute_patrol_beads_rules_example =
    compute_patrol_beads_rules sample_ops formats patrolled sample_ops-IsOrdered

merge_and_write_extends_chains-redirected_example :
    merged_run.0.1 ≡ record sample { roles = map (redirected host "/gt/roles/merged") sample.roles }
merge_and_write_extends_chains-redirected_example =
    merge_and_write_extends_chains-redirected host sample "/gt" disk {out = merged_run.0}
      merged_run.1

abbrev alpha_deep : RigRoleKey
alpha_deep = record { rig = "alpha"; role = "deep" }

diff_custom_roles_opt_ins_example :
    is_nil (
      after key_dec rig_role_key alpha_deep
        (find key_dec rig_role_key alpha_deep [])
        (diff_custom_roles as_is sample [] []).rig_role_ops)
    ≡ not (opts_in sample.rigs alpha_deep)
diff_custom_roles_opt_ins_example = diff_custom_roles_opt_ins as_is sample [] [] alpha_deep
