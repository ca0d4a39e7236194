-- ===== src/TownCtl/Costs/Laws.antt =====
-- Cost policies (pkg/townctl/costpolicy.go): which rigs have a row, and the dry-run plan.
use landman.Base.{String, ◌≡◌, refl, subst, ◌∙◌, false, Option, none, some, List, [], ◌∷◌, arith}
use landman.Base.{
  ok, ℤ, pos, All, All-map, if◌then◌else◌, str_dec, contains, Option-cases, inl, inr,
}
use landman.Base.Float.{Float64, FloatOps}
use landman.Manifest.Types.{TownManifest, RigSpec, RigDefaults, CostPolicy, is_empty}
use landman.Manifest.Cost.{set_fields}
use landman.Manifest.Rules.{IsPolicy}
use landman.Manifest.Rules.Checks.{cross_validate-IsValid}
use landman.Manifest.Validate.{cross_validate}
use landman.Manifest.Validate.Names.{Unique, names_of_rigs, cross_validate-Unique}
use landman.TownCtl.Diff.{find, keeps}
use landman.TownCtl.Diff.Laws.{Agrees, after, Distinct, plan-Agrees, find_of_absent}
use landman.TownCtl.Costs.{
  CostPolicyRow, cost_policy_to_row, resolve_rig_policy, policies, resolve_cost_policies, same_row,
  dry_run_plan,
}

abbrev pub row_name : CostPolicyRow → String
row_name r = r.rig_name

abbrev pub rig_name : RigSpec → String
rig_name r = r.name

resolve_rig_policy-name :
    (ops : FloatOps) (rig : RigSpec) (d : RigDefaults) {row : CostPolicyRow}
    → resolve_rig_policy ops rig d ≡ some row
    → row.rig_name ≡ rig.name
unfolding resolve_rig_policy cost_policy_to_row
resolve_rig_policy-name ops rig d h = ground arith

policies-keeps :
    (ops : FloatOps) (d : RigDefaults) (rigs : List RigSpec) (k : String)
    → contains (names_of_rigs rigs) k ≡ false
    → keeps str_dec row_name (policies ops d rigs) k ≡ false
unfolding policies
policies-keeps ops d [] k h = refl
policies-keeps ops d (rig ∷ rigs) k h = elim (Option-cases (resolve_rig_policy ops rig d)) [
  | inl e ↦ ground (arith, policies-keeps ops d rigs k)
  | inr (row, e) ↦ ground (arith, policies-keeps ops d rigs k, resolve_rig_policy-name ops rig d e)
]

policies-Distinct :
    (ops : FloatOps) (d : RigDefaults) (rigs : List RigSpec)
    → Unique (names_of_rigs rigs)
    → Distinct str_dec row_name (policies ops d rigs)
unfolding policies
policies-Distinct ops d [] u = tt
policies-Distinct ops d (rig ∷ rigs) (fresh, u) =
    elim (Option-cases (resolve_rig_policy ops rig d)) [
      | inl e ↦ ground (arith, policies-Distinct ops d rigs u)
      | inr (row, e) ↦ ground (
        arith,
        policies-Distinct ops d rigs u,
        policies-keeps ops d rigs rig.name fresh,
        resolve_rig_policy-name ops rig d e,
      )
    ]

rigs-keeps :
    (rigs : List RigSpec) (k : String)
    → keeps str_dec rig_name rigs k ≡ contains (names_of_rigs rigs) k
rigs-keeps [] k = refl
rigs-keeps (rig ∷ rigs) k = ground (arith, rigs-keeps rigs k)

abbrev resolved_of : FloatOps → RigDefaults → Option RigSpec → Option CostPolicyRow
resolved_of ops d none = none
resolved_of ops d (some rig) = resolve_rig_policy ops rig d

-- The row of each rig is the one that the inheritance chain gives it, and there is no other row.
policies-find :
    (ops : FloatOps) (d : RigDefaults) (rigs : List RigSpec) (k : String)
    → Unique (names_of_rigs rigs)
    → find str_dec row_name k (policies ops d rigs)
      ≡ resolved_of ops d (find str_dec rig_name k rigs)
unfolding policies
policies-find ops d [] k u = refl
policies-find ops d (rig ∷ rigs) k (fresh, u) =
    let alone = find_of_absent str_dec rig_name rig.name rigs (rigs-keeps rigs rig.name ∙ fresh) in
    elim (Option-cases (resolve_rig_policy ops rig d)) [
      | inl e ↦ ground (arith, policies-find ops d rigs k u, alone)
      | inr (row, e) ↦
          ground (arith, policies-find ops d rigs k u, alone, resolve_rig_policy-name ops rig d e)
    ]

abbrev or_else {ℓ} : {A : Type ℓ} → Option A → Option A → Option A
or_else (some a) o = some a
or_else none o = o

-- A budget that is set, as a type and an amount.
abbrev budget_as {ℓ} : {A : Type ℓ} → String → (A → Float64) → Option A → Option (String × Float64)
budget_as budget_type amount none = none
budget_as budget_type amount (some a) = some (budget_type, amount a)

abbrev set_budget : FloatOps → CostPolicy → Option (String × Float64)
set_budget ops c = or_else (budget_as "usd" (λ usd. usd) c.daily_budget_usd) (
    or_else (budget_as "messages" ops.of_int c.daily_budget_messages)
      (budget_as "tokens" ops.of_int c.daily_budget_tokens))

abbrev warn_at : Option ℤ → ℤ
warn_at none = pos 80
warn_at (some pct) = pct

-- The row that a cost block gives a rig: none without a budget.
abbrev row_of_block : FloatOps → String → CostPolicy → Option CostPolicyRow
row_of_block ops rig c = elim (set_budget ops c) [
  | none ↦ none
  | some b ↦ some (record {
    rig_name = rig;
    budget_type = b.0;
    daily_budget = b.1;
    warn_at_pct = warn_at c.warn_at_pct;
  })
]

-- [rig.cost], or else [defaults.cost].
abbrev pub policy_of : FloatOps → RigDefaults → Option RigSpec → Option CostPolicyRow
policy_of ops d none = none
policy_of ops d (some rig) =
    or_else (row_of_block ops rig.name rig.cost) (row_of_block ops rig.name d.cost)

-- A block that validation admits gives a row exactly when it is not empty.
row_of_block-IsPolicy :
    (ops : FloatOps) (rig : String) (c : CostPolicy)
    → IsPolicy c
    → row_of_block ops rig c ≡ (if is_empty c then none else some (cost_policy_to_row ops rig c))
unfolding is_empty set_fields cost_policy_to_row
row_of_block-IsPolicy ops rig c h = ground arith

resolve_rig_policy-policy_of :
    (ops : FloatOps) (d : RigDefaults) (rig : RigSpec)
    → IsPolicy d.cost
    → IsPolicy rig.cost
    → resolve_rig_policy ops rig d ≡ policy_of ops d (some rig)
unfolding resolve_rig_policy
resolve_rig_policy-policy_of ops d rig h h' = ground (
  arith,
  row_of_block-IsPolicy ops rig.name d.cost h,
  row_of_block-IsPolicy ops rig.name rig.cost h',
)

find-IsPolicy :
    (rigs : List RigSpec) (k : String) {rig : RigSpec}
    → All (λ r. IsPolicy r.cost) rigs
    → find str_dec rig_name k rigs ≡ some rig
    → IsPolicy rig.cost
find-IsPolicy [] k all h = cc
find-IsPolicy (r ∷ rigs) k {rig} (own, all) h = elim (Option-cases (find str_dec rig_name k rigs)) [
  | inl e ↦ ground (arith, own, h, e)
  | inr (s, e) ↦ find-IsPolicy rigs k {rig = rig} all (ground (arith, h, e))
]

resolved_of-policy_of :
    (ops : FloatOps) (d : RigDefaults) (found : Option RigSpec)
    → IsPolicy d.cost
    → ((rig : RigSpec) → found ≡ some rig → IsPolicy rig.cost)
    → resolved_of ops d found ≡ policy_of ops d found
resolved_of-policy_of ops d none h own = refl
resolved_of-policy_of ops d (some rig) h own =
    resolve_rig_policy-policy_of ops d rig h (own rig refl)

-- For a manifest that passed validation, and whatever the table holds: when the operations of the
-- dry-run plan are carried out, the row of every name has the type and the amount of the budget in
-- [rig.cost] of the rig of that name, or else in [defaults.cost], with the block's warning
-- percentage or 80; and a name without such a rig or without a budget has no row. (A row that Go's
-- `==` cannot tell from that one is left as it was.)
pub dry_run_plan-Agrees :
    (ops : FloatOps) (m : TownManifest) (current : List CostPolicyRow) (k : String)
    → cross_validate ops m ≡ ok tt
    → Agrees
        (same_row ops)
        (after str_dec row_name k (find str_dec row_name k current) (dry_run_plan ops m current))
        (policy_of ops m.defaults (find str_dec rig_name k m.rigs))
unfolding dry_run_plan resolve_cost_policies
dry_run_plan-Agrees ops m current k valid =
    let unique = (cross_validate-Unique ops m valid).0 in
    let rules = cross_validate-IsValid ops m valid in
    subst
      (λ o.
        Agrees (same_row ops)
          (after str_dec row_name k (find str_dec row_name k current) (dry_run_plan ops m current))
          o)
      (policies-find ops m.defaults m.rigs k unique
        ∙ resolved_of-policy_of ops m.defaults (find str_dec rig_name k m.rigs) rules.defaults
            (λ rig.
              find-IsPolicy m.rigs k {rig = rig} (All-map (λ r is. is.cost) m.rigs rules.rigs)))
      (plan-Agrees str_dec row_name (same_row ops) (policies ops m.defaults m.rigs) current
        (policies-Distinct ops m.defaults m.rigs unique) k)
