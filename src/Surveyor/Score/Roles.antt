-- ===== src/Surveyor/Score/Roles.antt =====
-- The counts of a score for custom roles, said of the snapshot's own list.
use landman.Base.{
  String, ◌<>◌, ◌≡◌, refl, ◌∙◌, ap, Bool, false, not, ◌&&◌, Option, none, some, List, [], ◌∷◌,
  foldl, count, ℕ, ◌+◌, ℤ, arith, ◌==◌, if◌then◌else◌,
}
use landman.Base.Float.{FloatOps}
use landman.Base.Decimal.{show_ℤ}
use landman.Base.Map.{Map, lookup}
use landman.Surveyor.Config.{VerifyConfig, is_stale}
use landman.Surveyor.Topology.{
  CustomRoleState, DesiredRig, DesiredCustomRole, DesiredFormula, DesiredTopology, ActualTopology,
}
use landman.Surveyor.Rules.{
  Indexes, indexes, add_custom_role, actual_custom_role_key, rig_name_for_role, role_found,
  role_passes,
}
use landman.Surveyor.Score.{
  ScoreResult, count_rig, count_pool, count_town_role, count_rig_role, add_rig_score,
  add_role_score, add_formula_score, zero_result, counted, compute_score,
}
use landman.Surveyor.Score.Counts.{fold-count, fold_keeps, count_same}

-- How an instance of a role on a rig is named.
abbrev pub printed : String → String → ℤ → String
printed rig role instance_index = rig <> ("|" <> (role <> ("|" <> show_ℤ instance_index)))

-- The last row whose rig, role and instance print as a name.
abbrev pub last_role : String → List CustomRoleState → Option CustomRoleState
last_role k [] = none
last_role k (r ∷ rs) = elim (last_role k rs) [
  | some s ↦ some s
  | none ↦ if printed r.rig_name r.role_name r.instance_index == k then some r else none
]

-- The name of a desired instance: one of scope town stands on the rig `__town__`.
abbrev pub wanted_as : DesiredCustomRole → String
wanted_as dcr =
    printed (if dcr.scope == "town" then "__town__" else dcr.rig_name) dcr.name dcr.instance_index

-- A custom role has converged when the row of its instance runs and was seen within the TTL.
abbrev pub role_converged : ActualTopology → ℤ → ℤ → DesiredCustomRole → Bool
role_converged actual ttl now dcr = elim (last_role (wanted_as dcr) actual.custom_roles) [
  | none ↦ false
  | some s ↦ s.status == "running" && not (is_stale s.last_seen ttl now)
]

or_else : Option CustomRoleState → Option CustomRoleState → Option CustomRoleState
or_else none o = o
or_else (some r) o = some r

lookup-add_custom_role :
    (rs : List CustomRoleState) (m : Map CustomRoleState) (k : String)
    → lookup k (foldl add_custom_role m rs) ≡ or_else (last_role k rs) (lookup k m)
unfolding or_else add_custom_role actual_custom_role_key
lookup-add_custom_role [] m k = refl
lookup-add_custom_role (r ∷ rs) m k =
    ground (arith, lookup-add_custom_role rs (add_custom_role m r) k)

role_of :
    (actual : ActualTopology) (k : String)
    → lookup k (indexes actual).custom_roles ≡ last_role k actual.custom_roles
unfolding indexes or_else
role_of actual k =
    lookup-add_custom_role actual.custom_roles [] k ∙ or_else_none (last_role k actual.custom_roles)
  where
    or_else_none : (o : Option CustomRoleState) → or_else o none ≡ o
    or_else_none none = refl
    or_else_none (some r) = refl

role_passes-converged :
    (actual : ActualTopology) (ttl now : ℤ) (dcr : DesiredCustomRole)
    → role_passes (indexes actual) ttl now dcr ≡ role_converged actual ttl now dcr
unfolding role_passes role_found rig_name_for_role actual_custom_role_key
role_passes-converged actual ttl now dcr = ground (arith, role_of actual (wanted_as dcr))

abbrev pub of_town : DesiredCustomRole → Bool
of_town dcr = dcr.scope == "town"

module _ (ix : Indexes) (ttl now : ℤ) (r : ScoreResult) (d : DesiredCustomRole) where
  town_total_step :
      (add_role_score ix ttl now r d).town_role_total
      ≡ r.town_role_total + (if of_town d then 1 else 0)
  unfolding add_role_score count_town_role count_rig_role
  town_total_step = ground arith

  town_pass_step :
      (add_role_score ix ttl now r d).town_role_pass
      ≡ r.town_role_pass + (if of_town d && role_passes ix ttl now d then 1 else 0)
  unfolding add_role_score count_town_role count_rig_role
  town_pass_step = ground arith

  rig_total_step :
      (add_role_score ix ttl now r d).rig_role_total
      ≡ r.rig_role_total + (if not (of_town d) then 1 else 0)
  unfolding add_role_score count_town_role count_rig_role
  rig_total_step = ground arith

  rig_pass_step :
      (add_role_score ix ttl now r d).rig_role_pass
      ≡ r.rig_role_pass + (if not (of_town d) && role_passes ix ttl now d then 1 else 0)
  unfolding add_role_score count_town_role count_rig_role
  rig_pass_step = ground arith

-- The counts that the other loops leave alone.
abbrev role_counts : ScoreResult → ℕ × ℕ × ℕ × ℕ
role_counts r = (r.town_role_total, r.town_role_pass, r.rig_role_total, r.rig_role_pass)

role_counts-rig :
    (ix : Indexes) (ttl now : ℤ) (r : ScoreResult) (d : DesiredRig)
    → role_counts (add_rig_score ix ttl now r d) ≡ role_counts r
unfolding add_rig_score count_rig count_pool
role_counts-rig ix ttl now r d = ground arith

role_counts-formula :
    (ix : Indexes) (ttl now : ℤ) (r : ScoreResult) (d : DesiredFormula)
    → role_counts (add_formula_score ix ttl now r d) ≡ role_counts r
unfolding add_formula_score
role_counts-formula ix ttl now r d = ground arith

module _ (ops : FloatOps) (desired : DesiredTopology) (actual : ActualTopology) (ttl now : ℤ) where
  -- A counter of the loop over the roles, which starts at 0 and is then left alone.
  role_counter :
      (pick : ℕ × ℕ × ℕ × ℕ → ℕ) (p q : DesiredCustomRole → Bool)
      → pick (0, 0, 0, 0) ≡ 0
      → ((r : ScoreResult) (d : DesiredCustomRole)
          → pick (role_counts (add_role_score (indexes actual) ttl now r d))
            ≡ pick (role_counts r) + (if p d then 1 else 0))
      → ((d : DesiredCustomRole) → p d ≡ q d)
      → pick (role_counts (counted ops desired (indexes actual) ttl now))
        ≡ count q desired.custom_roles
  unfolding counted zero_result
  role_counter pick p q zero step same =
      let ix = indexes actual in
      ap pick (
        fold_keeps role_counts (add_formula_score ix ttl now) (role_counts-formula ix ttl now)
          desired.formulas _)
      ∙ fold-count (λ r. pick (role_counts r)) (add_role_score ix ttl now) p step
          desired.custom_roles _
      ∙ ap (λ k. k + count p desired.custom_roles)
          (ap pick (
              fold_keeps role_counts (add_rig_score ix ttl now) (role_counts-rig ix ttl now)
                desired.rigs (zero_result ops))
            ∙ zero)
      ∙ omega (arith, count_same p q desired.custom_roles same)

-- The counts of ComputeScore for custom roles, said of the snapshot's list: the roles of scope town
-- and all others count apart, and a role passes if the last row that prints as
-- `rig|role|instance`, with `__town__` for the rig of a role of scope town, runs and is not stale.
pub compute_score_role_counts :
    (ops : FloatOps) (desired : DesiredTopology) (actual : ActualTopology) (cfg : VerifyConfig)
    (now : ℤ)
    → let res = compute_score ops desired actual cfg now in
      let converged = role_converged actual cfg.stale_ttl now in
      (res.town_role_total ≡ count of_town desired.custom_roles)
      × (res.town_role_pass ≡ count (λ d. of_town d && converged d) desired.custom_roles)
      × (res.rig_role_total ≡ count (λ d. not (of_town d)) desired.custom_roles)
      × (res.rig_role_pass ≡ count (λ d. not (of_town d) && converged d) desired.custom_roles)
unfolding compute_score
compute_score_role_counts ops desired actual cfg now =
    let ttl = cfg.stale_ttl in
    let ix = indexes actual in
    let counter = role_counter ops desired actual ttl now in
    (
      counter (λ t. t.0) of_town of_town refl (town_total_step ix ttl now) (λ d. refl),
      counter (λ t. t.1) (λ d. of_town d && role_passes ix ttl now d)
          (λ d. of_town d && role_converged actual ttl now d) refl (town_pass_step ix ttl now)
          (λ d. ap (λ b. of_town d && b) (role_passes-converged actual ttl now d)),
      counter (λ t. t.2) (λ d. not (of_town d)) (λ d. not (of_town d)) refl
          (rig_total_step ix ttl now) (λ d. refl),
      counter (λ t. t.3) (λ d. not (of_town d) && role_passes ix ttl now d)
          (λ d. not (of_town d) && role_converged actual ttl now d) refl (rig_pass_step ix ttl now)
          (λ d. ap (λ b. not (of_town d) && b) (role_passes-converged actual ttl now d)),
    )
