-- ===== src/Surveyor/Score.antt =====
-- The convergence score of a topology (pkg/surveyor/score.go, ComputeScore and its helpers).
pub mod Laws
pub mod Meaning
pub mod Counts
pub mod Roles
use landman.Base.{String, ◌<>◌, Bool, true, false, not, ◌&&◌, ◌||◌, xor, Option, none, some}
use landman.Base.{List, [], ◌∷◌, ◌++◌, foldl, any, ℕ, ◌+◌, ◌*◌, ℤ, pos, ltb_ℤ, eqb, ltb}
use landman.Base.{◌==◌, if◌then◌else◌}
use landman.Base.Decimal.{show_ℤ}
use landman.Base.Float.{Float64, FloatOps}
use landman.Base.Map.{Map, lookup, insert, get_or}
use landman.Surveyor.Config.{VerifyConfig, is_stale}
use landman.Surveyor.Topology.{
  RigState, AgentState, WorktreeState, CustomRoleState, DesiredRig, DesiredFormula,
  DesiredCustomRole, DesiredTopology, ActualTopology,
}
use landman.Surveyor.Rules.{
  Indexes, add_rig, add_agent, add_worktree, actual_custom_role_key, add_custom_role, indexes,
  is_live, score_found, score_rig, score_polecat_pool, rig_name_for_role, role_found, role_passes,
  formula_passes, has_pool,
}

abbrev pub weight_rig : ℕ
weight_rig = 3

abbrev pub weight_polecat_pool : ℕ
weight_polecat_pool = 2

abbrev pub weight_custom_role_rig : ℕ
weight_custom_role_rig = 2

abbrev pub weight_custom_role_town : ℕ
weight_custom_role_town = 3

abbrev pub weight_formula : ℕ
weight_formula = 1

pub record ScoreResult : Type 0 where
  pub score : Float64
  pub rig_pass : ℕ
  pub rig_total : ℕ
  pub pool_pass : ℕ
  pub pool_total : ℕ
  pub rig_role_pass : ℕ
  pub rig_role_total : ℕ
  pub town_role_pass : ℕ
  pub town_role_total : ℕ
  pub formula_pass : ℕ
  pub formula_total : ℕ
  pub non_converged : List String

note : ScoreResult → String → ScoreResult
note res line = record res { non_converged = res.non_converged ++ (line ∷ []) }

module _ (ix : Indexes) (ttl now : ℤ) where
  unfoldable pub count_rig : ScoreResult → DesiredRig → ScoreResult
  unfolding note
  count_rig res dr =
      let seen = record res { rig_total = res.rig_total + 1 } in
      if score_rig dr ix.rigs ix.agents ttl now
      then record seen { rig_pass = seen.rig_pass + 1 }
      else note seen ("rig/" <> (dr.name <> ": not converged"))

  unfoldable pub count_pool : ScoreResult → DesiredRig → ScoreResult
  unfolding note
  count_pool res dr =
      let seen = record res { pool_total = res.pool_total + 1 } in
      if has_pool dr
      then if score_polecat_pool dr ix ttl now
        then record seen { pool_pass = seen.pool_pass + 1 }
        else note seen ("pool/" <> (dr.name <> ": not converged"))
      else res

  -- One round of the loop over the desired rigs.
  unfoldable pub add_rig_score : ScoreResult → DesiredRig → ScoreResult
  add_rig_score res dr = count_pool (count_rig res dr) dr

  unfoldable pub count_town_role : ScoreResult → DesiredCustomRole → ScoreResult
  unfolding note
  count_town_role res dcr =
      let seen = record res { town_role_total = res.town_role_total + 1 } in
      if role_passes ix ttl now dcr
      then record seen { town_role_pass = seen.town_role_pass + 1 }
      else note seen (
          "custom-role-town/"
          <> (dcr.name <> ("[" <> (show_ℤ dcr.instance_index <> "]: not converged"))))

  unfoldable pub count_rig_role : ScoreResult → DesiredCustomRole → ScoreResult
  unfolding note
  count_rig_role res dcr =
      let seen = record res { rig_role_total = res.rig_role_total + 1 } in
      if role_passes ix ttl now dcr
      then record seen { rig_role_pass = seen.rig_role_pass + 1 }
      else note seen (
          "custom-role-rig/"
          <> (dcr.rig_name
              <> ("/" <> (dcr.name <> ("[" <> (show_ℤ dcr.instance_index <> "]: not converged"))))))

  unfoldable pub add_role_score : ScoreResult → DesiredCustomRole → ScoreResult
  unfolding count_town_role count_rig_role
  add_role_score res dcr =
      if dcr.scope == "town" then count_town_role res dcr else count_rig_role res dcr

  unfoldable pub add_formula_score : ScoreResult → DesiredFormula → ScoreResult
  unfolding note
  add_formula_score res df =
      let seen = record res { formula_total = res.formula_total + 1 } in
      if formula_passes ix ttl now df
      then record seen { formula_pass = seen.formula_pass + 1 }
      else note seen ("formula/" <> (df.rig_name <> ("/" <> (df.name <> ": rig not converged"))))

unfoldable pub total_weight : ScoreResult → ℕ
total_weight r =
    r.rig_total * weight_rig
    + r.pool_total * weight_polecat_pool
    + r.rig_role_total * weight_custom_role_rig
    + r.town_role_total * weight_custom_role_town
    + r.formula_total * weight_formula

unfoldable pub pass_weight : ScoreResult → ℕ
pass_weight r =
    r.rig_pass * weight_rig
    + r.pool_pass * weight_polecat_pool
    + r.rig_role_pass * weight_custom_role_rig
    + r.town_role_pass * weight_custom_role_town
    + r.formula_pass * weight_formula

unfoldable pub final_score : FloatOps → ScoreResult → Float64
final_score ops r =
    if eqb (total_weight r) 0
    then ops.of_int (pos 1)
    else ops.div (ops.of_int (pos (pass_weight r))) (ops.of_int (pos (total_weight r)))

unfoldable pub zero_result : FloatOps → ScoreResult
zero_result ops = record {
  score = ops.of_int (pos 0);
  rig_pass = 0;
  rig_total = 0;
  pool_pass = 0;
  pool_total = 0;
  rig_role_pass = 0;
  rig_role_total = 0;
  town_role_pass = 0;
  town_role_total = 0;
  formula_pass = 0;
  formula_total = 0;
  non_converged = [];
}

-- The three loops, in the source's order.
unfoldable pub counted : FloatOps → DesiredTopology → Indexes → ℤ → ℤ → ScoreResult
counted ops desired ix ttl now =
    foldl (add_formula_score ix ttl now)
      (foldl (add_role_score ix ttl now)
        (foldl (add_rig_score ix ttl now) (zero_result ops) desired.rigs) desired.custom_roles)
      desired.formulas

unfoldable pub compute_score :
    FloatOps → DesiredTopology → ActualTopology → VerifyConfig → ℤ → ScoreResult
compute_score ops desired actual cfg now =
    let res = counted ops desired (indexes actual) cfg.stale_ttl now in
    record res { score = final_score ops res }
