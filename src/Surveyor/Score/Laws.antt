-- ===== src/Surveyor/Score/Laws.antt =====
-- The score of ComputeScore (pkg/surveyor/score.go) against its list of what has not converged.
use landman.Base.{
  String, ◌≡◌, refl, ◌↔◌, Bool, true, false, List, [], ◌∷◌, ◌++◌, foldl, ℕ, ◌+◌, ◌^◌, ◌<◌, ◌≤◌,
  arith,
}
use landman.Base.{◌⊎◌, sym, ◌∙◌, ℤ, pos, length, length-append, ◌==◌, Bool-cases, inl, inr, ap}
use landman.Base.Float.{Float64, FloatOps}
use landman.Surveyor.Config.{VerifyConfig}
use landman.Surveyor.Topology.{
  DesiredRig, DesiredCustomRole, DesiredFormula, DesiredTopology, ActualTopology,
}
use landman.Surveyor.Rules.{Indexes, indexes}
use landman.Surveyor.Score.{
  ScoreResult, count_rig, count_pool, count_town_role, count_rig_role, add_rig_score,
  add_role_score, add_formula_score, total_weight, pass_weight, final_score, zero_result, counted,
  compute_score,
}

-- No category passes more often than it is counted, and each miss has one line.
pub record IsTally (r : ScoreResult) : Type 0 where
  pub rigs : r.rig_pass ≤ r.rig_total
  pub pools : r.pool_pass ≤ r.pool_total
  pub rig_roles : r.rig_role_pass ≤ r.rig_role_total
  pub town_roles : r.town_role_pass ≤ r.town_role_total
  pub formulas : r.formula_pass ≤ r.formula_total
  pub lines :
      r.rig_pass
        + r.pool_pass
        + r.rig_role_pass
        + r.town_role_pass
        + r.formula_pass
        + length r.non_converged
      ≡ r.rig_total + r.pool_total + r.rig_role_total + r.town_role_total + r.formula_total

zero_result-IsTally : (ops : FloatOps) → IsTally (zero_result ops)
unfolding zero_result
zero_result-IsTally ops = omega arith

length-snoc : (xs : List String) (x : String) → length (xs ++ (x ∷ [])) ≡ length xs + 1
length-snoc xs x = length-append xs (x ∷ [])

module _ (ix : Indexes) (ttl now : ℤ) where
  count_rig-IsTally :
      (r : ScoreResult) (dr : DesiredRig) → IsTally r → IsTally (count_rig ix ttl now r dr)
  unfolding count_rig
  count_rig-IsTally r dr t = grind (arith, length-snoc)

  count_pool-IsTally :
      (r : ScoreResult) (dr : DesiredRig) → IsTally r → IsTally (count_pool ix ttl now r dr)
  unfolding count_pool
  count_pool-IsTally r dr t = grind (arith, length-snoc)

  add_rig_score-IsTally :
      (r : ScoreResult) (dr : DesiredRig) → IsTally r → IsTally (add_rig_score ix ttl now r dr)
  unfolding add_rig_score
  add_rig_score-IsTally r dr t =
      count_pool-IsTally (count_rig ix ttl now r dr) dr (count_rig-IsTally r dr t)

  count_town_role-IsTally :
      (r : ScoreResult) (d : DesiredCustomRole)
      → IsTally r
      → IsTally (count_town_role ix ttl now r d)
  unfolding count_town_role
  count_town_role-IsTally r d t = grind (arith, length-snoc)

  count_rig_role-IsTally :
      (r : ScoreResult) (d : DesiredCustomRole)
      → IsTally r
      → IsTally (count_rig_role ix ttl now r d)
  unfolding count_rig_role
  count_rig_role-IsTally r d t = grind (arith, length-snoc)

  add_role_score-IsTally :
      (r : ScoreResult) (d : DesiredCustomRole)
      → IsTally r
      → IsTally (add_role_score ix ttl now r d)
  unfolding add_role_score
  add_role_score-IsTally r d t = elim (Bool-cases (d.scope == "town")) [
    | inl town ↦ rw town (count_town_role-IsTally r d t)
    | inr rig ↦ rw rig (count_rig_role-IsTally r d t)
  ]

  add_formula_score-IsTally :
      (r : ScoreResult) (d : DesiredFormula)
      → IsTally r
      → IsTally (add_formula_score ix ttl now r d)
  unfolding add_formula_score
  add_formula_score-IsTally r d t = grind (arith, length-snoc)

fold-IsTally :
    {A : Type 0} (f : ScoreResult → A → ScoreResult)
    → ((r : ScoreResult) (a : A) → IsTally r → IsTally (f r a))
    → (xs : List A) (r : ScoreResult) → IsTally r
    → IsTally (foldl f r xs)
fold-IsTally f keep [] r t = t
fold-IsTally f keep (x ∷ xs) r t = fold-IsTally f keep xs (f r x) (keep r x t)

pub counted-IsTally :
    (ops : FloatOps) (desired : DesiredTopology) (ix : Indexes) (ttl now : ℤ)
    → IsTally (counted ops desired ix ttl now)
unfolding counted
counted-IsTally ops desired ix ttl now =
    fold-IsTally _ (add_formula_score-IsTally ix ttl now) desired.formulas _ (
      fold-IsTally _ (add_role_score-IsTally ix ttl now) desired.custom_roles _ (
        fold-IsTally _ (add_rig_score-IsTally ix ttl now) desired.rigs _ (zero_result-IsTally ops)))

-- Facts of IEEE 754 double precision: a quotient of equal integers is 1, one of a smaller by a
-- larger integer is below 1 (both exact below 2 ^ 53), and nothing is below itself.
pub record IsDivision (ops : FloatOps) : Type 0 where
  pub div_self :
      (n : ℕ)
      → 0 < n
      → n < 2 ^ 53
      → ops.div (ops.of_int (pos n)) (ops.of_int (pos n)) ≡ ops.of_int (pos 1)
  pub div_below :
      (a b : ℕ)
      → a < b
      → b < 2 ^ 53
      → ops.lt (ops.div (ops.of_int (pos a)) (ops.of_int (pos b))) (ops.of_int (pos 1)) ≡ true
  pub lt_irrefl : (x : Float64) → ops.lt x x ≡ false

weights-eq : (r : ScoreResult) → IsTally r → r.non_converged ≡ [] → pass_weight r ≡ total_weight r
unfolding pass_weight total_weight
weights-eq r t h = let none_missed : length r.non_converged ≡ 0 = ap length h in omega arith

weights-lt :
    (r : ScoreResult) → IsTally r → 0 < length r.non_converged → pass_weight r < total_weight r
unfolding pass_weight total_weight
weights-lt r t h = omega arith

nil-or-pos : (xs : List String) → (xs ≡ []) ⊎ (0 < length xs)
nil-or-pos [] = inl refl
nil-or-pos (x ∷ xs) = inr (omega arith)

true-ne-false : ◌≡◌ {A = Bool} true false → ⊥
true-ne-false h = cc

module _ (ops : FloatOps) (laws : IsDivision ops) (r : ScoreResult) (t : IsTally r)
    (small : total_weight r < 2 ^ 53) where
  one_of_nil : r.non_converged ≡ [] → final_score ops r ≡ ops.of_int (pos 1)
  unfolding final_score
  one_of_nil h = ground (arith, weights-eq r t h, laws.div_self (total_weight r))

  missed_of_cons :
      0 < length r.non_converged → ops.lt (final_score ops r) (ops.of_int (pos 1)) ≡ true
  unfolding final_score
  missed_of_cons h =
      ground (arith, weights-lt r t h, laws.div_below (pass_weight r) (total_weight r))

  nil_of_one : final_score ops r ≡ ops.of_int (pos 1) → r.non_converged ≡ []
  nil_of_one h = elim (nil-or-pos r.non_converged) [
    | inl e ↦ e
    | inr some_line ↦ absurd (
        true-ne-false (
          sym (missed_of_cons some_line)
          ∙ ap (λ x. ops.lt x (ops.of_int (pos 1))) h
          ∙ laws.lt_irrefl _))
  ]

-- Under the facts of IEEE 754 that `IsDivision` lists, and for a total weight below 2 ^ 53: the score is 1
-- exactly when no resource is listed as not converged.
pub compute_score-one :
    (ops : FloatOps) (desired : DesiredTopology) (actual : ActualTopology) (cfg : VerifyConfig)
    (now : ℤ)
    → IsDivision ops
    → total_weight (compute_score ops desired actual cfg now) < 2 ^ 53
    → ((compute_score ops desired actual cfg now).score ≡ ops.of_int (pos 1))
      ↔ ((compute_score ops desired actual cfg now).non_converged ≡ [])
unfolding compute_score total_weight
compute_score-one ops desired actual cfg now laws small =
    let r = counted ops desired (indexes actual) cfg.stale_ttl now in
    let t = counted-IsTally ops desired (indexes actual) cfg.stale_ttl now in
    (nil_of_one ops laws r t small, one_of_nil ops laws r t small)
