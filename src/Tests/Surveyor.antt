-- ===== src/Tests/Surveyor.antt =====
-- The score, the retry delay and the verify loop on sample data.
use landman.Base.{
  ◌≡◌, refl, ap, ◌↔◌, ◌⊎◌, ◌&&◌, true, false, none, List, [], ◌∷◌, ℕ, ◌*◌, ◌^◌, ◌<◌, ◌≤◌, ℤ, pos,
  ◌<ℤ◌, ◌≤ℤ◌, ◌-ℤ◌, count, arith, str_dec,
}
use landman.Base.{xor}
use landman.Base.Decimal.{show_ℤ}
use native.Mathlib.Nat.{div_self, div-eq_of_lt}
use landman.Base.Float.{Float64}
use landman.Surveyor.Config.{VerifyConfig, retry_delay, sub_time, is_stale, second}
use landman.Surveyor.Config.Laws.{IsConversion, retry_delay-min, is_stale_iff}
use landman.Surveyor.Topology.{DesiredTopology, ActualTopology}
use landman.Surveyor.Rules.{
  indexes, score_rig, score_found, score_polecat_pool, is_live, has_pool, role_passes, role_found,
  rig_name_for_role, formula_passes, actual_custom_role_key, add_rig, add_agent, add_worktree,
  add_custom_role,
}
use landman.Surveyor.Score.{
  ScoreResult, compute_score, total_weight, pass_weight, counted, zero_result, final_score,
  add_rig_score, add_role_score, add_formula_score, count_rig, count_pool, count_town_role,
  count_rig_role,
}
use landman.Surveyor.Score.Laws.{IsDivision, compute_score-one}
use landman.Base.{not}
use landman.Surveyor.Score.Roles.{role_converged, of_town, compute_score_role_counts}
use landman.Surveyor.Verify.{
  VerifyOutcome, run_verify_loop, verify_from, ran_out, unset, verify_exhausted, score_regression,
}
use landman.Surveyor.Verify.Laws.{Reaches, run_verify_loop-Reaches, run_verify_loop_attempts}
use landman.Tests.Samples.{sample_ops, float}

abbrev config : VerifyConfig
config = record {
  convergence_threshold = float 90;
  stale_ttl = pos (60 * second);
  base_delay = pos (5 * second);
  max_delay = pos (120 * second);
  max_retries = pos 3;
}

abbrev now : ℤ
now = pos (1000 * second)

abbrev fresh : ℤ
fresh = pos (990 * second)

abbrev old : ℤ
old = pos (900 * second)

-- Two rigs run, each with one pool; `beta` has a stale worktree. A town role runs.
abbrev wanted : DesiredTopology
wanted = record {
  rigs =
      record { name = "alpha"; enabled = true; max_polecats = pos 2; witness_enabled = true }
      ∷ record { name = "beta"; enabled = true; max_polecats = pos 1; witness_enabled = false }
      ∷ [];
  custom_roles =
      record { name = "scribe"; scope = "town"; rig_name = ""; instance_index = pos 0 } ∷ [];
  formulas = record { rig_name = "alpha"; name = "nightly" } ∷ [];
}

abbrev seen : ActualTopology
seen = record {
  rigs =
      record { name = "alpha"; enabled = true; status = "running"; last_seen = fresh }
      ∷ record { name = "beta"; enabled = true; status = "running"; last_seen = fresh }
      ∷ [];
  agents =
      record { rig_name = "alpha"; role = "mayor"; status = "running"; last_seen = fresh }
      ∷ record { rig_name = "alpha"; role = "witness"; status = "running"; last_seen = fresh }
      ∷ record { rig_name = "beta"; role = "mayor"; status = "running"; last_seen = fresh }
      ∷ [];
  worktrees =
      record { rig_name = "alpha"; status = "active"; last_seen = fresh }
      ∷ record { rig_name = "beta"; status = "stale"; last_seen = old }
      ∷ [];
  custom_roles =
      record {
        rig_name = "__town__";
        role_name = "scribe";
        instance_index = pos 0;
        status = "running";
        last_seen = fresh;
      }
      ∷ [];
}

score : ScoreResult
unfolding compute_score counted zero_result final_score indexes add_rig_score add_role_score
    add_formula_score score_rig score_found score_polecat_pool is_live has_pool role_passes
    role_found rig_name_for_role formula_passes actual_custom_role_key add_rig add_agent
    add_worktree add_custom_role is_stale sub_time str_dec pass_weight total_weight count_rig
    count_pool count_town_role count_rig_role show_ℤ xor
score = compute_score sample_ops wanted seen config now

one_pool_missed : score.non_converged ≡ "pool/beta: not converged" ∷ []
unfolding score
one_pool_missed = refl

weights : ◌≡◌ {A = ℕ × ℕ} (pass_weight score, total_weight score) (12, 14)
unfolding score pass_weight total_weight
weights = refl

delays :
    ◌≡◌ {A = ℤ × ℤ}
      (retry_delay sample_ops config (pos 0), retry_delay sample_ops config (pos 5))
      (pos (5 * second), pos (120 * second))
unfolding retry_delay
delays = refl

loop : List Float64 → VerifyOutcome
unfolding run_verify_loop verify_from ran_out
loop scores = run_verify_loop sample_ops scores config

third_try :
    loop (float 10 ∷ float 80 ∷ float 95 ∷ [])
    ≡ record { converged = true; final_score = float 95; attempts = 3; escalation = unset }
unfolding loop
third_try = refl

worse : loop (float 20 ∷ float 10 ∷ float 95 ∷ []) ≡ record {
  converged = false;
  final_score = float 10;
  attempts = 2;
  escalation = score_regression;
}
unfolding loop
worse = refl

no_more : loop (float 1 ∷ float 2 ∷ float 3 ∷ float 95 ∷ []) ≡ record {
  converged = false;
  final_score = float 3;
  attempts = 3;
  escalation = verify_exhausted;
}
unfolding loop
no_more = refl

sample_ops-IsDivision : IsDivision sample_ops
sample_ops-IsDivision = record {
  div_self = λ n h l. ap float (div_self h);
  div_below = λ a b h l. rw (div-eq_of_lt h) refl;
  lt_irrefl = λ x. ground arith;
}

sample_ops-IsConversion : IsConversion sample_ops
sample_ops-IsConversion = record {
  to_int-of_int = λ n h. refl;
  lt-of_int = λ a b ha hb. refl;
  mul-pow2 = λ b n p h. refl;
  lt-mul-pow2 = λ a b n ha hb h. ground arith;
}

small_weight : total_weight (compute_score sample_ops wanted seen config now) < 2 ^ 53
unfolding score total_weight
small_weight = grind arith

compute_score-one_example :
    ((compute_score sample_ops wanted seen config now).score ≡ float 1)
    ↔ ((compute_score sample_ops wanted seen config now).non_converged ≡ [])
compute_score-one_example =
    compute_score-one sample_ops wanted seen config now sample_ops-IsDivision small_weight

retry_delay-min_example : retry_delay sample_ops config (pos 2) ≡ pos (20 * second)
retry_delay-min_example =
    retry_delay-min sample_ops config (5 * second) (120 * second) 2 sample_ops-IsConversion refl
      refl (omega arith) (omega arith) (omega arith)

is_stale_iff_example :
    (is_stale old (pos (60 * second)) now ≡ true) ↔ (pos (60 * second) <ℤ now -ℤ old)
is_stale_iff_example = is_stale_iff old (pos (60 * second)) now (omega arith) (omega arith)

abbrev scores : List Float64
scores = float 10 ∷ float 80 ∷ float 95 ∷ []

run_verify_loop-Reaches_example :
    (((run_verify_loop sample_ops scores config).converged ≡ true)
      × ((run_verify_loop sample_ops scores config).final_score ≡ float 95)
      × ((run_verify_loop sample_ops scores config).attempts ≡ 3))
    ↔ Reaches sample_ops config 0 none scores (float 95) 3
run_verify_loop-Reaches_example = run_verify_loop-Reaches sample_ops scores config (float 95) 3

run_verify_loop_attempts_example :
    ((run_verify_loop sample_ops scores config).attempts ≤ 3)
    × (((run_verify_loop sample_ops scores config).attempts ≤ 1)
        ⊎ (pos (run_verify_loop sample_ops scores config).attempts ≤ℤ pos 3))
run_verify_loop_attempts_example = run_verify_loop_attempts sample_ops scores config

compute_score_role_counts_example :
    let res = compute_score sample_ops wanted seen config now in
    let converged = role_converged seen (pos (60 * second)) now in
    (res.town_role_total ≡ count of_town wanted.custom_roles)
    × (res.town_role_pass ≡ count (λ d. of_town d && converged d) wanted.custom_roles)
    × (res.rig_role_total ≡ count (λ d. not (of_town d)) wanted.custom_roles)
    × (res.rig_role_pass ≡ count (λ d. not (of_town d) && converged d) wanted.custom_roles)
compute_score_role_counts_example = compute_score_role_counts sample_ops wanted seen config now
