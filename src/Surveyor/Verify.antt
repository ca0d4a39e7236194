-- ===== src/Surveyor/Verify.antt =====
-- The verify loop (pkg/surveyor/score.go, RunVerifyLoop).
pub mod Laws
use landman.Base.{
  Bool, true, false, Option, none, some, List, [], ◌∷◌, ℕ, ◌+◌, ℤ, pos, leb_ℤ, length,
}
use landman.Base.{if◌then◌else◌}
use landman.Base.Float.{Float64, FloatOps}
use landman.Surveyor.Config.{VerifyConfig}

-- `EscalationReason`; `unset` is the empty string of a converged outcome.
pub data Escalation : Type 0 where
  unset verify_exhausted score_regression dog_failure : Escalation

pub record VerifyOutcome : Type 0 where
  pub converged : Bool
  pub final_score : Float64
  pub attempts : ℕ
  pub escalation : Escalation

-- `prevScore != nil && score < *prevScore`
abbrev pub regresses : FloatOps → Option Float64 → Float64 → Bool
regresses ops none score = false
regresses ops (some prev) score = ops.lt score prev

abbrev pub last_or : Float64 → List Float64 → Float64
last_or z [] = z
last_or z (x ∷ xs) = last_or x xs

-- The outcome when the scores run out.
unfoldable pub ran_out : FloatOps → List Float64 → VerifyOutcome
ran_out ops scores = record {
  converged = false;
  final_score = last_or (ops.of_int (pos 0)) scores;
  attempts = length scores;
  escalation = verify_exhausted;
}

module _ (ops : FloatOps) (cfg : VerifyConfig) (scores : List Float64) where
  -- The loop from index `i` on, over the scores that are left.
  unfoldable pub verify_from : ℕ → Option Float64 → List Float64 → VerifyOutcome
  verify_from i prev [] = ran_out ops scores
  verify_from i prev (score ∷ rest) =
      let more = verify_from (i + 1) (some score) rest in
      if regresses ops prev score
      then record {
        converged = false;
        final_score = score;
        attempts = i + 1;
        escalation = score_regression;
      }
      else if ops.le cfg.convergence_threshold score
      then record { converged = true; final_score = score; attempts = i + 1; escalation = unset }
      else if leb_ℤ cfg.max_retries (pos (i + 1))
      then record {
        converged = false;
        final_score = score;
        attempts = i + 1;
        escalation = verify_exhausted;
      }
      else more

unfoldable pub run_verify_loop : FloatOps → List Float64 → VerifyConfig → VerifyOutcome
unfolding verify_from
run_verify_loop ops scores cfg = verify_from ops cfg scores 0 none scores
