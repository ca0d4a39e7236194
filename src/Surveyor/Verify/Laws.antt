-- ===== src/Surveyor/Verify/Laws.antt =====
-- When the verify loop converges, and how many attempts it makes (pkg/surveyor/score.go,
-- RunVerifyLoop).
use landman.Base.{
  ◌≡◌, refl, sym, subst, ◌∙◌, ap, ◌⊎◌, inl, inr, ◌↔◌, true, false, Option, none, some, List, [],
  ◌∷◌, ◌++◌,
}
use landman.Base.{ℕ, suc, ◌+◌, ◌≤◌, pos, length, arith, ◌<ℤ◌, ◌≤ℤ◌}
use landman.Base.Float.{Float64, FloatOps}
use landman.Surveyor.Config.{VerifyConfig}
use landman.Surveyor.Verify.{unset, regresses, ran_out, verify_from, run_verify_loop}

module _ (ops : FloatOps) (cfg : VerifyConfig) where
  -- No score before, or one that is not higher.
  abbrev IsSteady : Option Float64 → Float64 → Type 0
  IsSteady none score = Unit {0}
  IsSteady (some prev) score = ops.lt score prev ≡ false

  regresses-IsSteady :
      (prev : Option Float64) (score : Float64)
      → (regresses ops prev score ≡ false) ↔ IsSteady prev score
  regresses-IsSteady none score = (λ h. tt, λ h. refl)
  regresses-IsSteady (some prev) score = (λ h. h, λ h. h)

  -- The score after `prev` (and the `i` attempts before it) neither regresses nor converges, and
  -- leaves an attempt to make.
  abbrev IsRetried : ℕ → Option Float64 → Float64 → Type 0
  IsRetried i prev score =
      IsSteady prev score
      × (ops.le cfg.convergence_threshold score ≡ false)
      × (pos (i + 1) <ℤ cfg.max_retries)

  -- All of a list's scores are retried, in turn.
  abbrev AllRetried : ℕ → Option Float64 → List Float64 → Type 0
  AllRetried i prev [] = Unit {0}
  AllRetried i prev (s ∷ ss) = IsRetried i prev s × AllRetried (i + 1) (some s) ss

  abbrev last_of : Option Float64 → List Float64 → Option Float64
  last_of prev [] = prev
  last_of prev (s ∷ ss) = last_of (some s) ss

  -- A score of the list reaches the threshold and does not regress, after scores that were all
  -- retried, at a number of attempts.
  pub record Reaches (i : ℕ) (prev : Option Float64) (scores : List Float64) (score : Float64)
      (attempts : ℕ) : Type 0 where
    pub before : List Float64
    pub rest : List Float64
    pub split : scores ≡ before ++ (score ∷ rest)
    pub retried : AllRetried i prev before
    pub steady : IsSteady (last_of prev before) score
    pub reached : ops.le cfg.convergence_threshold score ≡ true
    pub counted : attempts ≡ i + length before + 1

  later :
      (i : ℕ) (prev : Option Float64) (s : Float64) (ss : List Float64) (score : Float64)
      (attempts : ℕ)
      → IsRetried i prev s
      → Reaches (i + 1) (some s) ss score attempts
      → Reaches i prev (s ∷ ss) score attempts
  later i prev s ss score attempts again c = record {
    before = s ∷ c.before;
    rest = c.rest;
    split = ap (λ l. s ∷ l) c.split;
    retried = (again, c.retried);
    steady = c.steady;
    reached = c.reached;
    counted = omega (arith, c.counted);
  }

  module _ (all : List Float64) where
    verify_from-retry :
        (i : ℕ) (prev : Option Float64) (s : Float64) (ss : List Float64)
        → IsRetried i prev s
        → verify_from ops cfg all i prev (s ∷ ss) ≡ verify_from ops cfg all (i + 1) (some s) ss
    unfolding verify_from
    verify_from-retry i prev s ss h = ground (arith, regresses-IsSteady prev s)

    verify_from-hit :
        (i : ℕ) (prev : Option Float64) (s : Float64) (ss : List Float64)
        → IsSteady prev s
        → ops.le cfg.convergence_threshold s ≡ true
        → verify_from ops cfg all i prev (s ∷ ss)
          ≡ record { converged = true; final_score = s; attempts = i + 1; escalation = unset }
    unfolding verify_from
    verify_from-hit i prev s ss r h = ground (arith, regresses-IsSteady prev s)

    -- What a round does, when the loop is to converge in the end.
    round_cases :
        (i : ℕ) (prev : Option Float64) (s : Float64) (ss : List Float64)
        → (verify_from ops cfg all i prev (s ∷ ss)).converged ≡ true
        → (IsSteady prev s × (ops.le cfg.convergence_threshold s ≡ true)) ⊎ IsRetried i prev s
    unfolding verify_from
    round_cases i prev s ss h = ground (arith, regresses-IsSteady prev s)

    -- The loop converges only where `Reaches` says.
    verify_from-Reaches :
        (i : ℕ) (prev : Option Float64) (scores : List Float64)
        → (verify_from ops cfg all i prev scores).converged ≡ true
        → Reaches i prev scores
            (verify_from ops cfg all i prev scores).final_score
            (verify_from ops cfg all i prev scores).attempts
    verify_from-Reaches i prev [] h = absurd (ran_out_fails h)
      where
        ran_out_fails : (verify_from ops cfg all i prev []).converged ≡ true → ⊥
        ran_out_fails h = unfold verify_from ran_out in cc h
    verify_from-Reaches i prev (s ∷ ss) h = elim (round_cases i prev s ss h) [
      | inl (steady, reached) ↦ rw (verify_from-hit i prev s ss steady reached) (record {
        before = [];
        rest = ss;
        split = refl;
        retried = tt;
        steady = steady;
        reached = reached;
        counted = omega arith;
      })
      | inr again ↦
          let e = verify_from-retry i prev s ss again in
          rw e (
            later i prev s ss _ _ again
              (verify_from-Reaches (i + 1) (some s) ss (sym (ap (λ o. o.converged) e) ∙ h)))
    ]

    -- And whenever it can, it does.
    converges_if :
        (i : ℕ) (prev : Option Float64) (before : List Float64) (s : Float64) (rest : List Float64)
        → AllRetried i prev before
        → IsSteady (last_of prev before) s
        → ops.le cfg.convergence_threshold s ≡ true
        → verify_from ops cfg all i prev (before ++ (s ∷ rest)) ≡ record {
          converged = true;
          final_score = s;
          attempts = i + length before + 1;
          escalation = unset;
        }
    converges_if i prev [] s rest t steady reached =
        verify_from-hit i prev s rest steady reached ∙ (λ j. record {
          converged = true;
          final_score = s;
          attempts = arith_eq i j;
          escalation = unset;
        })
      where
        arith_eq : (i : ℕ) → i + 1 ≡ i + 0 + 1
        arith_eq i = omega arith
    converges_if i prev (b ∷ before) s rest (t, ts) steady reached =
        verify_from-retry i prev b (before ++ (s ∷ rest)) t
        ∙ converges_if (i + 1) (some b) before s rest ts steady reached
        ∙ (λ j. record {
          converged = true;
          final_score = s;
          attempts = arith_eq j;
          escalation = unset;
        })
      where
        arith_eq : i + 1 + length before + 1 ≡ i + suc (length before) + 1
        arith_eq = omega arith

    attempts_bounded :
        (i : ℕ) (prev : Option Float64) (scores : List Float64)
        → length all ≡ i + length scores
        → (i ≡ 0) ⊎ (pos i <ℤ cfg.max_retries)
        → ((verify_from ops cfg all i prev scores).attempts ≤ length all)
          × (((verify_from ops cfg all i prev scores).attempts ≤ 1)
              ⊎ (pos (verify_from ops cfg all i prev scores).attempts ≤ℤ cfg.max_retries))
    unfolding verify_from ran_out
    attempts_bounded i prev [] n h = ground arith
    attempts_bounded i prev (s ∷ ss) n h =
        ground (arith, attempts_bounded (i + 1) (some s) ss (omega arith))

-- The loop converges with a final score and a number of attempts exactly when, at that place of the
-- scores, the score reaches the threshold and is not below the one before, and all scores before it
-- were below the threshold, none of them below its predecessor, and each left an attempt to make.
pub run_verify_loop-Reaches :
    (ops : FloatOps) (scores : List Float64) (cfg : VerifyConfig) (score : Float64) (attempts : ℕ)
    → (((run_verify_loop ops scores cfg).converged ≡ true)
        × ((run_verify_loop ops scores cfg).final_score ≡ score)
        × ((run_verify_loop ops scores cfg).attempts ≡ attempts))
      ↔ Reaches ops cfg 0 none scores score attempts
unfolding run_verify_loop
run_verify_loop-Reaches ops scores cfg score attempts = (
  λ (converged, final, made).
      subst (λ n. Reaches ops cfg 0 none scores score n) made
        (subst (λ x. Reaches ops cfg 0 none scores x (run_verify_loop ops scores cfg).attempts)
          final (verify_from-Reaches ops cfg scores 0 none scores converged)),
  λ c.
      let e =
        ap (verify_from ops cfg scores 0 none) c.split
        ∙ converges_if ops cfg scores 0 none c.before score c.rest c.retried c.steady c.reached in
      (ap (λ o. o.converged) e, ap (λ o. o.final_score) e, ap (λ o. o.attempts) e ∙ sym c.counted),
)

-- No outcome counts more attempts than there are scores, and, past the first attempt, none counts
-- more than the configuration allows.
pub run_verify_loop_attempts :
    (ops : FloatOps) (scores : List Float64) (cfg : VerifyConfig)
    → ((run_verify_loop ops scores cfg).attempts ≤ length scores)
      × (((run_verify_loop ops scores cfg).attempts ≤ 1)
          ⊎ (pos (run_verify_loop ops scores cfg).attempts ≤ℤ cfg.max_retries))
unfolding run_verify_loop
run_verify_loop_attempts ops scores cfg =
    attempts_bounded ops cfg scores 0 none scores (omega arith) (inl refl)
