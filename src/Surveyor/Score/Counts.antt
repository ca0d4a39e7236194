-- ===== src/Surveyor/Score/Counts.antt =====
-- The counts of a score, category by category.
use landman.Base.{◌≡◌, refl, ◌∙◌, Bool, true, false, List, [], ◌∷◌, foldl, count, ℕ, ◌+◌, arith}
use landman.Base.{pos, if◌then◌else◌}
use landman.Surveyor.Topology.{DesiredRig, DesiredFormula}
use landman.Surveyor.Score.{ScoreResult}

-- A counter of a fold: it grows by one for each element that passes a test.
pub fold-count :
    {A : Type 0} (field : ScoreResult → ℕ) (f : ScoreResult → A → ScoreResult) (p : A → Bool)
    → ((r : ScoreResult) (a : A) → field (f r a) ≡ field r + (if p a then 1 else 0))
    → (xs : List A) (r : ScoreResult) → field (foldl f r xs) ≡ field r + count p xs
fold-count field f p step [] r = omega arith
fold-count field f p step (x ∷ xs) r =
    fold-count field f p step xs (f r x) ∙ ground (arith, step r x)

-- A part of the result that a fold leaves alone.
pub fold_keeps :
    {A B : Type 0} (field : ScoreResult → B) (f : ScoreResult → A → ScoreResult)
    → ((r : ScoreResult) (a : A) → field (f r a) ≡ field r)
    → (xs : List A) (r : ScoreResult) → field (foldl f r xs) ≡ field r
fold_keeps field f step [] r = refl
fold_keeps field f step (x ∷ xs) r = fold_keeps field f step xs (f r x) ∙ step r x

pub count_same :
    {A : Type 0} (p q : A → Bool) (xs : List A) → ((a : A) → p a ≡ q a) → count p xs ≡ count q xs
count_same p q [] h = refl
count_same p q (x ∷ xs) h = ground (arith, h x, count_same p q xs h)

-- The counts that the loops over roles and formulas leave alone.
abbrev rig_counts : ScoreResult → ℕ × ℕ × ℕ × ℕ
rig_counts r = (r.rig_pass, r.rig_total, r.pool_pass, r.pool_total)

-- The rig that stands for a formula: its formula converges with it.
abbrev pub rig_of_formula : DesiredFormula → DesiredRig
rig_of_formula df = record {
  name = df.rig_name;
  enabled = true;
  max_polecats = pos 0;
  witness_enabled = false;
}
