-- ===== src/Base/Decimal/Digits.antt =====
-- Induction on decimal notation: one digit, or more digits with one behind them.
use mathlib.Core.Logic.{dite}
use native.Mathlib.Decide.{dec_lt}
use mathlib.Core.List.{List, [], ◌∷◌}
use landman.Base.Lists.{length}
use Prim.Native.Nat.{ℕ, zero, suc, ◌+◌, ◌*◌, ◌/◌, ◌%◌, ◌<◌}
use Prim.Native.String.{String, ◌++◌ as ◌<>◌}
use mathlib.Core.Path.{subst}
use mathlib.Core.WellFounded.{Acc}
use native.Mathlib.Omega.{arith}
use landman.Base.Decimal.{digit, digit_at, ten_digits, digits, show_ℕ, Acc-below}

-- A predicate on the texts of a list and their positions from `i` on.
abbrev pub Positions : (String → ℕ → Type 0) → ℕ → List String → Type 0
Positions Q i [] = Unit
Positions Q i (d ∷ ds) = Q d i × Positions Q (suc i) ds

digit_at-Positions :
    (Q : String → ℕ → Type 0) (i k : ℕ) (ds : List String)
    → Positions Q i ds
    → k < length ds
    → Q (digit_at ds k) (k + i)
unfolding digit_at
digit_at-Positions Q i k [] q h = absurd (omega arith)
digit_at-Positions Q i zero (d ∷ ds) (q, qs) h = subst {A = ℕ} (Q d) (omega arith) q
digit_at-Positions Q i (suc k) (d ∷ ds) (q, qs) h =
    subst {A = ℕ} (Q (digit_at ds k)) (omega arith)
      (digit_at-Positions Q (suc i) k ds qs (omega arith))

pub digit-Positions :
    (Q : String → ℕ → Type 0) (k : ℕ) → Positions Q 0 ten_digits → k < 10 → Q (digit k) k
unfolding digit
digit-Positions Q k q h =
    subst {A = ℕ} (Q (digit k)) (omega arith) (digit_at-Positions Q 0 k ten_digits q h)

dite-ind :
    {A : Type 0} (Q : String → Type 0) (d : Dec A) (f : A → String) (g : ¬ A → String)
    → ((h : A) → Q (f h))
    → ((h : ¬ A) → Q (g h))
    → Q (dite d f g)
dite-ind Q (yes h) f g yes_case no_case = yes_case h
dite-ind Q (no h) f g yes_case no_case = no_case h

module _ {P : String → ℕ → Type 0} (one : (k : ℕ) → k < 10 → P (digit k) k)
    (more : (s : String) (m k : ℕ) → k < 10 → P s m → P (s <> digit k) (m * 10 + k)) where
  digits-ind : (n : ℕ) (a : Acc ◌<◌ n) → P (digits n a) n
  unfolding digits
  digits-ind n (Acc.intro _ smaller) =
      dite-ind (λ s. P s n) (dec_lt 9 n) _ _
        (λ large.
          subst {A = ℕ}
            (λ m. P (digits (n / 10) (smaller (n / 10) (omega arith)) <> digit (n % 10)) m)
            (omega arith)
            (more (digits (n / 10) (smaller (n / 10) (omega arith))) (n / 10) (n % 10) (omega arith)
              (digits-ind (n / 10) (smaller (n / 10) (omega arith)))))
        (λ small. one n (omega arith))

  pub show_ℕ-ind : (n : ℕ) → P (show_ℕ n) n
  unfolding show_ℕ
  show_ℕ-ind n = digits-ind n (Acc-below (suc n) n (omega arith))
