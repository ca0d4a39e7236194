-- ===== src/Base/Decimal.antt =====
-- Decimal notation, as `%d` prints an integer.
pub mod Digits
use Prim.Native.Nat.{ℕ, zero, suc, ◌/◌, ◌%◌, ◌<◌}
use Prim.Native.String.{String, ◌++◌ as ◌<>◌}
use mathlib.Core.Logic.{dite}
use mathlib.Core.List.{List, [], ◌∷◌}
use mathlib.Core.WellFounded.{Acc}
use native.Mathlib.Omega.{arith}
use native.Mathlib.Decide.{dec_lt}
use landman.Base.Numbers.{ℤ, pos, negsuc}

Acc-below : (k n : ℕ) → n < k → Acc ◌<◌ n
Acc-below zero n h = elim h [ ]
Acc-below (suc k) n h = Acc.intro n (λ m hm. Acc-below k m (omega arith))

unfoldable pub digit_at : List String → ℕ → String
digit_at [] n = ""
digit_at (d ∷ ds) zero = d
digit_at (d ∷ ds) (suc n) = digit_at ds n

abbrev pub ten_digits : List String
ten_digits = "0" ∷ "1" ∷ "2" ∷ "3" ∷ "4" ∷ "5" ∷ "6" ∷ "7" ∷ "8" ∷ "9" ∷ []

unfoldable pub digit : ℕ → String
unfolding digit_at
digit = digit_at ten_digits

digits : (n : ℕ) → Acc ◌<◌ n → String
digits n (Acc.intro _ smaller) =
    dite (dec_lt 9 n) (λ h. digits (n / 10) (smaller (n / 10) (omega arith)) <> digit (n % 10))
      (λ _. digit n)

unfoldable pub show_ℕ : ℕ → String
unfolding digits digit Acc-below dec_lt
show_ℕ n = digits n (Acc-below (suc n) n (omega arith))

unfoldable pub show_ℤ : ℤ → String
unfolding show_ℕ
show_ℤ (pos n) = show_ℕ n
show_ℤ (negsuc n) = "-" <> show_ℕ (suc n)
