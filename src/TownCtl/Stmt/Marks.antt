-- ===== src/TownCtl/Stmt/Marks.antt =====
-- The placeholders of a statement against its arguments: the counts of the texts that the
-- statements are built from.
use Prim.Native.String.{len}
use text.Mathlib.TextLemmas.{cons-append, nil-append, append_assoc, append-nil}
use text.Mathlib.TextPositions.{len-append, slice-append_left}
use landman.Base.{String, ◌<>◌, ◌≡◌, sym, ap, ◌∙◌, ℕ, zero, suc, ◌+◌, ◌*◌, ◌-◌, arith}
use landman.Base.{length}
use landman.TownCtl.Stmt.{Stmt, marks, repeat, trim_two, placeholders, pair_placeholders}

pub marks-append : (s t : String) → marks (s <> t) ≡ marks s + marks t
unfolding marks
marks-append String.[] t = rw nil-append (omega arith)
marks-append (String.◌∷◌ c s) t = rw cons-append (omega (arith, marks-append s t))

repeat-suc : (s : String) (n : ℕ) → repeat s (suc n) ≡ repeat s n <> s
unfolding repeat
repeat-suc s zero = rw (append-nil, nil-append)
repeat-suc s (suc n) = ap (λ t. s <> t) (repeat-suc s n) ∙ sym (append_assoc s (repeat s n) s)

marks-repeat : (s : String) (n : ℕ) → marks (repeat s n) ≡ n * marks s
unfolding repeat marks
marks-repeat s zero = omega arith
marks-repeat s (suc n) = rw marks-append (omega (arith, marks-repeat s n))

-- Cutting the last two bytes takes an appended ", " away.
trim_two-append : (s : String) → trim_two (s <> ", ") ≡ s
unfolding trim_two
trim_two-append s =
    rw (len-append s ", ")
      (let e : len s + len ", " - 2 ≡ len s = omega arith in rw e (slice-append_left s ", "))

trim_two-repeat :
    (u : String) (n : ℕ) → trim_two (repeat (u <> ", ") (suc n)) ≡ repeat (u <> ", ") n <> u
trim_two-repeat u n =
    ap trim_two (repeat-suc (u <> ", ") n ∙ sym (append_assoc (repeat (u <> ", ") n) u ", "))
    ∙ trim_two-append (repeat (u <> ", ") n <> u)

pub marks-placeholders : (n : ℕ) → marks (placeholders (suc n)) ≡ suc n
unfolding placeholders marks
marks-placeholders n =
    ap marks (trim_two-repeat "?" n)
    ∙ marks-append (repeat "?, " n) "?"
    ∙ omega (arith, marks-repeat "?, " n)

pub marks-pair_placeholders : (n : ℕ) → marks (pair_placeholders (suc n)) ≡ 2 * suc n
unfolding pair_placeholders marks
marks-pair_placeholders n =
    ap marks (trim_two-repeat "(?, ?)" n)
    ∙ marks-append (repeat "(?, ?), " n) "(?, ?)"
    ∙ omega (arith, marks-repeat "(?, ?), " n)

-- A statement that the driver accepts: as many arguments as placeholders.
abbrev pub IsBound : Stmt → Type 0
IsBound s = marks s.query ≡ length s.args
