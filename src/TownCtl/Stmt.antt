-- ===== src/TownCtl/Stmt.antt =====
-- SQL statements with their arguments (pkg/townctl/dolt.go, Stmt), and the texts that hold a
-- placeholder for each argument.
pub mod Marks
use Prim.Native.Char.{code}
use Prim.Native.String.{len, slice}
use landman.Base.{
  String, ◌<>◌, List, [], ◌∷◌, ◌++◌, ℕ, zero, suc, ◌+◌, ◌-◌, eqb, if◌then◌else◌, ℤ, pos, Bool, true,
  false,
}
use landman.Base.Float.{Float64}

-- What the program passes as `any`.
pub data Value : Type 0 where
  str : String → Value
  number : ℤ → Value
  float : Float64 → Value
  null : Value

pub record Stmt : Type 0 where
  pub query : String
  pub args : List Value

-- `0` or `1` for a flag.
abbrev pub flag : Bool → Value
flag true = number (pos 1)
flag false = number (pos 0)

-- How many `?` a text holds.
unfoldable pub marks : String → ℕ
marks String.[] = 0
marks (String.◌∷◌ c s) = (if eqb (code c) b'?' then 1 else 0) + marks s

-- `strings.Repeat`
unfoldable pub repeat : String → ℕ → String
repeat s zero = ""
repeat s (suc n) = s <> repeat s n

-- `s[:len(s)-2]`
unfoldable pub trim_two : String → String
trim_two s = slice s 0 (len s - 2)

-- The list of placeholders of `IN (...)`: one for each key, or a pair for each.
unfoldable pub placeholders : ℕ → String
unfolding repeat trim_two
placeholders n = trim_two (repeat "?, " n)

unfoldable pub pair_placeholders : ℕ → String
unfolding repeat trim_two
pair_placeholders n = trim_two (repeat "(?, ?), " n)
