-- ===== src/Operator/Semver.antt =====
-- Versions of the form vMAJOR.MINOR.PATCH (pkg/k8s/operator/webhooks/doltinstance_webhook.go), with
-- what they use of `strings` and `strconv`: `TrimPrefix`, `SplitN` and `Atoi` at 64 bits.
pub mod Laws
pub mod RoundTrip
use Prim.Native.Char.{code}
use landman.Base.{
  String, Bool, true, false, ◌||◌, Option, none, some, List, [], ◌∷◌, ℕ, zero, suc, ◌+◌, ◌-◌, ◌*◌,
  ℤ, pos, negsuc, ltb, leb, eqb, ltb_ℤ, if◌then◌else◌,
}

-- Decimal digits, most significant first.
unfoldable pub scan : String → ℕ → Option ℕ
scan String.[] n = some n
scan (String.◌∷◌ c s) n =
    let rest = scan s (n * 10 + (code c - b'0')) in
    if ltb (code c) b'0' || ltb b'9' (code c) then none else rest

-- At least one digit.
unfoldable pub unsigned : String → Option ℕ
unfolding scan
unsigned String.[] = none
unsigned (String.◌∷◌ c s) = scan (String.◌∷◌ c s) 0

abbrev pub max_int : ℕ
max_int = 9223372036854775807

non_negative : Option ℕ → Option ℤ
non_negative none = none
non_negative (some n) = if leb n max_int then some (pos n) else none

negated : Option ℕ → Option ℤ
negated none = none
negated (some zero) = some (pos 0)
negated (some (suc n)) = if leb n max_int then some (negsuc n) else none

-- `strconv.Atoi`
unfoldable pub atoi : String → Option ℤ
unfolding unsigned non_negative negated
atoi String.[] = none
atoi (String.◌∷◌ c s) =
    if eqb (code c) b'-'
    then negated (unsigned s)
    else if eqb (code c) b'+'
    then non_negative (unsigned s)
    else non_negative (unsigned (String.◌∷◌ c s))

-- The text before and after the first dot.
unfoldable pub cut : String → Option (String × String)
cut String.[] = none
cut (String.◌∷◌ c s) =
    let rest = cut s in
    if eqb (code c) b'.'
    then some (String.[], s)
    else elim rest [ none ↦ none | some (before, after) ↦ some (String.◌∷◌ c before, after) ]

-- `strings.SplitN(v, ".", 3)`
unfoldable pub split_n3 : String → List String
unfolding cut
split_n3 v = elim (cut v) [
  | none ↦ v ∷ []
  | some (first, rest) ↦ elim (cut rest) [
    | none ↦ first ∷ rest ∷ []
    | some (second, third) ↦ first ∷ second ∷ third ∷ []
  ]
]

-- `strings.TrimPrefix(v, "v")`
unfoldable pub trim_v : String → String
trim_v String.[] = String.[]
trim_v (String.◌∷◌ c s) = if eqb (code c) b'v' then s else String.◌∷◌ c s

-- The loop over the parts; the first that is no number ends it.
unfoldable pub parse_parts : List String → Option (List ℤ)
unfolding atoi
parse_parts [] = some []
parse_parts (p ∷ parts) =
    let rest = parse_parts parts in
    elim (atoi p) [ none ↦ none | some n ↦ elim rest [ none ↦ none | some nums ↦ some (n ∷ nums) ] ]

unfoldable pub parse_three : List String → Option (List ℤ)
unfolding parse_parts
parse_three (a ∷ b ∷ c ∷ []) = parse_parts (a ∷ b ∷ c ∷ [])
parse_three _ = none

unfoldable pub parse_semver : String → Option (List ℤ)
unfolding parse_three split_n3 trim_v
parse_semver v = parse_three (split_n3 (trim_v v))

-- The loop over the numbers of both versions.
unfoldable pub is_older : List ℤ → List ℤ → Bool
is_older [] nw = false
is_older (o ∷ old) [] = false
is_older (o ∷ old) (n ∷ nw) =
    let rest = is_older old nw in if ltb_ℤ n o then true else if ltb_ℤ o n then false else rest

unfoldable pub is_version_downgrade : String → String → Bool
unfolding is_older parse_semver
is_version_downgrade old_ver new_ver = elim (parse_semver old_ver) [
  | none ↦ false
  | some old ↦ elim (parse_semver new_ver) [ none ↦ false | some nw ↦ is_older old nw ]
]
