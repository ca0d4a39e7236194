-- ===== src/Operator/Semver/Laws.antt =====
-- How many numbers a version that parses has.
use landman.Base.{String, ◌≡◌, inl, inr, some, List, [], ◌∷◌, ℤ, arith, length, Option-cases}
use landman.Operator.Semver.{parse_semver, split_n3, trim_v, parse_three, parse_parts}

parse_parts-length :
    (parts : List String) {nums : List ℤ}
    → parse_parts parts ≡ some nums
    → length nums ≡ length parts
unfolding parse_parts
parse_parts-length [] h = ground arith
parse_parts-length (p ∷ parts) {nums} h = elim (Option-cases (parse_parts parts)) [
  | inl unparsed ↦ ground arith
  | inr (rest, e) ↦ ground (arith, parse_parts-length parts {nums = rest} e)
]

parse_three-length :
    (parts : List String) {nums : List ℤ} → parse_three parts ≡ some nums → length nums ≡ 3
unfolding parse_three
parse_three-length [] h = absurd (ground arith)
parse_three-length (a ∷ []) h = absurd (ground arith)
parse_three-length (a ∷ b ∷ []) h = absurd (ground arith)
parse_three-length (a ∷ b ∷ c ∷ []) h = parse_parts-length (a ∷ b ∷ c ∷ []) h
parse_three-length (a ∷ b ∷ c ∷ d ∷ rest) h = absurd (ground arith)

pub parse_semver-length :
    (v : String) {nums : List ℤ} → parse_semver v ≡ some nums → length nums ≡ 3
unfolding parse_semver
parse_semver-length v h = parse_three-length (split_n3 (trim_v v)) h
