-- ===== src/Operator/Semver/RoundTrip.antt =====
-- Versions that are printed with `v%d.%d.%d` and parsed.
use Prim.Native.Char.{code}
use text.Mathlib.TextLemmas.{cons-append, nil-append}
use landman.Base.{
  String, ◌<>◌, ◌≡◌, refl, ◌∙◌, ap, Bool, true, false, ◌&&◌, Option, none, some, [], ◌∷◌, ℕ, ◌+◌,
  ◌-◌, ◌*◌, ◌≤◌, ◌<◌, leb, pos, arith,
}
use landman.Base.Decimal.{show_ℕ, digit}
use landman.Base.Decimal.Digits.{digit-Positions, show_ℕ-ind}
use landman.Operator.Semver.{
  scan, unsigned, atoi, cut, split_n3, trim_v, parse_parts, parse_three, parse_semver, max_int,
  non_negative,
}

abbrev bind_scan : Option ℕ → String → Option ℕ
bind_scan none t = none
bind_scan (some n) t = scan t n

scan-append : (s t : String) (n : ℕ) → scan (s <> t) n ≡ bind_scan (scan s n) t
unfolding scan
scan-append String.[] t n = rw nil-append refl
scan-append (String.◌∷◌ c s) t n =
    rw (cons-append c s t) (ground (arith, scan-append s t (n * 10 + (code c - b'0'))))

scan-digit : (k m : ℕ) → k < 10 → scan (digit k) m ≡ some (m * 10 + k)
unfolding scan
scan-digit k m h = digit-Positions (λ s j. scan s m ≡ some (m * 10 + j)) k (ground arith) h

-- The digits of a number are read as that number.
scan-show_ℕ : (n : ℕ) → scan (show_ℕ n) 0 ≡ some n
scan-show_ℕ =
    show_ℕ-ind {P = λ s n. scan s 0 ≡ some n} (λ k h. scan-digit k 0 h ∙ ap some (omega arith))
      (λ s m k h e. rw (scan-append s (digit k) 0) (rw e (scan-digit k m h)))

-- A text that is not empty and begins and goes on with digits.
unfoldable is_digits : String → Bool
is_digits String.[] = true
is_digits (String.◌∷◌ c s) = (leb b'0' (code c) && leb (code c) b'9') && is_digits s

unfoldable is_empty : String → Bool
is_empty String.[] = true
is_empty (String.◌∷◌ c s) = false

abbrev IsNumeral : String → Type 0
IsNumeral s = (is_digits s ≡ true) × (is_empty s ≡ false)

is_digits-append :
    (s t : String) → is_digits s ≡ true → is_digits t ≡ true → is_digits (s <> t) ≡ true
unfolding is_digits
is_digits-append String.[] t h k = rw nil-append k
is_digits-append (String.◌∷◌ c s) t h k =
    rw (cons-append c s t) (ground (arith, is_digits-append s t))

is_empty-append : (s t : String) → is_empty s ≡ false → is_empty (s <> t) ≡ false
unfolding is_empty
is_empty-append String.[] t h = absurd (ground arith)
is_empty-append (String.◌∷◌ c s) t h = rw (cons-append c s t) refl

digit-IsNumeral : (k : ℕ) → k < 10 → IsNumeral (digit k)
unfolding is_digits is_empty
digit-IsNumeral k h = digit-Positions (λ s j. IsNumeral s) k (ground arith) h

show_ℕ-IsNumeral : (n : ℕ) → IsNumeral (show_ℕ n)
show_ℕ-IsNumeral = show_ℕ-ind {P = λ s n. IsNumeral s} digit-IsNumeral (λ s m k h p.
    (is_digits-append s (digit k) p.0 (digit-IsNumeral k h).0, is_empty-append s (digit k) p.1))

-- The first dot stands behind the digits.
cut-numeral : (s t : String) → is_digits s ≡ true → cut (s <> ("." <> t)) ≡ some (s, t)
unfolding cut is_digits
cut-numeral String.[] t h = rw nil-append (rw (cons-append "." String.[] t) (rw nil-append refl))
cut-numeral (String.◌∷◌ c s) t h = rw (cons-append c s ("." <> t)) (ground (arith, cut-numeral s t))

atoi-numeral :
    (s : String) (n : ℕ) → IsNumeral s → scan s 0 ≡ some n → n ≤ max_int → atoi s ≡ some (pos n)
unfolding atoi unsigned is_digits is_empty non_negative
atoi-numeral String.[] n h e small = absurd (ground arith)
atoi-numeral (String.◌∷◌ c s) n h e small = ground arith

atoi-show_ℕ : (n : ℕ) → n ≤ max_int → atoi (show_ℕ n) ≡ some (pos n)
atoi-show_ℕ n small = atoi-numeral (show_ℕ n) n (show_ℕ-IsNumeral n) (scan-show_ℕ n) small

-- `fmt.Sprintf("v%d.%d.%d", a, b, c)`
abbrev pub print_semver : ℕ → ℕ → ℕ → String
print_semver a b c = "v" <> (show_ℕ a <> ("." <> (show_ℕ b <> ("." <> show_ℕ c))))

split_n3-numerals :
    (a b c : String)
    → is_digits a ≡ true
    → is_digits b ≡ true
    → split_n3 (a <> ("." <> (b <> ("." <> c)))) ≡ a ∷ b ∷ c ∷ []
unfolding split_n3
split_n3-numerals a b c ha hb =
    ground (arith, cut-numeral a (b <> ("." <> c)) ha, cut-numeral b c hb)

trim_v-append : (s : String) → trim_v ("v" <> s) ≡ s
unfolding trim_v
trim_v-append s = rw (cons-append "v" String.[] s) (rw nil-append refl)

parse_three-show_ℕ :
    (a b c : ℕ)
    → a ≤ max_int
    → b ≤ max_int
    → c ≤ max_int
    → parse_three (show_ℕ a ∷ show_ℕ b ∷ show_ℕ c ∷ []) ≡ some (pos a ∷ pos b ∷ pos c ∷ [])
unfolding parse_three parse_parts
parse_three-show_ℕ a b c ha hb hc =
    ground (arith, atoi-show_ℕ a ha, atoi-show_ℕ b hb, atoi-show_ℕ c hc)

-- For numbers that fit in an int, parseSemver reads `v%d.%d.%d` back to the three numbers.
pub parse_semver-print_semver :
    (a b c : ℕ)
    → a ≤ max_int
    → b ≤ max_int
    → c ≤ max_int
    → parse_semver (print_semver a b c) ≡ some (pos a ∷ pos b ∷ pos c ∷ [])
unfolding parse_semver
parse_semver-print_semver a b c ha hb hc =
    ap (λ v. parse_three (split_n3 v))
      (trim_v-append (show_ℕ a <> ("." <> (show_ℕ b <> ("." <> show_ℕ c)))))
    ∙ ap parse_three (
        split_n3-numerals (show_ℕ a) (show_ℕ b) (show_ℕ c) (show_ℕ-IsNumeral a).0
          (show_ℕ-IsNumeral b).0)
    ∙ parse_three-show_ℕ a b c ha hb hc
