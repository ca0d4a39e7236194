-- ===== src/Operator/Tables/Laws.antt =====
-- Statements in turn, and rows by key after an upsert, a deletion or an insertion.
use landman.Base.{String, ◌≡◌, ◌≢◌, refl, false, List, [], ◌∷◌, ◌++◌, ℤ, arith, ◌==◌, if◌then◌else◌}
use landman.Operator.Tables.{
  Tables, Statement, run, run_all, upsert, disable, RigRow, rows_of, delete_of,
}

pub run_all-append :
    (now : ℤ) (ss ts : List Statement) (t : Tables)
    → run_all now (ss ++ ts) t ≡ run_all now ts (run_all now ss t)
unfolding run_all
run_all-append now [] ts t = refl
run_all-append now (s ∷ ss) ts t = run_all-append now ss ts (run now s t)

module _ {A : Type 0} (key : A → String) where
  -- One key's row is the new one, and the other keys' rows are as before.
  pub rows_of-upsert :
      (a : A) (k : String) (xs : List A)
      → key a ≢ k
      → rows_of key k (upsert key a xs) ≡ rows_of key k xs
  unfolding upsert
  rows_of-upsert a k [] differ = ground arith
  rows_of-upsert a k (x ∷ xs) differ = ground (arith, rows_of-upsert a k xs)

  pub rows_of-delete_of : (k : String) (xs : List A) → rows_of key k (delete_of key k xs) ≡ []
  rows_of-delete_of k [] = refl
  rows_of-delete_of k (x ∷ xs) = ground (arith, rows_of-delete_of k xs)

  pub rows_of-delete_of_ne :
      (k j : String) (xs : List A) → j ≢ k → rows_of key k (delete_of key j xs) ≡ rows_of key k xs
  rows_of-delete_of_ne k j [] differ = refl
  rows_of-delete_of_ne k j (x ∷ xs) differ = ground (arith, rows_of-delete_of_ne k j xs)

  -- Rows that all have one key.
  abbrev pub Keyed : String → List A → Type 0
  Keyed k [] = Unit
  Keyed k (x ∷ xs) = (key x ≡ k) × Keyed k xs

  pub rows_of-Keyed : (k : String) (xs : List A) → Keyed k xs → rows_of key k xs ≡ xs
  rows_of-Keyed k [] all = refl
  rows_of-Keyed k (x ∷ xs) all = ground (arith, rows_of-Keyed k xs)

  pub rows_of-Keyed_ne : (k j : String) (xs : List A) → Keyed j xs → j ≢ k → rows_of key k xs ≡ []
  rows_of-Keyed_ne k j [] all differ = refl
  rows_of-Keyed_ne k j (x ∷ xs) all differ = ground (arith, rows_of-Keyed_ne k j xs)

  -- The rows of a key, once each: no two rows have one key.
  abbrev pub IsKeyed : List A → Type 0
  IsKeyed [] = Unit
  IsKeyed (x ∷ xs) = (rows_of key (key x) xs ≡ []) × IsKeyed xs

  -- On a table with a primary key an upsert leaves one row of its key.
  pub rows_of-upsert_self :
      (a : A) (xs : List A) → IsKeyed xs → rows_of key (key a) (upsert key a xs) ≡ a ∷ []
  unfolding upsert
  rows_of-upsert_self a [] keyed = ground arith
  rows_of-upsert_self a (x ∷ xs) keyed = ground (arith, rows_of-upsert_self a xs)

  pub upsert-IsKeyed : (a : A) (xs : List A) → IsKeyed xs → IsKeyed (upsert key a xs)
  unfolding upsert
  upsert-IsKeyed a [] keyed = ground arith
  upsert-IsKeyed a (x ∷ xs) keyed = ground (arith, upsert-IsKeyed a xs, rows_of-upsert a (key x) xs)

  pub rows_of-upsert_if :
      (a : A) (k : String) (xs : List A)
      → IsKeyed xs
      → rows_of key k (upsert key a xs) ≡ (if key a == k then a ∷ [] else rows_of key k xs)
  rows_of-upsert_if a k xs keyed =
      ground (arith, rows_of-upsert a k xs, rows_of-upsert_self a xs keyed)

  pub rows_of-delete_if :
      (k j : String) (xs : List A)
      → rows_of key k (delete_of key j xs) ≡ (if j == k then [] else rows_of key k xs)
  rows_of-delete_if k j xs = ground (arith, rows_of-delete_of k xs, rows_of-delete_of_ne k j xs)

-- Every row of a disabled rig is disabled.
abbrev pub AllDisabled : List RigRow → Type 0
AllDisabled [] = Unit
AllDisabled (r ∷ rigs) = (r.enabled ≡ false) × AllDisabled rigs

pub disable-AllDisabled :
    (name : String) (rigs : List RigRow)
    → AllDisabled (rows_of (λ r. r.name) name (disable name rigs))
unfolding disable
disable-AllDisabled name [] = tt
disable-AllDisabled name (r ∷ rigs) = ground (arith, disable-AllDisabled name rigs)

pub rows_of-disable :
    (name k : String) (rigs : List RigRow)
    → name ≢ k
    → rows_of (λ r. r.name) k (disable name rigs) ≡ rows_of (λ r. r.name) k rigs
unfolding disable
rows_of-disable name k [] differ = refl
rows_of-disable name k (r ∷ rigs) differ = ground (arith, rows_of-disable name k rigs)
