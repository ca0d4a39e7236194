-- ===== src/Manifest/Validate/Names.antt =====
-- The uniqueness of names that crossValidate enforces (pkg/manifest/validate.go).
use landman.Base.{String, ◌≡◌, refl, true, false, List, [], ◌∷◌, map, ℕ, ◌+◌, arith}
use landman.Base.{ok, ◌>>=◌, >>=-ok, contains}
use landman.Base.Map.{Map, insert}
use landman.Base.Float.{FloatOps}
use landman.Manifest.Types.{TownManifest, RigSpec, RoleSpec}
use landman.Manifest.Validate.{cross_validate, check_rigs, collect_roles, check_roles}

-- No name stands twice in the list.
abbrev pub Unique : List String → Type 0
Unique [] = Unit {0}
Unique (s ∷ ss) = (contains ss s ≡ false) × Unique ss

abbrev pub names_of_rigs : List RigSpec → List String
names_of_rigs = map (λ r. r.name)

abbrev pub names_of_roles : List RoleSpec → List String
names_of_roles = map (λ r. r.name)

pub check_rigs-cons :
    (i : ℕ) (seen : List String) (r : RigSpec) (rigs : List RigSpec)
    → check_rigs i seen (r ∷ rigs) ≡ ok tt
    → (contains seen r.name ≡ false)
      × (r.agents.witness ≡ true → r.agents.mayor ≡ true)
      × (check_rigs (i + 1) (r.name ∷ seen) rigs ≡ ok tt)
unfolding check_rigs
check_rigs-cons i seen r rigs h = ground arith

-- A name that was seen does not come again.
check_rigs-fresh :
    (i : ℕ) (seen : List String) (rigs : List RigSpec)
    → check_rigs i seen rigs ≡ ok tt
    → (n : String) → contains seen n ≡ true
    → contains (names_of_rigs rigs) n ≡ false
check_rigs-fresh i seen [] h n old = refl
check_rigs-fresh i seen (r ∷ rigs) h n old =
    let (new, _, rest) = check_rigs-cons i seen r rigs h in
    ground (arith, check_rigs-fresh (i + 1) (r.name ∷ seen) rigs rest n)

pub check_rigs-Unique :
    (i : ℕ) (seen : List String) (rigs : List RigSpec)
    → check_rigs i seen rigs ≡ ok tt
    → Unique (names_of_rigs rigs)
check_rigs-Unique i seen [] h = tt
check_rigs-Unique i seen (r ∷ rigs) h =
    let (new, _, rest) = check_rigs-cons i seen r rigs h in
    (
      check_rigs-fresh (i + 1) (r.name ∷ seen) rigs rest r.name (ground arith),
      check_rigs-Unique (i + 1) (r.name ∷ seen) rigs rest,
    )

collect_roles-step :
    (i : ℕ) (names : List String) (scopes : Map String) (r : RoleSpec) (roles : List RoleSpec)
    {out : List String × Map String}
    → collect_roles i names scopes (r ∷ roles) ≡ ok out
    → (contains names r.name ≡ false)
      × (collect_roles (i + 1) (r.name ∷ names) (insert r.name r.scope scopes) roles ≡ ok out)
unfolding collect_roles
collect_roles-step i names scopes r roles h = ground arith

collect_roles-fresh :
    (i : ℕ) (names : List String) (scopes : Map String) (roles : List RoleSpec)
    {out : List String × Map String}
    → collect_roles i names scopes roles ≡ ok out
    → (n : String) → contains names n ≡ true
    → contains (names_of_roles roles) n ≡ false
collect_roles-fresh i names scopes [] h n old = refl
collect_roles-fresh i names scopes (r ∷ roles) h n old =
    let (new, rest) = collect_roles-step i names scopes r roles h in
    ground (
      arith,
      collect_roles-fresh (i + 1) (r.name ∷ names) (insert r.name r.scope scopes) roles rest n,
    )

pub collect_roles-Unique :
    (i : ℕ) (names : List String) (scopes : Map String) (roles : List RoleSpec)
    {out : List String × Map String}
    → collect_roles i names scopes roles ≡ ok out
    → Unique (names_of_roles roles)
collect_roles-Unique i names scopes [] h = tt
collect_roles-Unique i names scopes (r ∷ roles) h =
    let (new, rest) = collect_roles-step i names scopes r roles h in
    (
      collect_roles-fresh (i + 1) (r.name ∷ names) (insert r.name r.scope scopes) roles rest r.name
          (ground arith),
      collect_roles-Unique (i + 1) (r.name ∷ names) (insert r.name r.scope scopes) roles rest,
    )

pub cross_validate-check_rigs :
    (ops : FloatOps) (m : TownManifest)
    → cross_validate ops m ≡ ok tt
    → check_rigs 0 [] m.rigs ≡ ok tt
unfolding cross_validate
cross_validate-check_rigs ops m h = ground arith

pub cross_validate-roles :
    (ops : FloatOps) (m : TownManifest)
    → cross_validate ops m ≡ ok tt
    → (collect_roles 0 [] [] m.roles >>= check_roles m) ≡ ok tt
unfolding cross_validate
cross_validate-roles ops m h = ground arith

-- A validated manifest names each rig once, and each role once.
pub cross_validate-Unique :
    (ops : FloatOps) (m : TownManifest)
    → cross_validate ops m ≡ ok tt
    → Unique (names_of_rigs m.rigs) × Unique (names_of_roles m.roles)
cross_validate-Unique ops m h =
    let (out, collected, _) =
      >>=-ok (collect_roles 0 [] [] m.roles) (check_roles m) (cross_validate-roles ops m h) in
    (
      check_rigs-Unique 0 [] m.rigs (cross_validate-check_rigs ops m h),
      collect_roles-Unique 0 [] [] m.roles collected,
    )
