-- ===== src/Manifest/Chains/Maps.antt =====
-- The two maps that validation and the merge build from the roles of a manifest
-- (pkg/manifest/validate.go, crossValidate, and claudemd_merge.go, ResolveExtendsChain).
use landman.Base.{String, ◌≡◌, sym, ◌∙◌, false, ◌||◌, Option, none, some}
use landman.Base.{inl, inr, ◌⊎◌, subst, List, [], ◌∷◌, foldl, ℕ, ◌+◌, arith, ok, All}
use landman.Base.{◌==◌, if◌then◌else◌, contains}
use landman.Base.Map.{Map, lookup, insert, has}
use landman.Manifest.Types.{RoleSpec}
use landman.Manifest.Validate.{collect_roles, add_target, is_builtin}
use landman.Manifest.Merge.{add_role}

-- What `extendsTarget` must hold for a name, given the role that the name stands for.
abbrev pub target_of : Option RoleSpec → Option String
target_of none = none
target_of (some r) = if r.identity.extends == "" then none else some r.identity.extends

has-add_role :
    (m : Map RoleSpec) (r : RoleSpec) (n : String) → has n (add_role m r) ≡ (r.name == n || has n m)
unfolding add_role
has-add_role m r n = ground arith

-- One round of pass 1 that returned no error.
pub collect_roles-cons :
    (i : ℕ) (names : List String) (scopes : Map String) (r : RoleSpec) (roles : List RoleSpec)
    {out : List String × Map String}
    → collect_roles i names scopes (r ∷ roles) ≡ ok out
    → (is_builtin r.name ≡ false)
      × (contains names r.name ≡ false)
      × (collect_roles (i + 1) (r.name ∷ names) (insert r.name r.scope scopes) roles ≡ ok out)
unfolding collect_roles
collect_roles-cons i names scopes r roles h = ground arith

agree_step :
    (m : Map RoleSpec) (t : Map String) (r : RoleSpec)
    → has r.name m ≡ false
    → ((n : String) → lookup n t ≡ target_of (lookup n m))
    → (n : String) → lookup n (add_target t r) ≡ target_of (lookup n (add_role m r))
unfolding add_target add_role
agree_step m t r fresh agree n = ground (arith, agree n)

-- The two maps that validation and the merge build from the roles agree, name by name.
pub targets_agree :
    (i : ℕ) (names : List String) (scopes : Map String) (roles : List RoleSpec) (m : Map RoleSpec)
    (t : Map String) {out : List String × Map String}
    → collect_roles i names scopes roles ≡ ok out
    → ((n : String) → contains names n ≡ has n m)
    → ((n : String) → lookup n t ≡ target_of (lookup n m))
    → (n : String)
    → lookup n (foldl add_target t roles) ≡ target_of (lookup n (foldl add_role m roles))
targets_agree i names scopes [] m t h same agree n = agree n
targets_agree i names scopes (r ∷ roles) m t h same agree n =
    let (_, fresh, rest) = collect_roles-cons i names scopes r roles h in
    targets_agree (i + 1) (r.name ∷ names) (insert r.name r.scope scopes) roles (add_role m r)
      (add_target t r) rest (λ k. ground (arith, same k, has-add_role m r k))
      (agree_step m t r (sym (same r.name) ∙ fresh) agree) n

-- Pass 1 collects the names that the merge's map knows.
pub names_known :
    (i : ℕ) (names : List String) (scopes : Map String) (roles : List RoleSpec) (m : Map RoleSpec)
    {out : List String × Map String}
    → collect_roles i names scopes roles ≡ ok out
    → ((n : String) → contains names n ≡ has n m)
    → (n : String) → contains out.0 n ≡ has n (foldl add_role m roles)
unfolding collect_roles
names_known i names scopes [] m h same n = ground (arith, same n)
names_known i names scopes (r ∷ roles) m h same n =
    let (_, fresh, rest) = collect_roles-cons i names scopes r roles h in
    names_known (i + 1) (r.name ∷ names) (insert r.name r.scope scopes) roles (add_role m r) rest
      (λ k. ground (arith, same k, has-add_role m r k)) n

lookup-add_role :
    (m : Map RoleSpec) (q : RoleSpec) (k : String) {s : RoleSpec}
    → lookup k (add_role m q) ≡ some s
    → ((q ≡ s) × (q.name ≡ k)) ⊎ (lookup k m ≡ some s)
unfolding add_role
lookup-add_role m q k e = ground arith

-- What holds of every role of a list holds of every role that its map finds.
pub lookup-All :
    (P : RoleSpec → Type 0) (roles : List RoleSpec) (m : Map RoleSpec)
    → All P roles
    → ((n : String) (r : RoleSpec) → lookup n m ≡ some r → P r × (r.name ≡ n))
    → (n : String) (r : RoleSpec) → lookup n (foldl add_role m roles) ≡ some r
    → P r × (r.name ≡ n)
lookup-All P [] m all known n r h = known n r h
lookup-All P (q ∷ roles) m (pq, all) known n r h =
    lookup-All P roles (add_role m q) all
      (λ k s e. elim (lookup-add_role m q k e) [
        | inl (same, named) ↦ (subst P same pq, rw (← same) named)
        | inr old ↦ known k s old
      ])
      n r h
