-- ===== src/Manifest/Chains.antt =====
-- The extends chains of a manifest that passed validation (pkg/manifest/validate.go and
-- claudemd_merge.go together).
pub mod Maps
use landman.Base.{String, ◌≡◌, refl, sym, ◌∙◌, ap, Bool, true, false, not, ◌||◌, Option, none, some}
use landman.Base.{
  inl, inr, ◌⊎◌, subst, List, [], ◌∷◌, ◌++◌, foldl, ℕ, ◌+◌, zero, suc, arith, Result, ok, err, each,
  each-All, All, All-map, >>-ok, >>=-ok, ◌>>=◌, ◌≢◌, str_dec,
}
use landman.Base.{◌==◌, if◌then◌else◌, contains, length, Bool-cases}
use landman.Base.Map.{Map, lookup, insert, has, has-true}
use landman.Base.Float.{FloatOps}
use landman.Manifest.Types.{RoleSpec, TownManifest}
use landman.Manifest.Extends.{walk, detect_extends_cycle}
use landman.Manifest.Validate.{
  cross_validate, collect_roles, check_roles, check_role, check_extends, check_trigger, is_known,
  add_target, extends_targets, ManifestError, is_builtin, bad_chain, lift,
}
use landman.Manifest.Validate.Names.{cross_validate-roles}
use landman.Manifest.Merge.{add_role, by_name, resolve_chain, resolve_extends_chain, MergeError}
use landman.Manifest.Merge.Laws.{resolve_root, resolve_hop}
use landman.Manifest.Chains.Maps.{target_of, targets_agree, names_known, lookup-All}

-- What pass 2 leaves of a role: a base that is a known custom role, from which the walk ends.
abbrev IsSound : List RoleSpec → RoleSpec → Type 0
IsSound roles r =
    (r.identity.extends ≡ "")
    ⊎ ((has r.identity.extends (by_name roles) ≡ true)
        × (detect_extends_cycle r.name (extends_targets roles) (length roles) ≡ ok tt))

lift-ok :
    {E : Type 0} (f : E → ManifestError) (x : Result E (Unit {0})) → lift f x ≡ ok tt → x ≡ ok tt
lift-ok f (ok tt) h = refl
lift-ok f (err e) h = cc

check_extends-ok :
    (names : List String) (targets : Map String) (depth : ℕ) (r : RoleSpec)
    → check_extends names targets depth r ≡ ok tt
    → (r.identity.extends ≡ "")
      ⊎ ((contains names r.identity.extends ≡ true)
          × (detect_extends_cycle r.name targets depth ≡ ok tt))
unfolding check_extends
check_extends-ok names targets depth r h =
    ground (arith, lift-ok bad_chain (detect_extends_cycle r.name targets depth))

check_role-extends :
    (names : List String) (targets : Map String) (depth : ℕ) (r : RoleSpec)
    → check_role names targets depth r ≡ ok tt
    → check_extends names targets depth r ≡ ok tt
unfolding check_role
check_role-extends names targets depth r h = ground arith

-- The run of the checks on the roles, taken apart.
roles-IsSound :
    (m : TownManifest) (out : List String × Map String)
    → collect_roles 0 [] [] m.roles ≡ ok out
    → check_roles m out ≡ ok tt
    → All (IsSound m.roles) m.roles
unfolding check_roles by_name
roles-IsSound m (names, scopes) collected checked =
    All-map
      (λ r e. elim (check_extends-ok _ _ _ r (check_role-extends _ _ _ r e)) [
        | inl plain ↦ inl plain
        | inr (known, walked) ↦ inr (
          sym (names_known 0 [] [] m.roles [] collected (λ n. refl) r.identity.extends) ∙ known,
          walked,
        )
      ])
      m.roles (each-All _ m.roles (>>-ok _ _ checked).0)

walk_step :
    (origin : String) (targets : Map String) (fuel : ℕ) (visited : List String) (cur : String)
    {next : String}
    → lookup cur targets ≡ some next
    → walk origin targets (suc fuel) visited cur ≡ ok tt
    → walk origin targets fuel (next ∷ visited) next ≡ ok tt
unfolding walk
walk_step origin targets fuel visited cur found ends = ground arith

target_of_hop :
    (roles : Map RoleSpec) (targets : Map String) (name : String) (r : RoleSpec)
    → lookup name roles ≡ some r
    → r.identity.extends ≢ ""
    → lookup name targets ≡ target_of (lookup name roles)
    → lookup name targets ≡ some r.identity.extends
target_of_hop roles targets name r found hop agree = ground arith

module _ (expand : String → String) (roles : List RoleSpec)
    (agree : (n : String) → lookup n (extends_targets roles) ≡ target_of (lookup n (by_name roles)))
    (sound : (n : String) (r : RoleSpec)
      → lookup n (by_name roles) ≡ some r
      → IsSound roles r × (r.name ≡ n)) where
  -- Where the walk ends, the merge finds every file of the chain, within the same number of hops.
  resolve_of_walk :
      (fuel : ℕ) (origin : String) (visited : List String) (cur : String) (r : RoleSpec)
      → lookup cur (by_name roles) ≡ some r
      → walk origin (extends_targets roles) fuel visited cur ≡ ok tt
      → (paths : List String) × (resolve_chain expand (by_name roles) fuel cur
          ≡ ok (paths ++ (expand r.identity.claude_md ∷ [])))
  unfolding walk
  resolve_of_walk zero origin visited cur r found ends = cc
  resolve_of_walk (suc fuel) origin visited cur r found ends =
      elim (str_dec r.identity.extends "") [
        | yes plain ↦ ([], resolve_root expand (by_name roles) fuel cur r found plain)
        | no hop ↦ elim (sound cur r found).0 [
          | inl plain ↦ absurd (hop plain)
          | inr (known, _) ↦
              let next = r.identity.extends in
              let (s, found') = has-true next (by_name roles) known in
              let target =
                target_of_hop (by_name roles) (extends_targets roles) cur r found hop (agree cur) in
              let (paths, base) =
                resolve_of_walk fuel origin (next ∷ visited) next s found'
                  (walk_step origin (extends_targets roles) fuel visited cur target ends) in
              (
                paths ++ (expand s.identity.claude_md ∷ []),
                resolve_hop expand (by_name roles) fuel cur r found hop _ base,
              )
        ]
      ]

-- Validation leaves a manifest whose roles are all sound.
found-IsSound :
    (m : TownManifest) (out : List String × Map String)
    → collect_roles 0 [] [] m.roles ≡ ok out
    → check_roles m out ≡ ok tt
    → (name : String) (r : RoleSpec) → lookup name (by_name m.roles) ≡ some r
    → IsSound m.roles r × (r.name ≡ name)
unfolding by_name
found-IsSound m out collected checked =
    lookup-All (IsSound m.roles) m.roles [] (roles-IsSound m out collected checked) (λ n r e. cc)

resolve_of_checks :
    (expand : String → String) (m : TownManifest) (out : List String × Map String)
    → collect_roles 0 [] [] m.roles ≡ ok out
    → check_roles m out ≡ ok tt
    → (name : String) (r : RoleSpec) → lookup name (by_name m.roles) ≡ some r
    → (paths : List String) × (resolve_extends_chain expand name m.roles
        ≡ ok (paths ++ (expand r.identity.claude_md ∷ [])))
unfolding resolve_extends_chain detect_extends_cycle extends_targets
resolve_of_checks expand m out collected checked name r found =
    let (sound, named) = found-IsSound m out collected checked name r found in
    elim sound [
      | inl plain ↦ ([], resolve_root expand (by_name m.roles) (length m.roles) name r found plain)
      | inr (_, ends) ↦
          resolve_of_walk expand m.roles
            (targets_agree 0 [] [] m.roles [] [] collected (λ n. refl) (λ n. refl))
            (found-IsSound m out collected checked) (suc (length m.roles)) r.name [] name r found
            (subst (λ k. walk r.name (extends_targets m.roles) (suc (length m.roles)) [] k ≡ ok tt)
              named ends)
    ]

-- Every role of a manifest that passes the cross-field validation has an extends chain: the merge
-- resolves it without an error, and the role's own file comes last.
pub resolve_of_cross_validate :
    (ops : FloatOps) (expand : String → String) (m : TownManifest) (name : String) (r : RoleSpec)
    → cross_validate ops m ≡ ok tt
    → lookup name (by_name m.roles) ≡ some r
    → (paths : List String) × (resolve_extends_chain expand name m.roles
        ≡ ok (paths ++ (expand r.identity.claude_md ∷ [])))
resolve_of_cross_validate ops expand m name r valid found =
    let (out, collected, checked) =
      >>=-ok (collect_roles 0 [] [] m.roles) (check_roles m) (cross_validate-roles ops m valid) in
    resolve_of_checks expand m out collected checked name r found
