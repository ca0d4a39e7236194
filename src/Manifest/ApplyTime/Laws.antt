-- ===== src/Manifest/ApplyTime/Laws.antt =====
-- The files of the extends chains after both validations (pkg/manifest/validate.go and
-- claudemd_merge.go).
use landman.Base.{
  String, ◌≡◌, subst, sym, ◌∙◌, ap, ◌⊎◌, inl, inr, Bool, true, Option, none, some, List, [], ◌∷◌,
  ◌++◌, ℕ, zero, suc, arith, ok, ◌>>=◌, >>=-ok, >>-ok, each-All, All, All-map, length, Option-cases,
  str_dec,
}
use landman.Base.Map.{Map, lookup}
use landman.Base.Float.{FloatOps}
use landman.Manifest.Types.{TownManifest, RoleSpec}
use landman.Manifest.Validate.{cross_validate}
use landman.Manifest.Merge.{by_name, resolve_chain, resolve_extends_chain, merge_extends_chain}
use landman.Manifest.Merge.Laws.{read_all, read_all-ok, joined, merge_extends_chain-joined}
use landman.Manifest.Chains.{resolve_of_cross_validate}
use landman.Manifest.Chains.Maps.{lookup-All}
use landman.Manifest.ApplyTime.{validate_apply_time_fs, check_role_path}

module _ (expand : String → String) (roles : Map RoleSpec) (depth : ℕ) (name : String)
    {paths : List String} (h : resolve_chain expand roles (suc depth) name ≡ ok paths) where
  resolve_chain-missing : lookup name roles ≡ none → ⊥
  unfolding resolve_chain
  resolve_chain-missing e = ground arith

  -- The file of a role without a base, or the files of its base and then its own.
  abbrev IsHop : RoleSpec → Type 0
  IsHop r =
      (paths ≡ expand r.identity.claude_md ∷ [])
      ⊎ ((base : List String) × (resolve_chain expand roles depth r.identity.extends ≡ ok base)
          × (paths ≡ base ++ (expand r.identity.claude_md ∷ [])))

  resolve_chain-found : (r : RoleSpec) → lookup name roles ≡ some r → IsHop r
  unfolding resolve_chain
  resolve_chain-found r e = elim (str_dec r.identity.extends "") [
    | yes plain ↦ inl (ground arith)
    | no hop ↦
        let own = expand r.identity.claude_md ∷ [] in
        let joined_here : (resolve_chain expand roles depth r.identity.extends >>= λ ps.
        ok (ps ++ own))
            ≡ ok paths =
          ground arith in
        let (base, resolved, same) =
          >>=-ok (resolve_chain expand roles depth r.identity.extends) _ joined_here in
        inr (base, resolved, ground arith)
  ]

  resolve_chain-cases : (r : RoleSpec) × (lookup name roles ≡ some r) × IsHop r
  resolve_chain-cases = elim (Option-cases (lookup name roles)) [
    | inl e ↦ absurd (resolve_chain-missing e)
    | inr (r, e) ↦ (r, e, resolve_chain-found r e)
  ]

module _ (expand : String → String) (P : String → Type 0) where
  All-snoc : (xs : List String) (x : String) → All P xs → P x → All P (xs ++ (x ∷ []))
  All-snoc [] x all p = (p, tt)
  All-snoc (y ∷ xs) x (q, all) p = (q, All-snoc xs x all p)

  -- What holds of every role's file holds of every file of a chain.
  resolve_chain-All :
      (roles : Map RoleSpec)
      → ((n : String) (r : RoleSpec) → lookup n roles ≡ some r → P (expand r.identity.claude_md))
      → (depth : ℕ) (name : String) (paths : List String)
      → resolve_chain expand roles depth name ≡ ok paths
      → All P paths
  resolve_chain-All roles each_role zero name paths h = unfold resolve_chain in cc
  resolve_chain-All roles each_role (suc depth) name paths h =
      let (r, found, rest) = resolve_chain-cases expand roles depth name h in
      let own = each_role name r found in
      elim rest [
        | inl e ↦ subst (All P) (sym e) (own, tt)
        | inr (base, resolved, e) ↦ subst (All P) (sym e) (
            All-snoc base _
              (resolve_chain-All roles each_role depth r.identity.extends base resolved) own)
      ]

check_role_path-own :
    (expand : String → String) (stat : String → Bool) (paths : Map String) (r : RoleSpec)
    → check_role_path expand stat paths r ≡ ok tt
    → stat (expand r.identity.claude_md) ≡ true
unfolding check_role_path
check_role_path-own expand stat paths r h = ground arith

found_paths :
    (expand : String → String) (stat : String → Bool) (m : TownManifest)
    → validate_apply_time_fs expand stat m ≡ ok tt
    → (n : String) (r : RoleSpec) → lookup n (by_name m.roles) ≡ some r
    → stat (expand r.identity.claude_md) ≡ true
unfolding validate_apply_time_fs by_name
found_paths expand stat m h n r found =
    (lookup-All (λ r. stat (expand r.identity.claude_md) ≡ true) m.roles []
      (All-map (check_role_path-own expand stat _) m.roles (each-All _ m.roles (>>-ok _ _ h).1))
      (λ k s e. cc) n r found).0

merge_of_readable :
    (fs : String → Option String) (before : List String) (own : String)
    → All (λ p. (text : String) × (fs p ≡ some text)) (before ++ (own ∷ []))
    → (texts : List String) × (read_all fs (before ++ (own ∷ [])) ≡ ok texts)
      × (merge_extends_chain fs (before ++ (own ∷ [])) ≡ ok (joined texts))
merge_of_readable fs [] own all =
    let (texts, e) = read_all-ok fs (own ∷ []) all in
    (texts, e, merge_extends_chain-joined fs own [] ∙ ap (λ x. x >>= λ ts. ok (joined ts)) e)
merge_of_readable fs (p ∷ before) own all =
    let (texts, e) = read_all-ok fs (p ∷ (before ++ (own ∷ []))) all in
    (
      texts,
      e,
      merge_extends_chain-joined fs p (before ++ (own ∷ []))
          ∙ ap (λ x. x >>= λ ts. ok (joined ts)) e,
    )

-- For a manifest that passes the cross-field validation and the checks of files before an apply,
-- where a file that `stat` finds can be read: the merged CLAUDE.md of every role can be made. Its
-- chain resolves and ends with the role's own file, every file of it is read, and the merge is their
-- texts with the separator between each two.
pub merge_of_validated :
    (ops : FloatOps) (expand : String → String) (stat : String → Bool) (fs : String → Option String)
    (m : TownManifest) (name : String) (r : RoleSpec)
    → cross_validate ops m ≡ ok tt
    → validate_apply_time_fs expand stat m ≡ ok tt
    → ((p : String) → stat p ≡ true → (text : String) × (fs p ≡ some text))
    → lookup name (by_name m.roles) ≡ some r
    → (before : List String) × (texts : List String) × (resolve_extends_chain expand name m.roles
        ≡ ok (before ++ (expand r.identity.claude_md ∷ [])))
      × (read_all fs (before ++ (expand r.identity.claude_md ∷ [])) ≡ ok texts)
      × (merge_extends_chain fs (before ++ (expand r.identity.claude_md ∷ [])) ≡ ok (joined texts))
unfolding resolve_extends_chain
merge_of_validated ops expand stat fs m name r valid files readable found =
    let (before, resolved) = resolve_of_cross_validate ops expand m name r valid found in
    let own = expand r.identity.claude_md in
    let stated =
      resolve_chain-All expand (λ p. stat p ≡ true) (by_name m.roles)
        (found_paths expand stat m files) (suc (length m.roles)) name (before ++ (own ∷ []))
        resolved in
    let (texts, read, merged) =
      merge_of_readable fs before own (All-map readable (before ++ (own ∷ [])) stated) in
    (before, texts, resolved, read, merged)
