-- ===== src/TownCtl/Merged.antt =====
-- The merged CLAUDE.md files of an apply (pkg/townctl/customroles.go, MergeAndWriteExtendsChains).
-- The file system is a function; `os.ExpandEnv`, `filepath.Join`, and which directories and files can
-- be written are parameters.
pub mod Laws
use landman.Base.{
  String, ◌<>◌, Bool, not, Option, none, some, List, [], ◌∷◌, ◌++◌, ◌==◌, if◌then◌else◌,
}
use landman.Base.{Result, ok, err, ◌>>=◌, ◌>>◌, fail_if}
use landman.Manifest.Types.{TownManifest, RoleSpec}
use landman.Manifest.Merge.{MergeError, resolve_extends_chain, merge_extends_chain}

abbrev pub Files : Type 0
Files = String → Option String

-- `os.WriteFile`, where it succeeds.
abbrev pub write : String → String → Files → Files
write path content fs = λ p. if p == path then some content else fs p

pub record Host : Type 0 where
  pub expand : String → String
  pub join : String → String → String
  pub can_make : String → Bool
  pub can_write : String → Bool

pub data WriteError : Type 0 where
  bad_chain : String → MergeError → WriteError
  bad_merge : String → MergeError → WriteError
  no_directory : String → String → WriteError
  no_file : String → String → WriteError

abbrev wrap {ℓ} :
    {A : Type ℓ} → (MergeError → WriteError) → Result MergeError A → Result WriteError A
wrap f (ok a) = ok a
wrap f (err e) = err (f e)

module _ (h : Host) (dir : String) where
  abbrev pub merged_path : RoleSpec → String
  merged_path role = h.join dir (role.name <> ".md")

  -- `m.Roles[i].Identity.ClaudeMD = mergedPath`
  unfoldable pub redirect : RoleSpec → RoleSpec
  redirect role = record role { identity = record role.identity { claude_md = merged_path role } }

  -- The body of the loop for one role that extends another.
  unfoldable pub write_merged : Files → List RoleSpec → RoleSpec → Result WriteError Files
  write_merged fs roles role = do
    chain ← wrap (bad_chain role.name) (resolve_extends_chain h.expand role.name roles)
    merged ← wrap (bad_merge role.name) (merge_extends_chain fs chain)
    fail_if (not (h.can_make dir)) (no_directory role.name dir)
    fail_if (not (h.can_write (merged_path role))) (no_file role.name (merged_path role))
    ok (write (merged_path role) merged fs)

  -- The loop: the roles that it has passed, changed in place, and those that are left.
  unfoldable pub merge_loop :
      Files → List RoleSpec → List RoleSpec → Result WriteError (Files × List RoleSpec)
  merge_loop fs passed [] = ok (fs, passed)
  merge_loop fs passed (role ∷ roles) =
      let skipped = merge_loop fs (passed ++ (role ∷ [])) roles in
      let merged =
        (write_merged fs (passed ++ (role ∷ roles)) role >>= λ fs'.
        merge_loop fs' (passed ++ (redirect role ∷ [])) roles) in
      if role.identity.extends == "" then skipped else merged

unfoldable pub merge_and_write_extends_chains :
    Host → TownManifest → String → Files → Result WriteError (Files × TownManifest)
merge_and_write_extends_chains h m gt_home fs = do
  let dir = h.join (h.join (h.expand gt_home) "roles") "merged"
  (fs', roles) ← merge_loop h dir fs [] m.roles
  ok (fs', record m { roles = roles })
