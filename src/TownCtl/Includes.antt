-- ===== src/TownCtl/Includes.antt =====
-- The merge of included manifests (pkg/townctl/includes.go, MergeIncludes). The files have been
-- found, read and parsed.
pub mod Laws
use landman.Base.{String, List, [], ◌∷◌, ◌++◌, map, Result, ok, err, ◌>>=◌, ◌>>◌, fail_if, contains}
use landman.Manifest.Types.{TownManifest, RigSpec, RoleSpec}

pub data IncludeError : Type 0 where
  duplicate_rig : String → IncludeError
  duplicate_role : String → IncludeError

-- The loop over the rigs of one file: the names seen, and the base's rigs so far.
unfoldable pub merge_rigs :
    List String → List RigSpec → List RigSpec → Result IncludeError (List String × List RigSpec)
merge_rigs names base [] = ok (names, base)
merge_rigs names base (rig ∷ rigs) = do
  fail_if (contains names rig.name) (duplicate_rig rig.name)
  merge_rigs (rig.name ∷ names) (base ++ (rig ∷ [])) rigs

unfoldable pub merge_roles :
    List String → List RoleSpec → List RoleSpec → Result IncludeError (List String × List RoleSpec)
merge_roles names base [] = ok (names, base)
merge_roles names base (role ∷ roles) = do
  fail_if (contains names role.name) (duplicate_role role.name)
  merge_roles (role.name ∷ names) (base ++ (role ∷ [])) roles

-- The loop over the included files.
unfoldable pub merge_files :
    List String → List String → TownManifest → List TownManifest → Result IncludeError TownManifest
merge_files rig_names role_names base [] = ok base
merge_files rig_names role_names base (inc ∷ included) = do
  (rig_names', rigs) ← merge_rigs rig_names base.rigs inc.rigs
  (role_names', roles) ← merge_roles role_names base.roles inc.roles
  merge_files rig_names' role_names' (record base { rigs = rigs; roles = roles }) included

unfoldable pub merge_includes : TownManifest → List TownManifest → Result IncludeError TownManifest
merge_includes base included =
    merge_files (map (λ r. r.name) base.rigs) (map (λ r. r.name) base.roles) base included
