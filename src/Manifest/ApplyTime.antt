-- ===== src/Manifest/ApplyTime.antt =====
-- The checks of files before an apply (pkg/manifest/validate.go, ValidateApplyTimeFS). What `stat`
-- finds is a parameter.
pub mod Laws
use landman.Base.{
  String, Bool, not, none, some, List, [], foldl, Result, ok, err, ◌>>◌, ◌>>=◌, fail_if, each, ◌==◌,
  if◌then◌else◌,
}
use landman.Base.Map.{Map, lookup, insert}
use landman.Manifest.Types.{TownManifest, RoleSpec}

pub data PathError : Type 0 where
  surveyor_missing : String → PathError
  role_missing : String → String → PathError
  base_missing : String → String → String → PathError

module _ (expand : String → String) (stat : String → Bool) where
  unfoldable pub add_path : Map String → RoleSpec → Map String
  add_path paths role = insert role.name (expand role.identity.claude_md) paths

  -- A base without a known path is not checked.
  unfoldable pub check_base_path : Map String → RoleSpec → Result PathError (Unit {0})
  check_base_path paths role =
      if role.identity.extends == "" then ok tt else elim (lookup role.identity.extends paths) [
        | none ↦ ok tt
        | some base ↦
            if base == ""
            then ok tt
            else fail_if (not (stat base)) (base_missing role.name role.identity.extends base)
      ]

  unfoldable pub check_role_path : Map String → RoleSpec → Result PathError (Unit {0})
  check_role_path paths role = do
    fail_if (not (stat (expand role.identity.claude_md)))
        (role_missing role.name (expand role.identity.claude_md))
    check_base_path paths role

  unfoldable pub validate_apply_time_fs : TownManifest → Result PathError (Unit {0})
  unfolding add_path check_role_path check_base_path
  validate_apply_time_fs m = do
    if m.town.agents.surveyor_claude_md == ""
        then ok tt
        else fail_if (not (stat (expand m.town.agents.surveyor_claude_md)))
            (surveyor_missing (expand m.town.agents.surveyor_claude_md))
    each (check_role_path (foldl add_path [] m.roles)) m.roles
