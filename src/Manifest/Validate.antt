-- ===== src/Manifest/Validate.antt =====
-- The cross-field rules of a manifest (pkg/manifest/validate.go, crossValidate), in the source's order.
-- An error is a value that names the rule and what the message prints.
pub mod Names
use landman.Base.{String, ◌<>◌, Bool, not, ◌&&◌, ◌||◌, List, [], ◌∷◌, foldl, ℕ, ◌+◌}
use landman.Base.{Result, ok, err, ◌>>=◌, ◌>>◌, fail_if, each, length}
use landman.Base.{◌==◌, if◌then◌else◌, contains, ℤ, pos, ltb_ℤ, eqb_ℤ}
use landman.Base.Float.{Float64, FloatOps}
use landman.Base.Map.{Map, insert, get_or}
use landman.Manifest.Types.{
  TownManifest, TownAgents, RigDefaults, RigSpec, RoleSpec, RoleTrigger, is_empty,
}
use landman.Manifest.Cost.{CostError, validate_cost_policy}
use landman.Manifest.Extends.{ExtendsError, detect_extends_cycle}

pub data ManifestError : Type 0 where
  bad_threshold : Float64 → ManifestError
  bad_retry_count : ℤ → ManifestError
  duplicate_rig : ℕ → String → ManifestError
  witness_without_mayor : String → ManifestError
  bad_cost : CostError → ManifestError
  shadows_builtin : String → ManifestError
  duplicate_role : ℕ → String → ManifestError
  schedule_missing : String → ManifestError
  event_missing : String → ManifestError
  unknown_parent : String → String → ManifestError
  unknown_reports_to : String → String → ManifestError
  extends_builtin : String → String → ManifestError
  extends_unknown : String → String → ManifestError
  extends_itself : String → ManifestError
  bad_chain : ExtendsError → ManifestError
  unknown_rig_role : String → String → ManifestError
  town_scoped : String → String → ManifestError

abbrev pub Check : Type 0
Check = Result ManifestError (Unit {0})

abbrev pub lift {ℓ} : {E : Type ℓ} → (E → ManifestError) → Result E (Unit {0}) → Check
lift f (ok u) = ok u
lift f (err e) = err (f e)

-- The names that the `gt` binary reserves.
abbrev pub builtin_roles : List String
builtin_roles = "mayor" ∷ "polecat" ∷ "witness" ∷ "refinery" ∷ "deacon" ∷ "dog" ∷ "crew" ∷ []

-- `_, builtin := builtinRoles[name]`
unfoldable pub is_builtin : String → Bool
is_builtin name = contains builtin_roles name

unfoldable pub check_surveyor : FloatOps → TownAgents → Check
check_surveyor ops a = do
  fail_if
      (not (ops.eq ct (ops.of_int (pos 0)))
        && (ops.le ct (ops.of_int (pos 0)) || ops.lt (ops.of_int (pos 1)) ct))
      (bad_threshold ct)
  fail_if (not (eqb_ℤ rc (pos 0)) && ltb_ℤ rc (pos 1)) (bad_retry_count rc)
  where
    open a use {surveyor_convergence_threshold as ct, surveyor_retry_count as rc}

-- The loop over the rigs, with its index and the names seen so far.
unfoldable pub check_rigs : ℕ → List String → List RigSpec → Check
check_rigs i seen [] = ok tt
check_rigs i seen (rig ∷ rigs) = do
  fail_if (contains seen rig.name) (duplicate_rig i rig.name)
  fail_if (rig.agents.witness && not rig.agents.mayor) (witness_without_mayor rig.name)
  check_rigs (i + 1) (rig.name ∷ seen) rigs

unfoldable pub check_rig_cost : RigSpec → Check
check_rig_cost rig =
    if is_empty rig.cost
    then ok tt
    else lift bad_cost (validate_cost_policy rig.cost ("[rig." <> rig.name <> ".cost]"))

unfoldable pub check_costs : RigDefaults → List RigSpec → Check
unfolding check_rig_cost
check_costs defaults rigs = do
  if is_empty defaults.cost
      then ok tt
      else lift bad_cost (validate_cost_policy defaults.cost "[defaults.cost]")
  each check_rig_cost rigs

-- Pass 1: the names of the custom roles, and the scope of each.
unfoldable pub collect_roles :
    ℕ → List String → Map String → List RoleSpec → Result ManifestError (List String × Map String)
collect_roles i names scopes [] = ok (names, scopes)
collect_roles i names scopes (role ∷ roles) = do
  fail_if (is_builtin role.name) (shadows_builtin role.name)
  fail_if (contains names role.name) (duplicate_role i role.name)
  collect_roles (i + 1) (role.name ∷ names) (insert role.name role.scope scopes) roles

unfoldable pub add_target : Map String → RoleSpec → Map String
add_target targets role =
    if role.identity.extends == "" then targets else insert role.name role.identity.extends targets

unfoldable pub extends_targets : List RoleSpec → Map String
unfolding add_target
extends_targets = foldl add_target []

unfoldable pub check_trigger : String → RoleTrigger → Check
check_trigger name t =
    if t.type == "schedule"
    then fail_if (t.schedule == "") (schedule_missing name)
    else if t.type == "event"
    then fail_if (t.event == "") (event_missing name)
    else ok tt

-- `allKnownRoles`
unfoldable pub is_known : List String → String → Bool
is_known names role = is_builtin role || contains names role

unfoldable pub check_extends : List String → Map String → ℕ → RoleSpec → Check
check_extends names targets depth role = if role.identity.extends == "" then ok tt else do
  fail_if (is_builtin role.identity.extends) (extends_builtin role.name role.identity.extends)
  fail_if (not (contains names role.identity.extends))
      (extends_unknown role.name role.identity.extends)
  fail_if (role.identity.extends == role.name) (extends_itself role.name)
  lift bad_chain (detect_extends_cycle role.name targets depth)

-- Pass 2: the checks of one role that need all names.
unfoldable pub check_role : List String → Map String → ℕ → RoleSpec → Check
check_role names targets depth role = do
  check_trigger role.name role.trigger
  fail_if (not (is_known names role.supervision.parent))
      (unknown_parent role.name role.supervision.parent)
  fail_if
      (not (role.supervision.reports_to == "") && not (is_known names role.supervision.reports_to))
      (unknown_reports_to role.name role.supervision.reports_to)
  check_extends names targets depth role

unfoldable pub check_ref : List String → Map String → String → String → Check
check_ref names scopes rig ref = do
  fail_if (not (contains names ref)) (unknown_rig_role rig ref)
  fail_if (get_or "" ref scopes == "town") (town_scoped rig ref)

unfoldable pub check_refs : List String → Map String → RigSpec → Check
check_refs names scopes rig = each (check_ref names scopes rig.name) rig.agents.roles

-- The checks that follow pass 1.
unfoldable pub check_roles : TownManifest → List String × Map String → Check
check_roles m (names, scopes) = do
  each (check_role names (extends_targets m.roles) (length m.roles)) m.roles
  each (check_refs names scopes) m.rigs

unfoldable pub cross_validate : FloatOps → TownManifest → Check
cross_validate ops m = do
  check_surveyor ops m.town.agents
  check_rigs 0 [] m.rigs
  check_costs m.defaults m.rigs
  collect_roles 0 [] [] m.roles >>= check_roles m
