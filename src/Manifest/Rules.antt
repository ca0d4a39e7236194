-- ===== src/Manifest/Rules.antt =====
-- The rules that a validated manifest keeps (pkg/manifest/validate.go, crossValidate), each said of
-- the manifest and not of the maps that the validation builds.
pub mod Checks
use landman.Base.{String, ◌≡◌, ◌≢◌, ◌⊎◌, Bool, true, false, some, List, pos, ◌≤ℤ◌, All, length}
use landman.Base.Map.{lookup, has}
use landman.Base.Float.{FloatOps}
use landman.Manifest.Types.{TownManifest, TownAgents, RigSpec, RoleSpec, CostPolicy, is_empty}
use landman.Manifest.Cost.{set_fields}
use landman.Manifest.Validate.{is_builtin}
use landman.Manifest.Validate.Names.{Unique, names_of_rigs, names_of_roles}
use landman.Manifest.Merge.{by_name}

-- A role that the manifest defines.
abbrev pub IsDefined : TownManifest → String → Type 0
IsDefined m name = has name (by_name m.roles) ≡ true

-- A role that something may report to: a built-in or a defined one.
abbrev pub IsKnown : TownManifest → String → Type 0
IsKnown m name = (is_builtin name ≡ true) ⊎ IsDefined m name

-- No limit at all, or one budget.
abbrev pub IsPolicy : CostPolicy → Type 0
IsPolicy c = (is_empty c ≡ true) ⊎ (length (set_fields c) ≡ 1)

pub record IsRole (m : TownManifest) (r : RoleSpec) : Type 0 where
  pub schedule : (r.trigger.type ≢ "schedule") ⊎ (r.trigger.schedule ≢ "")
  pub event : (r.trigger.type ≢ "event") ⊎ (r.trigger.event ≢ "")
  pub parent : IsKnown m r.supervision.parent
  pub reports_to : (r.supervision.reports_to ≡ "") ⊎ IsKnown m r.supervision.reports_to
  pub extends :
      (r.identity.extends ≡ "")
      ⊎ (IsDefined m r.identity.extends
          × (is_builtin r.identity.extends ≡ false)
          × (r.identity.extends ≢ r.name))

-- A role that a rig opts in to: a defined one of another scope than the town's.
abbrev pub IsRef : TownManifest → String → Type 0
IsRef m ref = (r : RoleSpec) × (lookup ref (by_name m.roles) ≡ some r) × (r.scope ≢ "town")

pub record IsRig (m : TownManifest) (rig : RigSpec) : Type 0 where
  pub witness : (rig.agents.witness ≡ false) ⊎ (rig.agents.mayor ≡ true)
  pub cost : IsPolicy rig.cost
  pub refs : All (IsRef m) rig.agents.roles

pub record IsSurveyor (ops : FloatOps) (a : TownAgents) : Type 0 where
  pub threshold :
      (ops.eq a.surveyor_convergence_threshold (ops.of_int (pos 0)) ≡ true)
      ⊎ ((ops.le a.surveyor_convergence_threshold (ops.of_int (pos 0)) ≡ false)
          × (ops.lt (ops.of_int (pos 1)) a.surveyor_convergence_threshold ≡ false))
  pub retry_count : (a.surveyor_retry_count ≡ pos 0) ⊎ (pos 1 ≤ℤ a.surveyor_retry_count)

-- A manifest by the rules of the schema's cross-field checks.
pub record IsValid (ops : FloatOps) (m : TownManifest) : Type 0 where
  pub surveyor : IsSurveyor ops m.town.agents
  pub defaults : IsPolicy m.defaults.cost
  pub rigs : All (IsRig m) m.rigs
  pub roles : All (IsRole m) m.roles
  pub custom : All (λ r. is_builtin r.name ≡ false) m.roles
  pub rig_names : Unique (names_of_rigs m.rigs)
  pub role_names : Unique (names_of_roles m.roles)
