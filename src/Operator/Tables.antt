-- ===== src/Operator/Tables.antt =====
-- The tables that the operator writes, and its statements on them (the SQL texts of
-- pkg/k8s/operator/controllers). Constraints are not modelled here: a statement that violates one is
-- a statement that fails, and failures come from the engine.
pub mod Laws
use landman.Base.{
  String, Bool, true, false, not, Option, none, some, List, [], ◌∷◌, ◌++◌, map, foldl, ℕ, ℤ, select,
  ◌==◌, ◌&&◌, if◌then◌else◌,
}
use landman.TownCtl.Topology.{FormulaRow}
use landman.TownCtl.Lock.{LockRow}

pub record VersionRow : Type 0 where
  pub table : String
  pub version : ℕ
  pub written_by : String

pub record RigRow : Type 0 where
  pub name : String
  pub repo : String
  pub branch : String
  pub enabled : Bool

pub record AgentRow : Type 0 where
  pub rig_name : String
  pub role : String
  pub enabled : Bool
  pub model : Option String
  pub max_polecats : Option ℤ
  pub claude_md_path : Option String

pub record RigRoleRow : Type 0 where
  pub rig_name : String
  pub role_name : String
  pub enabled : Bool

pub record RoleRow : Type 0 where
  pub name : String
  pub scope : String
  pub claude_md_path : String
  pub trigger_type : String
  pub trigger_schedule : Option String
  pub trigger_event : Option String
  pub parent_role : String
  pub reports_to : String
  pub max_instances : ℤ

pub record TownRow : Type 0 where
  pub name : String
  pub home : String
  pub mayor_model : String
  pub polecat_model : String
  pub max_polecats : ℤ

pub record Tables : Type 0 where
  pub versions : List VersionRow
  pub lock : Option LockRow
  pub rigs : List RigRow
  pub agents : List AgentRow
  pub formulas : List FormulaRow
  pub rig_roles : List RigRoleRow
  pub roles : List RoleRow
  pub towns : List TownRow

-- `tableVersion`
pub record TableVersion : Type 0 where
  pub table : String
  pub version : ℕ

pub data Statement : Type 0 where
  upsert_version : TableVersion → Statement
  upsert_lock : String → Statement
  upsert_rig : RigRow → Statement
  disable_rig : String → Statement
  delete_agents : String → Statement
  insert_agent : AgentRow → Statement
  delete_formulas : String → Statement
  insert_formula : FormulaRow → Statement
  delete_rig_roles : String → Statement
  insert_rig_role : RigRoleRow → Statement
  delete_role_uses : String → Statement
  upsert_role : RoleRow → Statement
  delete_role : String → Statement
  upsert_town : TownRow → Statement
  delete_town : String → Statement

module _ {A : Type 0} (key : A → String) where
  -- `INSERT ... ON DUPLICATE KEY UPDATE` of every other column
  unfoldable pub upsert : A → List A → List A
  upsert a [] = a ∷ []
  upsert a (x ∷ xs) = let rest = upsert a xs in if key x == key a then a ∷ xs else x ∷ rest

  -- `SELECT ... WHERE key = ?`
  abbrev pub rows_of : String → List A → List A
  rows_of k = select (λ x. key x == k)

  -- `DELETE ... WHERE key = ?`
  abbrev pub delete_of : String → List A → List A
  delete_of k = select (λ x. not (key x == k))

-- `UPDATE desired_rigs SET enabled = false WHERE name = ?`
unfoldable pub disable : String → List RigRow → List RigRow
disable name [] = []
disable name (r ∷ rigs) =
    let rest = disable name rigs in
    (if r.name == name then record r { enabled = false } else r) ∷ rest

-- One statement, at the time that `NOW()` gives.
unfoldable pub run : ℤ → Statement → Tables → Tables
unfolding upsert disable
run now (upsert_version v) t = record t {
  versions =
      upsert (λ r. r.table)
        (record { table = v.table; version = v.version; written_by = "gastown-operator" })
        t.versions;
}
run now (upsert_lock holder) t = record t {
  lock = some (record { holder = holder; acquired_at = now });
}
run now (upsert_rig r) t = record t { rigs = upsert (λ x. x.name) r t.rigs }
run now (disable_rig name) t = record t { rigs = disable name t.rigs }
run now (delete_agents rig) t = record t { agents = delete_of (λ x. x.rig_name) rig t.agents }
run now (insert_agent r) t = record t { agents = t.agents ++ (r ∷ []) }
run now (delete_formulas rig) t = record t { formulas = delete_of (λ x. x.rig_name) rig t.formulas }
run now (insert_formula r) t = record t { formulas = t.formulas ++ (r ∷ []) }
run now (delete_rig_roles rig) t = record t {
  rig_roles = delete_of (λ x. x.rig_name) rig t.rig_roles;
}
run now (insert_rig_role r) t = record t { rig_roles = t.rig_roles ++ (r ∷ []) }
run now (delete_role_uses role) t = record t {
  rig_roles = delete_of (λ x. x.role_name) role t.rig_roles;
}
run now (upsert_role r) t = record t { roles = upsert (λ x. x.name) r t.roles }
run now (delete_role name) t = record t { roles = delete_of (λ x. x.name) name t.roles }
run now (upsert_town r) t = record t { towns = upsert (λ x. x.name) r t.towns }
run now (delete_town name) t = record t { towns = delete_of (λ x. x.name) name t.towns }

-- Statements in turn.
unfoldable pub run_all : ℤ → List Statement → Tables → Tables
unfolding run
run_all now [] t = t
run_all now (s ∷ ss) t = run_all now ss (run now s t)
