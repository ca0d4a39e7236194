-- ===== src/TownCtl/Topology.antt =====
-- The rows and statements of `desired_rigs`, `desired_agent_config` and `desired_formulas`
-- (pkg/townctl/topology.go). `os.ExpandEnv` and `BinaryVersion` are parameters.
use landman.Base.{String, ◌<>◌, Bool, true, List, [], ◌∷◌, ◌++◌, map}
use landman.Base.{◌==◌, if◌then◌else◌, length, ℤ, pos, ltb_ℤ, eqb_ℤ}
use landman.Manifest.Types.{TownManifest, RigSpec, RigDefaults}
use landman.TownCtl.Stmt.{Stmt, Value, str, number, null, flag, placeholders, pair_placeholders}
use landman.TownCtl.Version.{topology_versions_upsert}

-- `if s == "" { s = fallback }`
abbrev pub or_text : String → String → String
or_text s fallback = if s == "" then fallback else s

-- `if n == 0 { n = fallback }`
abbrev pub or_number : ℤ → ℤ → ℤ
or_number n fallback = if eqb_ℤ n (pos 0) then fallback else n

-- An empty string is stored as NULL.
abbrev pub text_or_null : String → Value
text_or_null s = if s == "" then null else str s

pub record AgentConfigRow : Type 0 where
  pub rig_name : String
  pub role : String
  pub enabled : Bool
  pub model : String
  pub max_polecats : ℤ
  pub claude_md_path : String

pub record FormulaRow : Type 0 where
  pub rig_name : String
  pub name : String
  pub schedule : String

agent_row : RigSpec → String → Bool → String → ℤ → String → AgentConfigRow
agent_row rig role enabled model max md = record {
  rig_name = rig.name;
  role = role;
  enabled = enabled;
  model = model;
  max_polecats = max;
  claude_md_path = md;
}

-- The five rows of one rig, with the defaults of the manifest resolved.
unfoldable pub rig_agent_rows : (String → String) → RigDefaults → RigSpec → List AgentConfigRow
unfolding agent_row
rig_agent_rows expand d rig =
    agent_row rig "mayor" a.mayor (or_text a.mayor_model (or_text d.mayor_model "claude-opus-4-6"))
      (pos 0) (expand a.mayor_claude_md)
    ∷ agent_row rig "witness" a.witness "" (pos 0) ""
    ∷ agent_row rig "refinery" a.refinery "" (pos 0) ""
    ∷ agent_row rig "deacon" a.deacon "" (pos 0) ""
    ∷ agent_row rig "polecat" true
        (or_text a.polecat_model (or_text d.polecat_model "claude-sonnet-4-6"))
        (or_number a.max_polecats (or_number d.max_polecats (pos 20))) ""
    ∷ []
  where
    open rig use {agents as a}

unfoldable pub agent_rows : (String → String) → RigDefaults → List RigSpec → List AgentConfigRow
agent_rows expand d [] = []
agent_rows expand d (rig ∷ rigs) = rig_agent_rows expand d rig ++ agent_rows expand d rigs

unfoldable pub resolve_agent_config_rows : (String → String) → TownManifest → List AgentConfigRow
resolve_agent_config_rows expand m = agent_rows expand m.defaults m.rigs

formula_rows : List RigSpec → List FormulaRow
formula_rows [] = []
formula_rows (rig ∷ rigs) =
    map (λ f. record { rig_name = rig.name; name = f.name; schedule = f.schedule }) rig.formulas
    ++ formula_rows rigs

unfoldable pub resolve_formula_rows : TownManifest → List FormulaRow
unfolding formula_rows
resolve_formula_rows m = formula_rows m.rigs

unfoldable pub upsert_rig_row : RigSpec → Stmt
upsert_rig_row rig = record {
  query =
      "INSERT INTO desired_rigs (name, repo, branch, enabled) VALUES (?, ?, ?, ?) ON DUPLICATE KEY UPDATE repo = VALUES(repo), branch = VALUES(branch), enabled = VALUES(enabled);";
  args = str rig.name ∷ str rig.repo ∷ str rig.branch ∷ flag rig.enabled ∷ [];
}

unfoldable pub delete_removed_rigs : List String → Stmt
delete_removed_rigs [] = record { query = "DELETE FROM desired_rigs;"; args = [] }
delete_removed_rigs (n ∷ names) = record {
  query =
      "DELETE FROM desired_rigs WHERE name NOT IN (" <> (placeholders (length (n ∷ names)) <> ");");
  args = map str (n ∷ names);
}

unfoldable pub upsert_agent_config_row : AgentConfigRow → Stmt
upsert_agent_config_row r = record {
  query =
      "INSERT INTO desired_agent_config (rig_name, role, enabled, model, max_polecats, claude_md_path) VALUES (?, ?, ?, ?, ?, ?) ON DUPLICATE KEY UPDATE enabled = VALUES(enabled), model = VALUES(model), max_polecats = VALUES(max_polecats), claude_md_path = VALUES(claude_md_path);";
  args =
      str r.rig_name
      ∷ str r.role
      ∷ flag r.enabled
      ∷ text_or_null r.model
      ∷ (if ltb_ℤ (pos 0) r.max_polecats then number r.max_polecats else null)
      ∷ text_or_null r.claude_md_path
      ∷ [];
}

-- The arguments of a list of pairs.
abbrev pub pair_args : List (String × String) → List Value
pair_args [] = []
pair_args ((a, b) ∷ rest) = str a ∷ str b ∷ pair_args rest

unfoldable pub delete_removed_agent_config : List (String × String) → List String → Stmt
delete_removed_agent_config [] rigs = record {
  query = "DELETE FROM desired_agent_config WHERE 1=0;";
  args = [];
}
delete_removed_agent_config (k ∷ keys) [] = record {
  query = "DELETE FROM desired_agent_config WHERE 1=0;";
  args = [];
}
delete_removed_agent_config (k ∷ keys) (n ∷ rigs) = record {
  query =
      "DELETE FROM desired_agent_config WHERE rig_name IN ("
      <> (placeholders (length (n ∷ rigs))
          <> (") AND (rig_name, role) NOT IN ("
              <> (pair_placeholders (length (k ∷ keys)) <> ");")));
  args = map str (n ∷ rigs) ++ pair_args (k ∷ keys);
}

unfoldable pub upsert_formula_row : FormulaRow → Stmt
upsert_formula_row r = record {
  query =
      "INSERT INTO desired_formulas (rig_name, name, schedule) VALUES (?, ?, ?) ON DUPLICATE KEY UPDATE schedule = VALUES(schedule);";
  args = str r.rig_name ∷ str r.name ∷ str r.schedule ∷ [];
}

unfoldable pub delete_removed_formulas : List (String × String) → List String → Stmt
delete_removed_formulas keys [] = record {
  query = "DELETE FROM desired_formulas WHERE 1=0;";
  args = [];
}
delete_removed_formulas [] (n ∷ rigs) = record {
  query =
      "DELETE FROM desired_formulas WHERE rig_name IN ("
      <> (placeholders (length (n ∷ rigs)) <> ");");
  args = map str (n ∷ rigs);
}
delete_removed_formulas (k ∷ keys) (n ∷ rigs) = record {
  query =
      "DELETE FROM desired_formulas WHERE rig_name IN ("
      <> (placeholders (length (n ∷ rigs))
          <> (") AND (rig_name, name) NOT IN ("
              <> (pair_placeholders (length (k ∷ keys)) <> ");")));
  args = map str (n ∷ rigs) ++ pair_args (k ∷ keys);
}

abbrev pub agent_key : AgentConfigRow → String × String
agent_key r = (r.rig_name, r.role)

abbrev pub formula_key : FormulaRow → String × String
formula_key r = (r.rig_name, r.name)

abbrev pub rig_names : TownManifest → List String
rig_names m = map (λ r. r.name) m.rigs

unfoldable pub topology_apply_sql : (String → String) → String → TownManifest → List Stmt
topology_apply_sql expand binary m =
    let agents = resolve_agent_config_rows expand m in
    let formulas = resolve_formula_rows m in
    topology_versions_upsert binary (
      record { table = "desired_rigs"; version = 1 }
      ∷ record { table = "desired_agent_config"; version = 1 }
      ∷ record { table = "desired_formulas"; version = 1 }
      ∷ [])
    ∷ (map upsert_rig_row m.rigs
        ++ (delete_removed_rigs (rig_names m)
            ∷ (map upsert_agent_config_row agents
                ++ (delete_removed_agent_config (map agent_key agents) (rig_names m)
                    ∷ (map upsert_formula_row formulas
                        ++ (delete_removed_formulas (map formula_key formulas) (rig_names m)
                            ∷ []))))))
