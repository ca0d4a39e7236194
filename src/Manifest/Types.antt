-- ===== src/Manifest/Types.antt =====
-- The structures of town.toml (pkg/manifest/manifest.go). Go's `int` is an integer, a pointer is an
-- option, and a `float64` is its bit pattern.
use landman.Base.{String, Bool, true, false, Option, none, some, List, ◌&&◌}
use landman.Base.{ℤ}
use landman.Base.Float.{Float64}

-- A daily spend limit.
pub record CostPolicy : Type 0 where
  pub daily_budget_usd : Option Float64
  pub daily_budget_messages : Option ℤ
  pub daily_budget_tokens : Option ℤ
  pub warn_at_pct : Option ℤ

-- `p == nil`
abbrev pub is_nil {ℓ} : {A : Type ℓ} → Option A → Bool
is_nil none = true
is_nil (some a) = false

unfoldable pub is_empty : CostPolicy → Bool
is_empty c =
    is_nil c.daily_budget_usd
    && is_nil c.daily_budget_messages
    && is_nil c.daily_budget_tokens
    && is_nil c.warn_at_pct

pub record TownCostConfig : Type 0 where
  pub patrol_interval_seconds : ℤ

pub record TownAgents : Type 0 where
  pub surveyor : Bool
  pub surveyor_model : String
  pub surveyor_claude_md : String
  pub surveyor_convergence_threshold : Float64
  pub surveyor_retry_count : ℤ

pub record TownConfig : Type 0 where
  pub name : String
  pub home : String
  pub dolt_port : ℤ
  pub agents : TownAgents
  pub cost : TownCostConfig

pub record RigDefaults : Type 0 where
  pub mayor_model : String
  pub polecat_model : String
  pub max_polecats : ℤ
  pub cost : CostPolicy

pub record SecretsConfig : Type 0 where
  pub anthropic_api_key : String
  pub github_token : String
  pub file : String

-- The extension slot `[[rig.role]]`.
pub record RigRoleSlot : Type 0 where
  pub name : String

pub record AgentConfig : Type 0 where
  pub mayor : Bool
  pub witness : Bool
  pub refinery : Bool
  pub deacon : Bool
  pub max_polecats : ℤ
  pub mayor_model : String
  pub polecat_model : String
  pub mayor_claude_md : String
  pub roles : List String

pub record FormulaRef : Type 0 where
  pub name : String
  pub schedule : String

pub record RigSpec : Type 0 where
  pub name : String
  pub repo : String
  pub branch : String
  pub enabled : Bool
  pub agents : AgentConfig
  pub formulas : List FormulaRef
  pub cost : CostPolicy
  pub role : List RigRoleSlot

pub record RoleIdentity : Type 0 where
  pub claude_md : String
  pub extends : String
  pub model : String

pub record RoleTrigger : Type 0 where
  pub type : String
  pub schedule : String
  pub event : String

pub record RoleSupervision : Type 0 where
  pub parent : String
  pub reports_to : String

pub record RoleResources : Type 0 where
  pub max_instances : ℤ

pub record RoleSpec : Type 0 where
  pub name : String
  pub description : String
  pub scope : String
  pub lifespan : String
  pub identity : RoleIdentity
  pub trigger : RoleTrigger
  pub supervision : RoleSupervision
  pub resources : RoleResources

pub record TownManifest : Type 0 where
  pub version : String
  pub town : TownConfig
  pub defaults : RigDefaults
  pub secrets : SecretsConfig
  pub includes : List String
  pub rigs : List RigSpec
  pub roles : List RoleSpec
