-- ===== src/Operator/Types.antt =====
-- The custom resources (pkg/k8s/operator/v1alpha1/types.go). Of `metav1.ObjectMeta` the fields that
-- the operator reads: a deletion timestamp that is set is `deleting`. A quantity is its value.
use landman.Base.{String, Bool, true, false, Option, List, ℤ}

pub record ObjectMeta : Type 0 where
  pub name : String
  pub namespace : String
  pub generation : ℤ
  pub deleting : Bool
  pub finalizers : List String

pub record Condition : Type 0 where
  pub condition_type : String
  pub status : String
  pub observed_generation : ℤ
  pub reason : String
  pub message : String

pub record LocalRef : Type 0 where
  pub name : String

pub record NamespacedRef : Type 0 where
  pub name : String
  pub namespace : String

pub record GasTownDefaults : Type 0 where
  pub mayor_model : String
  pub polecat_model : String
  pub max_polecats : ℤ

pub record TownAgents : Type 0 where
  pub surveyor : Bool
  pub surveyor_claude_md_ref : Option LocalRef
  pub surveyor_image : String
  pub surveyor_resources : Option String

pub record GasTownSpec : Type 0 where
  pub version : String
  pub home : String
  pub dolt_ref : NamespacedRef
  pub defaults : GasTownDefaults
  pub agents : TownAgents
  pub secrets_ref : Option LocalRef

pub record GasTownStatus : Type 0 where
  pub conditions : List Condition
  pub dolt_commit : String
  pub observed_generation : ℤ

pub record GasTown : Type 0 where
  pub meta : ObjectMeta
  pub spec : GasTownSpec
  pub status : GasTownStatus

pub record RigAgents : Type 0 where
  pub mayor : Bool
  pub witness : Bool
  pub refinery : Bool
  pub deacon : Bool
  pub mayor_model : String
  pub polecat_model : String
  pub max_polecats : ℤ
  pub mayor_claude_md_ref : Option LocalRef

pub record RigFormula : Type 0 where
  pub name : String
  pub schedule : String

pub record RigSpec : Type 0 where
  pub town_ref : String
  pub repo : String
  pub branch : String
  pub enabled : Bool
  pub agents : RigAgents
  pub formulas : List RigFormula
  pub roles : List String

pub record RigStatus : Type 0 where
  pub conditions : List Condition
  pub dolt_commit : String
  pub observed_generation : ℤ
  pub running_polecats : ℤ
  pub rig_health : String

pub record Rig : Type 0 where
  pub meta : ObjectMeta
  pub spec : RigSpec
  pub status : RigStatus

pub record AgentRoleTrigger : Type 0 where
  pub trigger_type : String
  pub schedule : String
  pub event : String

pub record AgentRoleSupervision : Type 0 where
  pub parent : String
  pub reports_to : String

pub record AgentRoleResources : Type 0 where
  pub max_instances : ℤ

pub record AgentRoleIdentity : Type 0 where
  pub claude_md_ref : LocalRef

pub record AgentRoleSpec : Type 0 where
  pub town_ref : String
  pub scope : String
  pub identity : AgentRoleIdentity
  pub trigger : AgentRoleTrigger
  pub supervision : AgentRoleSupervision
  pub resources : AgentRoleResources

pub record AgentRoleStatus : Type 0 where
  pub conditions : List Condition
  pub dolt_commit : String
  pub observed_generation : ℤ
  pub active_instances : ℤ
  pub last_seen_at : Option ℤ

pub record AgentRole : Type 0 where
  pub meta : ObjectMeta
  pub spec : AgentRoleSpec
  pub status : AgentRoleStatus

pub record DoltStorage : Type 0 where
  pub storage_class_name : String
  pub size : ℤ

pub record DoltService : Type 0 where
  pub service_type : String
  pub port : ℤ

pub record DoltInstanceSpec : Type 0 where
  pub version : String
  pub replicas : ℤ
  pub storage : DoltStorage
  pub service : DoltService

pub record DoltInstanceStatus : Type 0 where
  pub conditions : List Condition
  pub observed_generation : ℤ
  pub current_version : String
  pub endpoint : String

pub record DoltInstance : Type 0 where
  pub meta : ObjectMeta
  pub spec : DoltInstanceSpec
  pub status : DoltInstanceStatus

-- The answer to a read: the object, that there is none, or another error.
pub data Fetch {ℓ} (A : Type ℓ) : Type ℓ where
  found : A → Fetch A
  not_found : String → Fetch A
  failed : String → Fetch A

abbrev pub is_found {ℓ} : {A : Type ℓ} → Fetch A → Bool
is_found (found a) = true
is_found (not_found e) = false
is_found (failed e) = false
