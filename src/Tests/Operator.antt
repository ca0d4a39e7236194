-- ===== src/Tests/Operator.antt =====
-- Sample resources and servers for the operator.
pub mod Admission
pub mod Rigs
pub mod Agents
pub mod Roles
pub mod Towns
pub mod Instances
use landman.Base.{
  String, Bool, true, false, not, Option, none, some, List, [], ◌∷◌, ℤ, pos, Result, ok, err,
  contains, select, ◌==◌,
}
use landman.Operator.Types.{
  ObjectMeta, NamespacedRef, GasTown, Rig, RigSpec, AgentRole, DoltInstance, Condition, found,
}
use landman.Operator.Tables.{Tables}
use landman.Operator.Dolt.{Engine}
use landman.Operator.Machinery.{Machinery}
use landman.Operator.Webhooks.{Server}

abbrev pub meta : String → Bool → List String → ObjectMeta
meta name deleting finalizers = record {
  name = name;
  namespace = "gt";
  generation = pos 1;
  deleting = deleting;
  finalizers = finalizers;
}

abbrev pub dolt_ref : NamespacedRef
dolt_ref = record { name = "db"; namespace = "gt" }

abbrev pub ready : Condition
ready = record {
  condition_type = "Ready";
  status = "True";
  observed_generation = pos 1;
  reason = "PodReady";
  message = "";
}

abbrev pub dolt : String → String → Bool → List String → DoltInstance
dolt version current deleting finalizers = record {
  meta = meta "db" deleting finalizers;
  spec = record {
    version = version;
    replicas = pos 1;
    storage = record { storage_class_name = "fast"; size = pos 10 };
    service = record { service_type = ""; port = pos 0 };
  };
  status = record {
    conditions = ready ∷ [];
    observed_generation = pos 1;
    current_version = current;
    endpoint = "db.gt:3306";
  };
}

abbrev pub town : GasTown
town = record {
  meta = meta "hq" false ("gastown.io/town-cleanup" ∷ []);
  spec = record {
    version = "1";
    home = "/gt";
    dolt_ref = dolt_ref;
    defaults = record { mayor_model = "opus"; polecat_model = ""; max_polecats = pos 5 };
    agents = record {
      surveyor = true;
      surveyor_claude_md_ref = some (record { name = "surveyor-md" });
      surveyor_image = "";
      surveyor_resources = none;
    };
    secrets_ref = none;
  };
  status = record { conditions = []; dolt_commit = ""; observed_generation = pos 0 };
}

abbrev pub rig : Bool → List String → Rig
rig deleting finalizers = record {
  meta = meta "alpha" deleting finalizers;
  spec = record {
    town_ref = "hq";
    repo = "/src/alpha";
    branch = "main";
    enabled = true;
    agents = record {
      mayor = true;
      witness = false;
      refinery = true;
      deacon = false;
      mayor_model = "";
      polecat_model = "haiku";
      max_polecats = pos 0;
      mayor_claude_md_ref = none;
    };
    formulas = record { name = "nightly"; schedule = "0 3 * * *" } ∷ [];
    roles = "scout" ∷ [];
  };
  status = record {
    conditions = [];
    dolt_commit = "";
    observed_generation = pos 0;
    running_polecats = pos 0;
    rig_health = "";
  };
}

abbrev pub role : Bool → AgentRole
role deleting = record {
  meta = meta "scout" deleting ("gastown.io/role-cleanup" ∷ []);
  spec = record {
    town_ref = "hq";
    scope = "rig";
    identity = record { claude_md_ref = record { name = "scout-md" } };
    trigger = record { trigger_type = "schedule"; schedule = "0 * * * *"; event = "" };
    supervision = record { parent = "mayor"; reports_to = "" };
    resources = record { max_instances = pos 0 };
  };
  status = record {
    conditions = [];
    dolt_commit = "";
    observed_generation = pos 0;
    active_instances = pos 0;
    last_seen_at = none;
  };
}

abbrev pub empty : Tables
empty = record {
  versions = [];
  lock = none;
  rigs = [];
  agents = [];
  formulas = [];
  rig_roles = [];
  roles = [];
  towns = [];
}

abbrev pub engine : Engine
engine = record {
  quote = λ s. s;
  duration = λ d. "";
  now = pos 100;
  get_gas_town = λ name. found town;
  get_instance = λ ref. found (dolt "v1.2.3" "v1.2.3" false []);
  sql_open = λ dsn. none;
  ping = λ endpoint. none;
  read_lock = none;
  begin = none;
  exec = λ s t. none;
  commit = λ t. none;
  head = λ t. ok "abc";
}

abbrev pub machinery : Machinery
machinery = record {
  set_status_condition = λ cs c. c ∷ select (λ d. not (d.condition_type == c.condition_type)) cs;
  remove_status_condition = λ cs t. select (λ d. not (d.condition_type == t)) cs;
  contains_finalizer = contains;
  add_finalizer = λ fs f. f ∷ fs;
  remove_finalizer = λ fs f. select (λ g. not (g == f)) fs;
}
