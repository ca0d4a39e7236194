-- ===== src/Operator/Instance.antt =====
-- The DoltInstance controller (pkg/k8s/operator/controllers/doltinstance_controller.go): the objects
-- it makes. Names are texts, an object is found by its name, and of `strings.ToLower`, `regexp` and
-- the embedded files the results are parameters.
pub mod Steps
pub mod Reconcile
pub mod Laws
pub mod Claims
use landman.Base.{
  String, ◌<>◌, Bool, true, false, ◌&&◌, not, Option, none, some, List, [], ◌∷◌, ℤ, pos, ◌==◌,
  if◌then◌else◌, eqb_ℤ,
}
use landman.Base.Map.{Map}
use landman.Base.Decimal.{show_ℤ}
use landman.TownCtl.Topology.{or_text, or_number}
use landman.Operator.Types.{DoltInstance, Fetch}
use landman.Operator.Dolt.{condition_true}
use landman.Operator.Semver.{trim_v}
use landman.Operator.Machinery.{Machinery}

-- A probe of a TCP port, in seconds.
pub record Probe : Type 0 where
  pub port : ℤ
  pub initial_delay : ℤ
  pub period : ℤ

-- The container that runs the server, less its image.
pub record DoltContainer : Type 0 where
  pub name : String
  pub command : List String
  pub port : ℤ
  -- name and path
  pub mount : String × String
  pub readiness : Probe
  pub liveness : Probe

-- The template of a volume claim.
pub record ClaimTemplate : Type 0 where
  pub name : String
  pub storage_class : Option String
  pub access_mode : String
  pub size : ℤ

pub record StatefulSet : Type 0 where
  -- on the set, in its selector and on its pods
  pub labels : List (String × String)
  -- of the containers of the pod, the server's first
  pub images : List String
  pub server : DoltContainer
  pub replicas : ℤ
  pub ready_replicas : ℤ
  pub service_name : String
  pub claim : ClaimTemplate

pub record Job : Type 0 where
  pub container_name : String
  pub image : String
  pub command : List String
  pub env : List (String × String)
  -- the ConfigMap that is mounted at /sql
  pub config_map : String
  pub backoff : ℤ
  pub ttl_seconds : ℤ
  pub restart_policy : String
  -- type and status of each condition, and the attempts that failed
  pub conditions : List (String × String)
  pub failed : ℤ

pub record Service : Type 0 where
  pub cluster_ip : String
  pub service_type : String
  pub selector : List (String × String)
  pub port : ℤ
  -- 0 where it is the port
  pub target_port : ℤ
  pub protocol : String

-- The objects in the instance's namespace. A volume claim is a name with its labels.
pub record Cluster : Type 0 where
  pub stateful_set : Option StatefulSet
  pub config_maps : Map String
  pub services : Map Service
  pub jobs : Map Job
  pub claims : List (String × List (String × String))

-- The calls of the API server, each of which may fail.
pub data Call : Type 0 where
  update status_update list_claims : Call
  get_stateful_set create_stateful_set patch_stateful_set : Call
  check_stateful_set get_for_image patch_image : Call
  write_config_map write_service get_job create_job delete_claim : String → Call

pub record Api : Type 0 where
  pub machinery : Machinery
  pub fails : Call → Option String
  pub quote : String → String
  -- `strings.ToLower`, and `nonAlphanumRE.ReplaceAllString(v, "-")`
  pub to_lower : String → String
  pub dashed : String → String
  -- the embedded init script, and the embedded migrations by their file's name
  pub init_sql : String
  pub migration : String → Option String
  -- `resource.MustParse("10Gi")`
  pub ten_gi : ℤ

abbrev pub ddl_config_map_name : String → String
ddl_config_map_name name = name <> "-ddl-v1"

abbrev pub ddl_init_job_name : String → String
ddl_init_job_name name = name <> "-ddlinit-v1"

abbrev pub headless_name : String → String
headless_name name = name <> "-headless"

unfoldable pub sanitize_ver : Api → String → String
unfolding trim_v
sanitize_ver api v = api.dashed (api.to_lower (trim_v v))

unfoldable pub migrate_job_name : Api → String → String → String → String
unfolding sanitize_ver
migrate_job_name api name from to =
    name <> ("-migrate-" <> (sanitize_ver api from <> ("-to-" <> sanitize_ver api to)))

abbrev pub migrate_config_map_name : Api → String → String → String → String
migrate_config_map_name api name from to =
    name <> ("-migrate-" <> (sanitize_ver api from <> ("-to-" <> (sanitize_ver api to <> "-sql"))))

abbrev pub dolt_labels : String → List (String × String)
dolt_labels name = ("app.kubernetes.io/name", "dolt") ∷ ("gastown.io/doltinstance", name) ∷ []

abbrev dolt_svc_port : ℤ
dolt_svc_port = pos 3306

abbrev pub svc_port : DoltInstance → ℤ
svc_port di = or_number di.spec.service.port dolt_svc_port

abbrev pub image_of : String → String
image_of version = "dolthub/dolt:" <> version

-- `doltImage`
unfoldable pub dolt_image : DoltInstance → String
unfolding condition_true
dolt_image di =
    if condition_true di.status.conditions "VersionMigrationRequired"
      && not (di.status.current_version == "")
    then image_of di.status.current_version
    else image_of di.spec.version

abbrev pub replicas_of : DoltInstance → ℤ
replicas_of di = or_number di.spec.replicas (pos 1)

abbrev dolt_server : DoltContainer
dolt_server = record {
  name = "dolt";
  command =
      "dolt" ∷ "sql-server" ∷ "--host" ∷ "0.0.0.0" ∷ "--port" ∷ "3306" ∷ "--user" ∷ "root"
      ∷ "--data-dir" ∷ "/var/lib/dolt" ∷ [];
  port = dolt_svc_port;
  mount = ("data", "/var/lib/dolt");
  readiness = record { port = dolt_svc_port; initial_delay = pos 10; period = pos 5 };
  liveness = record { port = dolt_svc_port; initial_delay = pos 30; period = pos 10 };
}

-- `storageClass` and `storageSize` of `reconcileStatefulSet`
abbrev claim_template : Api → DoltInstance → ClaimTemplate
claim_template api di = record {
  name = "data";
  storage_class =
      if di.spec.storage.storage_class_name == ""
      then none
      else some di.spec.storage.storage_class_name;
  access_mode = "ReadWriteOnce";
  size = or_number di.spec.storage.size api.ten_gi;
}

-- `buildStatefulSet`
unfoldable pub build_stateful_set : Api → DoltInstance → StatefulSet
unfolding dolt_image
build_stateful_set api di = record {
  labels = dolt_labels di.meta.name;
  images = dolt_image di ∷ [];
  server = dolt_server;
  replicas = replicas_of di;
  ready_replicas = pos 0;
  service_name = headless_name di.meta.name;
  claim = claim_template api di;
}

abbrev job_env : DoltInstance → List (String × String)
job_env di =
    ("DOLT_HOST", di.meta.name <> ("." <> (di.meta.namespace <> ".svc.cluster.local")))
    ∷ ("DOLT_PORT", show_ℤ (svc_port di))
    ∷ []

unfoldable pub build_ddl_init_job : DoltInstance → Job
build_ddl_init_job di = record {
  container_name = "dolt-init";
  image = image_of di.spec.version;
  command = "sh" ∷ "-c" ∷ "dolt sql --host $DOLT_HOST --port $DOLT_PORT < /sql/init.sql" ∷ [];
  env = job_env di;
  config_map = ddl_config_map_name di.meta.name;
  backoff = pos 4;
  ttl_seconds = pos 300;
  restart_policy = "OnFailure";
  conditions = [];
  failed = pos 0;
}

unfoldable pub build_migration_job : Api → DoltInstance → String → String → Job
build_migration_job api di from to = record {
  container_name = "dolt-migrate";
  image = image_of from;
  command = "sh" ∷ "-c" ∷ "dolt sql --host $DOLT_HOST --port $DOLT_PORT < /sql/migrate.sql" ∷ [];
  env = job_env di;
  config_map = migrate_config_map_name api di.meta.name from to;
  backoff = pos 2;
  ttl_seconds = pos 300;
  restart_policy = "OnFailure";
  conditions = [];
  failed = pos 0;
}

-- The service that is there, or an empty one, as `CreateOrUpdate` hands it on.
abbrev service_or_new : Option Service → Service
service_or_new (some svc) = svc
service_or_new none = record {
  cluster_ip = "";
  service_type = "";
  selector = [];
  port = pos 0;
  target_port = pos 0;
  protocol = "";
}

-- `reconcileHeadlessService`, from the service that is there
unfoldable pub headless_service : DoltInstance → Option Service → Service
headless_service di before = record (service_or_new before) {
  cluster_ip = "None";
  selector = dolt_labels di.meta.name;
  port = dolt_svc_port;
  target_port = pos 0;
  protocol = "TCP";
}

-- `reconcileClusterIPService`, from the service that is there
unfoldable pub cluster_ip_service : DoltInstance → Option Service → Service
cluster_ip_service di before = record (service_or_new before) {
  service_type = or_text di.spec.service.service_type "ClusterIP";
  selector = dolt_labels di.meta.name;
  port = svc_port di;
  target_port = dolt_svc_port;
  protocol = "TCP";
}

-- `findMigrationSQL`
unfoldable pub find_migration_sql : Api → String → String → Option String
unfolding sanitize_ver
find_migration_sql api from to = api.migration (
    "sql/migrate/migrate_"
    <> (sanitize_ver api from <> ("_to_" <> (sanitize_ver api to <> ".sql"))))
