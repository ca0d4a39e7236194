-- ===== src/Operator/Instance/Steps.antt =====
-- The steps of a reconcile of a DoltInstance
-- (pkg/k8s/operator/controllers/doltinstance_controller.go), each on the objects of the cluster.
use landman.Base.{
  String, ◌<>◌, Bool, true, false, ◌&&◌, ◌||◌, Option, none, some, List, [], ◌∷◌, leb_ℤ, Result, ok,
  err, ◌>>=◌, ◌>>◌, ◌==◌, if◌then◌else◌,
}
use landman.Base.Map.{lookup, insert}
use landman.Base.Decimal.{show_ℤ}
use landman.Operator.Types.{DoltInstance}
use landman.Operator.Dolt.{condition_true}
use landman.Operator.Instance.{
  Api, Cluster, StatefulSet, Job, get_stateful_set, create_stateful_set, patch_stateful_set,
  check_stateful_set, get_for_image, patch_image, write_config_map, write_service, get_job,
  create_job, dolt_image, replicas_of, build_stateful_set, build_ddl_init_job, build_migration_job,
  headless_service, cluster_ip_service, headless_name, ddl_config_map_name, ddl_init_job_name,
  migrate_job_name, migrate_config_map_name, find_migration_sql, image_of,
}

-- An error, and the objects as they are when it comes.
abbrev pub Fault : Type 0
Fault = String × Cluster

-- `if err := f(); err != nil { return fmt.Errorf("...: %w", err) }`
abbrev pub failing : Option String → String → Cluster → Result Fault (Unit {0})
failing none context k = ok tt
failing (some e) context k = err (context <> e, k)

-- `reconcileDDLConfigMap`
unfoldable pub reconcile_ddl_config_map : Api → DoltInstance → Cluster → Result Fault Cluster
reconcile_ddl_config_map api di k = do
  failing (api.fails (write_config_map (ddl_config_map_name di.meta.name)))
      "reconcile DDL ConfigMap: " k
  ok (record k {
    config_maps = insert (ddl_config_map_name di.meta.name) api.init_sql k.config_maps;
  })

-- The image of the first container, and the replicas.
abbrev pub patched_set : StatefulSet → List String → DoltInstance → StatefulSet
patched_set sts others di = record sts {
  images = dolt_image di ∷ others;
  replicas = replicas_of di;
}

-- `reconcileStatefulSet`
unfoldable pub reconcile_stateful_set : Api → DoltInstance → Cluster → Result Fault Cluster
unfolding build_stateful_set dolt_image
reconcile_stateful_set api di k = do
  failing (api.fails get_stateful_set) "get statefulset: " k
  elim k.stateful_set [
    | none ↦ do
      failing (api.fails create_stateful_set) "create statefulset: " k
      ok (record k { stateful_set = some (build_stateful_set api di) })
    | some sts ↦ elim sts.images [
      | [] ↦ err (
        "statefulset " <> (di.meta.namespace <> ("/" <> (di.meta.name <> " has no containers"))),
        k,
      )
      | ◌∷◌ image others ↦ do
        failing (api.fails patch_stateful_set) "patch statefulset: " k
        ok (record k { stateful_set = some (patched_set sts others di) })
    ]
  ]

-- `reconcileServices`
unfoldable pub reconcile_services : Api → DoltInstance → Cluster → Result Fault Cluster
unfolding headless_service cluster_ip_service
reconcile_services api di k = do
  failing (api.fails (write_service (headless_name di.meta.name))) "headless service: " k
  let k' = record k {
    services =
        insert (headless_name di.meta.name)
          (headless_service di (lookup (headless_name di.meta.name) k.services)) k.services;
  }
  failing (api.fails (write_service di.meta.name)) "" k'
  ok (record k' {
    services =
        insert di.meta.name (cluster_ip_service di (lookup di.meta.name k'.services)) k'.services;
  })

-- `statefulSetReady`
unfoldable pub stateful_set_ready : Api → DoltInstance → Cluster → Result Fault Bool
stateful_set_ready api di k = do
  failing (api.fails check_stateful_set) "get statefulset for readiness: " k
  elim k.stateful_set [
    | none ↦ ok false
    | some sts ↦ ok (leb_ℤ (replicas_of di) sts.ready_replicas)
  ]

pub data JobState : Type 0 where
  complete broken running : JobState

-- The first condition that says that the job is complete or has failed.
unfoldable pub job_state : List (String × String) → JobState
job_state [] = running
job_state ((condition_type, status) ∷ conditions) =
    let rest = job_state conditions in
    if (condition_type == "Complete") && (status == "True")
    then complete
    else if (condition_type == "Failed") && (status == "True")
    then broken
    else rest

-- `reconcileDDLInitJob`: whether the schema is there.
unfoldable pub reconcile_ddl_init_job : Api → DoltInstance → Cluster → Result Fault (Bool × Cluster)
unfolding condition_true job_state build_ddl_init_job
reconcile_ddl_init_job api di k =
    let name = ddl_init_job_name di.meta.name in
    if condition_true di.status.conditions "DDLInitialized" then ok (true, k) else do
      failing (api.fails (get_job name)) "get ddl init job: " k
      elim (lookup name k.jobs) [
        | none ↦ do
          failing (api.fails (create_job name)) "create ddl init job: " k
          ok (false, record k { jobs = insert name (build_ddl_init_job di) k.jobs })
        | some job ↦ elim (job_state job.conditions) [
          | complete ↦ ok (true, k)
          | broken ↦ err (
            "DDL init Job "
                <> (api.quote name <> (" failed after " <> (show_ℤ job.failed <> " attempt(s)"))),
            k,
          )
          | running ↦ ok (false, k)
        ]
      ]

-- `updateStatefulSetImage`
unfoldable pub update_stateful_set_image :
    Api → DoltInstance → String → Cluster → Result Fault Cluster
update_stateful_set_image api di version k = do
  failing (api.fails get_for_image) "get statefulset for image update: " k
  elim k.stateful_set [
    | none ↦ err ("get statefulset for image update: not found", k)
    | some sts ↦ elim sts.images [
      | [] ↦ err (
        "statefulset " <> (di.meta.namespace <> ("/" <> (di.meta.name <> " has no containers"))),
        k,
      )
      | ◌∷◌ image others ↦ do
        failing (api.fails patch_image) ("patch statefulset image to " <> (version <> ": ")) k
        ok (record k { stateful_set = some (record sts { images = image_of version ∷ others }) })
    ]
  ]

-- `setCondition`, on the object in memory.
abbrev pub with_condition : Api → DoltInstance → String → String → String → String → DoltInstance
with_condition api di condition_type status reason message = record di {
  status = record di.status {
    conditions = api.machinery.set_status_condition di.status.conditions (record {
      condition_type = condition_type;
      status = status;
      observed_generation = di.meta.generation;
      reason = reason;
      message = message;
    });
  };
}

abbrev pub without_migration : Api → DoltInstance → DoltInstance
without_migration api di = record di {
  status = record di.status {
    conditions =
        api.machinery.remove_status_condition di.status.conditions "VersionMigrationRequired";
  };
}

abbrev pub migrating : Api → DoltInstance → String → String → DoltInstance
migrating api di reason message =
    with_condition api di "VersionMigrationRequired" "True" reason message

-- The migration of a version for which there is no job yet.
abbrev pub start_migration :
    Api → DoltInstance → String → Cluster → Result Fault (Bool × DoltInstance × Cluster)
start_migration api di name k =
    let cur = di.status.current_version in
    let to = di.spec.version in
    elim (find_migration_sql api cur to) [
      | none ↦ ok (false, without_migration api di, k)
      | some sql ↦ do
        failing (api.fails (write_config_map (migrate_config_map_name api di.meta.name cur to))) ""
            k
        let k' = record k {
          config_maps = insert (migrate_config_map_name api di.meta.name cur to) sql k.config_maps;
        }
        failing (api.fails (create_job name)) "create migration job: " k'
        ok (
          true,
          migrating api di "MigrationPending"
              ("migration from " <> (cur <> (" to " <> (to <> " is in progress")))),
          record k' { jobs = insert name (build_migration_job api di cur to) k.jobs },
        )
    ]

-- The migration of a version whose job is there.
abbrev pub watch_migration :
    Api → DoltInstance → String → Job → Cluster → Result Fault (Bool × DoltInstance × Cluster)
watch_migration api di name job k = elim (job_state job.conditions) [
  | complete ↦ do
    k' ← update_stateful_set_image api di di.spec.version k
    ok (false, without_migration api di, k')
  | broken ↦ err ("migration Job " <> (api.quote name <> " failed"), k)
  | running ↦ ok (
    true,
    migrating api di "MigrationRunning" (
        "migration from "
        <> (di.status.current_version <> (" to " <> (di.spec.version <> " is running")))),
    k,
  )
]

-- `reconcileMigration`: whether it is still going on. A failure loses the condition that is set on
-- the object in memory, as its caller stores no status then.
unfoldable pub reconcile_migration :
    Api → DoltInstance → Cluster → Result Fault (Bool × DoltInstance × Cluster)
unfolding find_migration_sql job_state update_stateful_set_image build_migration_job
    migrate_job_name
reconcile_migration api di k =
    let name = migrate_job_name api di.meta.name di.status.current_version di.spec.version in
    if (di.status.current_version == "") || (di.status.current_version == di.spec.version)
    then ok (false, without_migration api di, k)
    else do
      failing (api.fails (get_job name)) "get migration job: " k
      elim (lookup name k.jobs) [
        | none ↦ start_migration api di name k
        | some job ↦ watch_migration api di name job k
      ]
