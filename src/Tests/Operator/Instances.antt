-- ===== src/Tests/Operator/Instances.antt =====
-- The DoltInstance controller on samples.
use landman.Base.{◌≡◌, refl, none, some, List, [], ◌∷◌, false, true, pos, String, str_dec}
use landman.Operator.Types.{DoltInstance, found}
use landman.Operator.Semver.{trim_v}
use landman.Operator.Dolt.{condition_true}
use landman.Operator.Machinery.{after_seconds}
use landman.Operator.Instance.{
  Api, Cluster, Job, dolt_image, sanitize_ver, migrate_job_name, find_migration_sql,
  build_ddl_init_job, build_stateful_set,
}
use landman.Operator.Instance.Steps.{
  reconcile_ddl_config_map, reconcile_stateful_set, reconcile_services, stateful_set_ready,
  reconcile_ddl_init_job, reconcile_migration, job_state,
}
use landman.Operator.Instance.Reconcile.{reconcile, handle_deletion, delete_claims, has_labels}
use landman.Operator.Instance.Laws.{Runs, reconcile-Runs}
use landman.Operator.Instance.Claims.{foreign, handle_deletion_claims}
use landman.Tests.Operator.{dolt, machinery}

abbrev api : Api
api = record {
  machinery = machinery;
  fails = λ call. none;
  quote = λ s. s;
  to_lower = λ s. s;
  dashed = λ s. s;
  init_sql = "CREATE TABLE";
  migration = λ file. some "ALTER TABLE";
  ten_gi = pos 10;
}

abbrev guarded : List String
guarded = "gastown.io/dolt-cleanup" ∷ []

abbrev done_job : Job
done_job = record (build_ddl_init_job (dolt "v1" "v1" false [])) {
  conditions = ("Complete", "True") ∷ [];
}

-- An instance that runs v1.
abbrev running : Cluster
running = record {
  stateful_set = some (record (build_stateful_set api (dolt "v1" "v1" false [])) {
    images = "dolthub/dolt:v1" ∷ [];
    ready_replicas = pos 1;
  });
  config_maps = [];
  services = [];
  jobs = ("db-ddlinit-v1", done_job) ∷ [];
  claims =
      ("data-db-0", ("app.kubernetes.io/name", "dolt") ∷ ("gastown.io/doltinstance", "db") ∷ [])
      ∷ (
        "data-other-0",
        ("app.kubernetes.io/name", "dolt") ∷ ("gastown.io/doltinstance", "other") ∷ [],
      )
      ∷ [];
}

abbrev upgraded : DoltInstance
upgraded = dolt "v2" "v1" false guarded

abbrev mapped : Cluster
mapped = record running { config_maps = ("db-ddl-v1", "CREATE TABLE") ∷ [] }

abbrev patched : Cluster
patched = record mapped {
  stateful_set = some (record (build_stateful_set api (dolt "v1" "v1" false [])) {
    images = "dolthub/dolt:v2" ∷ [];
    ready_replicas = pos 1;
  });
}

reconcile-Runs_example : Runs "v2" (reconcile api (found upgraded) running).cluster
unfolding reconcile_ddl_config_map reconcile_stateful_set dolt_image condition_true str_dec
reconcile-Runs_example =
    reconcile-Runs api upgraded running mapped patched refl refl refl refl refl refl

-- That reconcile ends with the migration from v1 only begun.
migration_begun :
    ((reconcile api (found upgraded) running).result ≡ after_seconds 10)
    × ((reconcile api (found upgraded) running).error ≡ none)
unfolding reconcile reconcile_ddl_config_map reconcile_stateful_set reconcile_services
    stateful_set_ready reconcile_ddl_init_job reconcile_migration job_state dolt_image
    condition_true str_dec find_migration_sql migrate_job_name sanitize_ver trim_v
migration_begun = (refl, refl)

handle_deletion_claims_example :
    (handle_deletion api (dolt "v1" "v1" true guarded) running).cluster.claims
    ≡ foreign "db" running.claims
unfolding handle_deletion delete_claims has_labels str_dec
handle_deletion_claims_example =
    handle_deletion_claims api (dolt "v1" "v1" true guarded) (dolt "v1" "v1" true []) running refl
      refl refl
