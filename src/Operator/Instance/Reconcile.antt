-- ===== src/Operator/Instance/Reconcile.antt =====
-- The reconcile loop of the DoltInstance controller, and its finalizer
-- (pkg/k8s/operator/controllers/doltinstance_controller.go).
use landman.Base.{
  String, ◌<>◌, Bool, true, false, not, ◌&&◌, Option, none, some, List, [], ◌∷◌, pos, ltb_ℤ, Result,
  ok, err, any, ◌==◌, if◌then◌else◌,
}
use landman.Base.Decimal.{show_ℤ}
use landman.Operator.Types.{DoltInstance, Fetch, found, not_found, failed}
use landman.Operator.Machinery.{CtrlResult, done, again, after_seconds}
use landman.Operator.Instance.{
  Api, Cluster, update, status_update, list_claims, delete_claim, svc_port, dolt_labels,
}
use landman.Operator.Instance.Steps.{
  Fault, reconcile_ddl_config_map, reconcile_stateful_set, reconcile_services, stateful_set_ready,
  reconcile_ddl_init_job, reconcile_migration, with_condition,
}

-- What a reconcile leaves: its result and error, the instance as it is stored, and the objects.
pub record Halt : Type 0 where
  pub result : CtrlResult
  pub error : Option String
  pub stored : Option DoltInstance
  pub cluster : Cluster

abbrev pub halt : CtrlResult → Option String → DoltInstance → Cluster → Halt
halt result error stored k = record {
  result = result;
  error = error;
  stored = some stored;
  cluster = k;
}

-- The instance after `Status().Update`, whose error is not looked at.
abbrev pub flushed : Api → DoltInstance → DoltInstance → DoltInstance
flushed api stored di = elim (api.fails status_update) [ none ↦ di | some x ↦ stored ]

abbrev pub observed : DoltInstance → DoltInstance
observed di = record di { status = record di.status { observed_generation = di.meta.generation } }

-- `recordReadyFalse`
abbrev not_ready : Api → DoltInstance → String → Fault → Halt
not_ready api di reason (x, k) =
    halt done (some x) (flushed api di (with_condition api di "Ready" "False" reason x)) k

-- Step 13, where `stored` is the instance as the reconcile found it.
abbrev pub finish : Api → DoltInstance → DoltInstance → Cluster → Halt
finish api stored di k =
    let now =
      observed (record di { status = record di.status { current_version = di.spec.version } }) in
    elim (api.fails status_update) [
      | none ↦ halt done none now k
      | some x ↦ halt done (some ("update doltinstance status: " <> x)) stored k
    ]

-- Step 12.
abbrev pub after_migration :
    Api → DoltInstance → Result Fault (Bool × DoltInstance × Cluster) → Halt
after_migration api stored (err (x, k)) = halt done (some x) stored k
after_migration api stored (ok (true, di, k)) =
    halt (after_seconds 10) none (flushed api stored (observed di)) k
after_migration api stored (ok (false, di, k)) = finish api stored di k

-- Step 11.
abbrev pub after_ddl : Api → DoltInstance → DoltInstance → Result Fault (Bool × Cluster) → Halt
after_ddl api stored di (err (x, k)) =
    halt done (some x)
      (flushed api stored (observed (with_condition api di "DDLInitialized" "False" "JobFailed" x)))
      k
after_ddl api stored di (ok (false, k)) =
    halt (after_seconds 5) none
      (flushed api stored (
        observed (
          with_condition api di "DDLInitialized" "False" "JobPending"
            "DDL initialisation Job is in progress")))
      k
after_ddl api stored di (ok (true, k)) =
    let initialised =
      with_condition api di "DDLInitialized" "True" "JobComplete"
        "Dolt schema initialised successfully" in
    after_migration api stored (reconcile_migration api initialised k)

-- Step 10.
abbrev pub after_readiness : Api → DoltInstance → DoltInstance → Cluster → Result Fault Bool → Halt
after_readiness api stored di k (err (x, k')) =
    halt done (some ("check statefulset ready: " <> x)) stored k'
after_readiness api stored di k (ok false) =
    halt (after_seconds 5) none
      (flushed api stored (
        observed (
          with_condition api di "Ready" "False" "PodNotReady"
            "waiting for DoltInstance pod to become ready")))
      k
after_readiness api stored di k (ok true) =
    let ready = with_condition api di "Ready" "True" "PodReady" "DoltInstance pod is ready" in
    after_ddl api stored ready (reconcile_ddl_init_job api ready k)

-- Step 9.
abbrev pub with_endpoint : DoltInstance → DoltInstance
with_endpoint di = record di {
  status = record di.status {
    endpoint =
        di.meta.name
        <> ("." <> (di.meta.namespace <> (".svc.cluster.local:" <> show_ℤ (svc_port di))));
  };
}

-- Steps 6 to 8.
abbrev pub after_services : Api → DoltInstance → Result Fault Cluster → Halt
after_services api di (err f) = not_ready api di "ServiceError" f
after_services api di (ok k) =
    after_readiness api di (with_endpoint di) k (stateful_set_ready api (with_endpoint di) k)

abbrev pub after_stateful_set : Api → DoltInstance → Result Fault Cluster → Halt
after_stateful_set api di (err f) = not_ready api di "StatefulSetError" f
after_stateful_set api di (ok k) = after_services api di (reconcile_services api di k)

abbrev pub after_config_map : Api → DoltInstance → Result Fault Cluster → Halt
after_config_map api di (err f) = not_ready api di "DDLConfigMapError" f
after_config_map api di (ok k) = after_stateful_set api di (reconcile_stateful_set api di k)

-- The labels that `client.MatchingLabels` asks for.
unfoldable pub has_labels : List (String × String) → List (String × String) → Bool
has_labels [] labels = true
has_labels ((key, value) ∷ wanted) labels =
    any (λ (k, v). (k == key) && (v == value)) labels && has_labels wanted labels

-- The volume claims in turn; a claim that is already gone is no error.
unfoldable pub delete_claims :
    Api
    → String
    → List (String × List (String × String))
    → Option String × List (String × List (String × String))
unfolding has_labels
delete_claims api name [] = (none, [])
delete_claims api name ((claim, labels) ∷ claims) =
    let rest = delete_claims api name claims in
    if has_labels (dolt_labels name) labels
    then elim (api.fails (delete_claim claim)) [
      | none ↦ rest
      | some x ↦
          (some ("delete PVC " <> (api.quote claim <> (": " <> x))), (claim, labels) ∷ claims)
    ]
    else (rest.0, (claim, labels) ∷ rest.1)

abbrev dolt_instance_cleanup_finalizer : String
dolt_instance_cleanup_finalizer = "gastown.io/dolt-cleanup"

abbrev pub has_finalizer : Api → DoltInstance → Bool
has_finalizer api di =
    api.machinery.contains_finalizer di.meta.finalizers dolt_instance_cleanup_finalizer

abbrev with_finalizers : DoltInstance → List String → DoltInstance
with_finalizers di fs = record di { meta = record di.meta { finalizers = fs } }

abbrev release : Api → DoltInstance → Cluster → Halt
release api di k = elim (api.fails update) [
  | some x ↦ halt done (some ("remove finalizer: " <> x)) di k
  | none ↦
      halt done none
        (with_finalizers di
          (api.machinery.remove_finalizer di.meta.finalizers dolt_instance_cleanup_finalizer))
        k
]

abbrev pub after_claims :
    Api → DoltInstance → Cluster → Option String × List (String × List (String × String)) → Halt
after_claims api di k (some x, claims) =
    halt done (some ("delete orphaned PVCs: " <> x)) di (record k { claims = claims })
after_claims api di k (none, claims) = release api di (record k { claims = claims })

-- `handleDeletion`
unfoldable pub handle_deletion : Api → DoltInstance → Cluster → Halt
unfolding delete_claims
handle_deletion api di k =
    if has_finalizer api di
    then elim (api.fails list_claims) [
      | some x ↦ halt done (some ("delete orphaned PVCs: list PVCs: " <> x)) di k
      | none ↦ after_claims api di k (delete_claims api di.meta.name k.claims)
    ]
    else halt done none di k

abbrev add_cleanup_finalizer : Api → DoltInstance → Cluster → Halt
add_cleanup_finalizer api di k = elim (api.fails update) [
  | some x ↦ halt done (some ("add finalizer: " <> x)) di k
  | none ↦
      halt again none
        (with_finalizers di
          (api.machinery.add_finalizer di.meta.finalizers dolt_instance_cleanup_finalizer))
        k
]

abbrev unsupported : DoltInstance → String
unsupported di =
    "spec.replicas: Invalid value: "
    <> (show_ℤ di.spec.replicas
        <> (": replicas > 1 not supported in"
            <> (" gastown-operator v0.x; see https://github.com/gastown/operator/issues/XXX"
                <> " for replication roadmap")))

-- `Reconcile`, with the answer of the API server to the read of the instance.
unfoldable pub reconcile : Api → Fetch DoltInstance → Cluster → Halt
unfolding handle_deletion reconcile_ddl_config_map reconcile_stateful_set reconcile_services
    stateful_set_ready reconcile_ddl_init_job reconcile_migration
reconcile api (not_found x) k = record { result = done; error = none; stored = none; cluster = k }
reconcile api (failed x) k = record {
  result = done;
  error = some ("get doltinstance: " <> x);
  stored = none;
  cluster = k;
}
reconcile api (found di) k =
    if di.meta.deleting
    then handle_deletion api di k
    else if not (has_finalizer api di)
    then add_cleanup_finalizer api di k
    else if ltb_ℤ (pos 1) di.spec.replicas
    then halt done none
        (flushed api di
          (with_condition api di "Ready" "False" "ReplicasUnsupported" (unsupported di)))
        k
    else after_config_map api di (reconcile_ddl_config_map api di k)
