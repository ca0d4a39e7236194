-- ===== src/Operator/Instance/Laws.antt =====
-- Which image the StatefulSet runs behind a reconcile.
use landman.Base.{
  String, ◌≡◌, refl, sym, ap, ◌∙◌, subst, ◌⊎◌, inl, inr, Bool, true, false, Option, none, some,
  List, [], ◌∷◌, pos, ltb_ℤ, Result, ok, err, arith,
}
use landman.Operator.Types.{DoltInstance, found}
use landman.Operator.Dolt.{condition_true}
use landman.Operator.Instance.{
  Api, Cluster, StatefulSet, Job, image_of, dolt_image, build_stateful_set,
}
use landman.Operator.Instance.Steps.{
  Fault, reconcile_ddl_config_map, reconcile_stateful_set, reconcile_services, stateful_set_ready,
  reconcile_ddl_init_job, reconcile_migration, update_stateful_set_image, patched_set,
  watch_migration, start_migration,
}
use landman.Operator.Instance.Reconcile.{
  reconcile, has_finalizer, after_services, after_readiness, after_ddl, after_migration, finish,
  with_endpoint,
}

-- The first container of the pod has the image of the version.
abbrev pub IsImage : String → List String → Type 0
IsImage v [] = ⊥
IsImage v (image ∷ others) = image ≡ image_of v

abbrev pub RunsIn : String → Option StatefulSet → Type 0
RunsIn v none = ⊥
RunsIn v (some sts) = IsImage v sts.images

abbrev pub Runs : String → Cluster → Type 0
Runs v k = RunsIn v k.stateful_set

-- A step's objects, whether it ends with an error or not.
abbrev AtFault : (Cluster → Type 0) → Result Fault Cluster → Type 0
AtFault P (err (x, k)) = P k
AtFault P (ok k) = P k

services-kept :
    (api : Api) (di : DoltInstance) (k : Cluster) (r : Result Fault Cluster)
    → reconcile_services api di k ≡ r
    → AtFault (λ k'. k'.stateful_set ≡ k.stateful_set) r
unfolding reconcile_services
services-kept api di k (err (x, k')) e = ground arith
services-kept api di k (ok k') e = ground arith

readiness-kept :
    (api : Api) (di : DoltInstance) (k k' : Cluster) (x : String)
    → stateful_set_ready api di k ≡ err (x, k')
    → k'.stateful_set ≡ k.stateful_set
unfolding stateful_set_ready
readiness-kept api di k k' x e = ground arith

ddl-kept :
    (api : Api) (di : DoltInstance) (k k' : Cluster) (b : Bool)
    → reconcile_ddl_init_job api di k ≡ ok (b, k')
    → k'.stateful_set ≡ k.stateful_set
unfolding reconcile_ddl_init_job
ddl-kept api di k k' b e = ground arith

ddl-kept_err :
    (api : Api) (di : DoltInstance) (k k' : Cluster) (x : String)
    → reconcile_ddl_init_job api di k ≡ err (x, k')
    → k'.stateful_set ≡ k.stateful_set
unfolding reconcile_ddl_init_job
ddl-kept_err api di k k' x e = ground arith

-- The StatefulSet as it is stored, and its containers.
set_image :
    (api : Api) (di : DoltInstance) (v : String) (k k' : Cluster)
    → update_stateful_set_image api di v k ≡ ok k'
    → Runs v k'
unfolding update_stateful_set_image
set_image api di v k k' h = go k.stateful_set refl
  where
    images :
        (sts : StatefulSet) (is : List String)
        → k.stateful_set ≡ some sts
        → sts.images ≡ is
        → Runs v k'
    images sts [] e e' = absurd (ground (arith, e, e'))
    images sts (image ∷ others) e e' =
        let same : k'.stateful_set ≡ some (record sts { images = image_of v ∷ others }) =
          ground (arith, e, e') in
        subst (RunsIn v) (sym same) refl

    go : (o : Option StatefulSet) → k.stateful_set ≡ o → Runs v k'
    go none e = absurd (ground (arith, e))
    go (some sts) e = images sts sts.images e refl

update-kept_err :
    (api : Api) (di : DoltInstance) (v x : String) (k k' : Cluster)
    → update_stateful_set_image api di v k ≡ err (x, k')
    → k' ≡ k
unfolding update_stateful_set_image
update-kept_err api di v x k k' h = ground arith

-- The step of the StatefulSet gives it the image that `doltImage` chooses.
stateful_set_image :
    (api : Api) (di : DoltInstance) (v : String) (k k' : Cluster)
    → dolt_image di ≡ image_of v
    → reconcile_stateful_set api di k ≡ ok k'
    → Runs v k'
unfolding reconcile_stateful_set build_stateful_set
stateful_set_image api di v k k' chosen h = go k.stateful_set refl
  where
    images :
        (sts : StatefulSet) (is : List String)
        → k.stateful_set ≡ some sts
        → sts.images ≡ is
        → Runs v k'
    images sts [] e e' = absurd (ground (arith, e, e'))
    images sts (image ∷ others) e e' =
        let same : k'.stateful_set ≡ some (patched_set sts others di) = ground (arith, e, e') in
        subst (RunsIn v) (sym same) chosen

    go : (o : Option StatefulSet) → k.stateful_set ≡ o → Runs v k'
    go none e =
        let same : k'.stateful_set ≡ some (build_stateful_set api di) = ground (arith, e) in
        subst (RunsIn v) (sym same) chosen
    go (some sts) e = images sts sts.images e refl

-- A migration step keeps the image, or sets that of the new version.
watch-kept :
    (api : Api) (di d' : DoltInstance) (name : String) (job : Job) (k k' : Cluster) (b : Bool)
    → watch_migration api di name job k ≡ ok (b, d', k')
    → (k'.stateful_set ≡ k.stateful_set)
      ⊎ (update_stateful_set_image api di di.spec.version k ≡ ok k')
watch-kept api di d' name job k k' b h = ground arith

start-kept :
    (api : Api) (di d' : DoltInstance) (name : String) (k k' : Cluster) (b : Bool)
    → start_migration api di name k ≡ ok (b, d', k')
    → k'.stateful_set ≡ k.stateful_set
start-kept api di d' name k k' b h = ground arith

migration-kept :
    (api : Api) (di d' : DoltInstance) (k k' : Cluster) (b : Bool)
    → reconcile_migration api di k ≡ ok (b, d', k')
    → (k'.stateful_set ≡ k.stateful_set)
      ⊎ (update_stateful_set_image api di di.spec.version k ≡ ok k')
unfolding reconcile_migration
migration-kept api di d' k k' b h = ground arith

migration-kept_err :
    (api : Api) (di : DoltInstance) (k k' : Cluster) (x : String)
    → reconcile_migration api di k ≡ err (x, k')
    → k'.stateful_set ≡ k.stateful_set
unfolding reconcile_migration
migration-kept_err api di k k' x h = ground arith

migration-spec :
    (api : Api) (di d' : DoltInstance) (k k' : Cluster) (b : Bool)
    → reconcile_migration api di k ≡ ok (b, d', k')
    → d'.spec ≡ di.spec
unfolding reconcile_migration
migration-spec api di d' k k' b h = ground arith

-- What holds of the objects behind a reconcile that has got past the StatefulSet, and of the stored
-- instance behind one that has got to its end.
module _ (api : Api) (stored : DoltInstance) (v : String) (same : stored.spec.version ≡ v) where
  after_migration-Runs :
      (di : DoltInstance) (k : Cluster)
      → di.spec ≡ stored.spec
      → Runs v k
      → Runs v (after_migration api stored (reconcile_migration api di k)).cluster
  after_migration-Runs di k spec runs = go (reconcile_migration api di k) refl
    where
      kept :
          (k' : Cluster)
          → (k'.stateful_set ≡ k.stateful_set)
            ⊎ (update_stateful_set_image api di di.spec.version k ≡ ok k')
          → Runs v k'
      kept k' (inl e) = subst (RunsIn v) (sym e) runs
      kept k' (inr e) =
          subst (λ w. Runs w k') (ap (λ s. s.version) spec ∙ same)
            (set_image api di di.spec.version k k' e)

      go :
          (r : Result Fault (Bool × DoltInstance × Cluster))
          → reconcile_migration api di k ≡ r
          → Runs v (after_migration api stored r).cluster
      go (err (x, k')) e = subst (RunsIn v) (sym (migration-kept_err api di k k' x e)) runs
      go (ok (true, d, k')) e = kept k' (migration-kept api di d k k' true e)
      go (ok (false, d, k')) e =
          subst (RunsIn v) (sym (finished d k')) (kept k' (migration-kept api di d k k' false e))
        where
          finished :
              (d : DoltInstance) (k' : Cluster)
              → (finish api stored d k').cluster.stateful_set ≡ k'.stateful_set
          finished d k' = ground arith

  after_ddl-Runs :
      (di : DoltInstance) (k : Cluster)
      → di.spec ≡ stored.spec
      → Runs v k
      → Runs v (after_ddl api stored di (reconcile_ddl_init_job api di k)).cluster
  after_ddl-Runs di k spec runs = go (reconcile_ddl_init_job api di k) refl
    where
      go :
          (r : Result Fault (Bool × Cluster))
          → reconcile_ddl_init_job api di k ≡ r
          → Runs v (after_ddl api stored di r).cluster
      go (err (x, k')) e = subst (RunsIn v) (sym (ddl-kept_err api di k k' x e)) runs
      go (ok (false, k')) e = subst (RunsIn v) (sym (ddl-kept api di k k' false e)) runs
      go (ok (true, k')) e =
          after_migration-Runs _ k' spec (subst (RunsIn v) (sym (ddl-kept api di k k' true e)) runs)

  after_readiness-Runs :
      (di : DoltInstance) (k : Cluster)
      → di.spec ≡ stored.spec
      → Runs v k
      → Runs v (after_readiness api stored di k (stateful_set_ready api di k)).cluster
  after_readiness-Runs di k spec runs = go (stateful_set_ready api di k) refl
    where
      go :
          (r : Result Fault Bool)
          → stateful_set_ready api di k ≡ r
          → Runs v (after_readiness api stored di k r).cluster
      go (err (x, k')) e = subst (RunsIn v) (sym (readiness-kept api di k k' x e)) runs
      go (ok false) e = runs
      go (ok true) e = after_ddl-Runs _ k spec runs

  after_services-Runs :
      (k : Cluster)
      → Runs v k
      → Runs v (after_services api stored (reconcile_services api stored k)).cluster
  after_services-Runs k runs = go (reconcile_services api stored k) refl
    where
      go :
          (r : Result Fault Cluster)
          → reconcile_services api stored k ≡ r
          → Runs v (after_services api stored r).cluster
      go (err (x, k')) e = subst (RunsIn v) (sym (services-kept api stored k (err (x, k')) e)) runs
      go (ok k') e =
          after_readiness-Runs (with_endpoint stored) k' refl
            (subst (RunsIn v) (sym (services-kept api stored k (ok k') e)) runs)

-- For an instance with its finalizer, not being deleted, with at most one replica and without a
-- migration in its conditions: once the steps for the config map and the StatefulSet succeed, the
-- StatefulSet runs the image of spec.version when the reconcile ends, with or without an error,
-- and with or without a migration that it starts.
pub reconcile-Runs :
    (api : Api) (di : DoltInstance) (k k' k'' : Cluster)
    → di.meta.deleting ≡ false
    → has_finalizer api di ≡ true
    → ltb_ℤ (pos 1) di.spec.replicas ≡ false
    → condition_true di.status.conditions "VersionMigrationRequired" ≡ false
    → reconcile_ddl_config_map api di k ≡ ok k'
    → reconcile_stateful_set api di k' ≡ ok k''
    → Runs di.spec.version (reconcile api (found di) k).cluster
unfolding reconcile
reconcile-Runs api di k k' k'' stays registered single idle mapped made =
    let chosen : reconcile api (found di) k
        ≡ after_services api di (reconcile_services api di k'') =
      ground (arith, stays, registered, single, mapped, made) in
    subst (λ h. Runs di.spec.version h.cluster) (sym chosen)
      (after_services-Runs api di di.spec.version refl k''
        (stateful_set_image api di di.spec.version k' k'' (chosen_image di idle) made))
  where
    chosen_image :
        (di : DoltInstance)
        → condition_true di.status.conditions "VersionMigrationRequired" ≡ false
        → dolt_image di ≡ image_of di.spec.version
    chosen_image di idle = ground (arith, idle)
