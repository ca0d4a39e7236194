-- ===== src/Operator/Town.antt =====
-- The GasTown controller (pkg/k8s/operator/controllers/gastown_controller.go): the town's row, the
-- surveyor's deployment and the reconcile loop.
pub mod Reconcile
pub mod Laws
pub mod Status
use landman.Base.{
  String, ◌<>◌, Bool, true, false, not, Option, none, some, List, [], ◌∷◌, ◌++◌, ℤ, pos, Result, ok,
  err, ◌>>=◌, ◌==◌, if◌then◌else◌,
}
use landman.TownCtl.Topology.{or_text, or_number}
use landman.Operator.Types.{GasTown, DoltInstance, LocalRef, Fetch, found, not_found, failed}
use landman.Operator.Tables.{Tables, TableVersion, TownRow, upsert_town, delete_town}
use landman.Operator.Dolt.{
  Engine, Write, write, upsert_topology_versions, upsert_topology_lock, transaction, with_hash,
  check_topology_lock, get_or_fail, open_dolt_connection_from_spec,
}
use landman.Operator.Machinery.{
  Machinery, CtrlResult, done, again, after_seconds, Event, event, Outcome, outcome, written,
}

pub record Container : Type 0 where
  pub name : String
  pub image : String
  pub env : List (String × String)
  -- volume, path, path within the volume, each read-only
  pub mounts : List (String × String × String)
  pub env_from : List String
  pub resources : Option String

pub record DeploymentSpec : Type 0 where
  pub replicas : ℤ
  -- of the selector and of the pods
  pub labels : List (String × String)
  pub container : Container
  -- volume, and the ConfigMap it holds
  pub volumes : List (String × String)

pub record Deployment : Type 0 where
  pub name : String
  pub namespace : String
  pub spec : DeploymentSpec

pub record Client : Type 0 where
  pub engine : Engine
  pub machinery : Machinery
  pub update : Option String
  pub status_update : Option String
  pub create : Option String
  pub patch : Option String

abbrev pub town_versions : List TableVersion
town_versions = record { table = "desired_town"; version = 1 } ∷ []

unfoldable pub town_row : GasTown → TownRow
town_row gt = record {
  name = gt.meta.name;
  home = gt.spec.home;
  mayor_model = or_text gt.spec.defaults.mayor_model "claude-opus-4-6";
  polecat_model = or_text gt.spec.defaults.polecat_model "claude-sonnet-4-6";
  max_polecats = or_number gt.spec.defaults.max_polecats (pos 20);
}

abbrev pub town_writes : Engine → GasTown → List Write
town_writes e gt =
    upsert_topology_versions e town_versions
    ++ (upsert_topology_lock ∷ write (upsert_town (town_row gt)) "upsert desired_town: " ∷ [])

-- `syncToDolt`
unfoldable pub sync_to_dolt : Engine → GasTown → Tables → Result String String × Tables
unfolding town_row
sync_to_dolt e gt t = elim (check_topology_lock e t) [
  | err x ↦ (err x, t)
  | ok _ ↦ with_hash e (transaction e (town_writes e gt) t)
]

abbrev pub delete_writes : Engine → String → List Write
delete_writes e name =
    upsert_topology_versions e town_versions
    ++ (write (delete_town name) "delete desired_town: " ∷ [])

-- `deleteFromDolt`. The advisory lock is neither checked nor taken.
unfoldable pub delete_from_dolt : Engine → String → Tables → Result String (Unit {0}) × Tables
delete_from_dolt e name t = transaction e (delete_writes e name) t

abbrev pub surveyor_deployment_name : String → String
surveyor_deployment_name name = name <> "-surveyor"

abbrev pub surveyor_labels : String → List (String × String)
surveyor_labels instance_name =
    ("app.kubernetes.io/name", "surveyor")
    ∷ ("app.kubernetes.io/instance", instance_name)
    ∷ ("app.kubernetes.io/component", "surveyor")
    ∷ []

abbrev secret_names : Option LocalRef → List String
secret_names none = []
secret_names (some ref) = ref.name ∷ []

-- `desired`
unfoldable pub surveyor_deployment : GasTown → LocalRef → DoltInstance → Deployment
surveyor_deployment gt claude_md inst = record {
  name = surveyor_deployment_name gt.meta.name;
  namespace = gt.spec.dolt_ref.namespace;
  spec = record {
    replicas = pos 1;
    labels = surveyor_labels gt.meta.name;
    container = record {
      name = "surveyor";
      image = or_text gt.spec.agents.surveyor_image "ghcr.io/tenev/gastown-surveyor:latest";
      env = ("DOLT_ENDPOINT", inst.status.endpoint) ∷ [];
      mounts = ("claude-md", "/gt/CLAUDE.md", "CLAUDE.md") ∷ [];
      env_from = secret_names gt.spec.secrets_ref;
      resources = gt.spec.agents.surveyor_resources;
    };
    volumes = ("claude-md", claude_md.name) ∷ [];
  };
}

-- A deployment that is there gets the desired spec, and keeps its name.
abbrev apply_deployment : Client → Deployment → Fetch Deployment → Option String × Option Deployment
apply_deployment c desired (not_found x) = elim c.create [
  | some x ↦ (some ("create surveyor deployment: " <> x), none)
  | none ↦ (none, some desired)
]
apply_deployment c desired (failed x) = (some ("get surveyor deployment: " <> x), none)
apply_deployment c desired (found existing) = elim c.patch [
  | some x ↦ (some ("patch surveyor deployment: " <> x), some existing)
  | none ↦ (none, some (record existing { spec = desired.spec }))
]

-- `reconcileSurveyor`: the error, and the deployment as far as it is known.
unfoldable pub reconcile_surveyor :
    Client → GasTown → Fetch Deployment → Option String × Option Deployment
unfolding surveyor_deployment
reconcile_surveyor c gt existing = elim gt.spec.agents.surveyor_claude_md_ref [
  | none ↦ (some "spec.agents.surveyorClaudeMdRef is required when surveyor=true", none)
  | some claude_md ↦
      elim (get_or_fail (c.engine.get_instance gt.spec.dolt_ref)
        "get doltinstance for surveyor: ") [
          | err x ↦ (some x, none)
          | ok inst ↦ apply_deployment c (surveyor_deployment gt claude_md inst) existing
        ]
]

abbrev pub gas_town_cleanup_finalizer : String
gas_town_cleanup_finalizer = "gastown.io/town-cleanup"

abbrev pub has_finalizer : Client → GasTown → Bool
has_finalizer c gt = c.machinery.contains_finalizer gt.meta.finalizers gas_town_cleanup_finalizer

abbrev pub without_finalizer : Client → GasTown → GasTown
without_finalizer c gt = record gt {
  meta = record gt.meta {
    finalizers = c.machinery.remove_finalizer gt.meta.finalizers gas_town_cleanup_finalizer;
  };
}

abbrev pub with_finalizer : Client → GasTown → GasTown
with_finalizer c gt = record gt {
  meta = record gt.meta {
    finalizers = c.machinery.add_finalizer gt.meta.finalizers gas_town_cleanup_finalizer;
  };
}
