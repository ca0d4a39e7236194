-- ===== src/Operator/Town/Laws.antt =====
-- A reconcile of a town that reports no error.
use landman.Base.{
  String, ◌≡◌, refl, sym, subst, ap, ◌∙◌, true, false, Option, none, some, List, [], ◌∷◌, Result,
  ok, err, arith, ◌==◌, pos, eqb_ℤ, if◌then◌else◌,
}
use landman.Operator.Types.{GasTown, DoltInstance, LocalRef, Fetch, found, not_found, failed}
use landman.Operator.Tables.{Tables, TownRow, rows_of, run_all}
use landman.Operator.Tables.Laws.{IsKeyed, rows_of-upsert_if}
use landman.Operator.Dolt.{Engine, open_dolt_connection_from_spec}
use landman.Operator.Dolt.Laws.{transaction-run_all}
use landman.Operator.Machinery.{Outcome, done}
use landman.Operator.Town.{
  Client, Deployment, DeploymentSpec, town_row, town_writes, sync_to_dolt, reconcile_surveyor,
  surveyor_deployment, has_finalizer,
}
use landman.Operator.Town.Reconcile.{reconcile, reconcile_connected, after_sync, report_surveyor}

abbrev pub town_rows : String → Tables → List TownRow
town_rows name t = rows_of (λ r. r.name) name t.towns

-- The pod spec of a surveyor with this CLAUDE.md, against this instance.
pub record IsSurveyor (gt : GasTown) (claude_md : LocalRef) (inst : DoltInstance)
    (spec : DeploymentSpec) : Type 0 where
  pub replicas : spec.replicas ≡ pos 1
  pub labels :
      spec.labels
      ≡ ("app.kubernetes.io/name", "surveyor")
        ∷ ("app.kubernetes.io/instance", gt.meta.name)
        ∷ ("app.kubernetes.io/component", "surveyor")
        ∷ []
  pub name : spec.container.name ≡ "surveyor"
  pub image : spec.container.image ≡ (
      if gt.spec.agents.surveyor_image == ""
      then "ghcr.io/tenev/gastown-surveyor:latest"
      else gt.spec.agents.surveyor_image)
  pub env : spec.container.env ≡ ("DOLT_ENDPOINT", inst.status.endpoint) ∷ []
  pub mounts : spec.container.mounts ≡ ("claude-md", "/gt/CLAUDE.md", "CLAUDE.md") ∷ []
  pub volumes : spec.volumes ≡ ("claude-md", claude_md.name) ∷ []
  pub env_from :
      spec.container.env_from ≡ elim gt.spec.secrets_ref [ none ↦ [] | some ref ↦ ref.name ∷ [] ]
  pub resources : spec.container.resources ≡ gt.spec.agents.surveyor_resources

surveyor_deployment-IsSurveyor :
    (gt : GasTown) (claude_md : LocalRef) (inst : DoltInstance)
    → IsSurveyor gt claude_md inst (surveyor_deployment gt claude_md inst).spec
unfolding surveyor_deployment
surveyor_deployment-IsSurveyor gt claude_md inst = record {
  replicas = refl;
  labels = refl;
  name = refl;
  image = refl;
  env = refl;
  mounts = refl;
  volumes = refl;
  env_from = ground arith;
  resources = refl;
}

-- The row that a town asks for, with the defaults where its spec has none.
abbrev pub asked_row : GasTown → TownRow
asked_row gt = record {
  name = gt.meta.name;
  home = gt.spec.home;
  mayor_model = if d.mayor_model == "" then "claude-opus-4-6" else d.mayor_model;
  polecat_model = if d.polecat_model == "" then "claude-sonnet-4-6" else d.polecat_model;
  max_polecats = if eqb_ℤ d.max_polecats (pos 0) then pos 20 else d.max_polecats;
}
  where
    open gt.spec use {defaults as d}

town_row-asked_row : (gt : GasTown) → town_row gt ≡ asked_row gt
unfolding town_row
town_row-asked_row gt = ground arith

pub sync_to_dolt-town_rows :
    (e : Engine) (gt : GasTown) (t t' : Tables) (h k : String)
    → IsKeyed (λ r. r.name) t.towns
    → sync_to_dolt e gt t ≡ (ok h, t')
    → town_rows k t' ≡ (if gt.meta.name == k then asked_row gt ∷ [] else town_rows k t)
unfolding sync_to_dolt run_all
sync_to_dolt-town_rows e gt t t' h k keyed go =
    ap (town_rows k) (transaction-run_all e (town_writes e gt) t t' (ground arith))
    ∙ rows_of-upsert_if (λ r. r.name) (town_row gt) k t.towns keyed
    ∙ ap (λ r. if gt.meta.name == k then r ∷ [] else town_rows k t) (town_row-asked_row gt)

-- The deployment runs the surveyor that the town asks for, against its own instance.
pub record IsDeployed (c : Client) (gt : GasTown) (d : Option Deployment) : Type 0 where
  pub claude_md : LocalRef
  pub instance_found : DoltInstance
  pub deployment : Deployment
  pub names_claude_md : gt.spec.agents.surveyor_claude_md_ref ≡ some claude_md
  pub names_instance : c.engine.get_instance gt.spec.dolt_ref ≡ found instance_found
  pub is_there : d ≡ some deployment
  pub runs : IsSurveyor gt claude_md instance_found deployment.spec

reconcile_surveyor-IsDeployed :
    (c : Client) (gt : GasTown) (existing : Fetch Deployment) (d : Option Deployment)
    → reconcile_surveyor c gt existing ≡ (none, d)
    → IsDeployed c gt d
unfolding reconcile_surveyor
reconcile_surveyor-IsDeployed c gt existing d h =
    go gt.spec.agents.surveyor_claude_md_ref refl (c.engine.get_instance gt.spec.dolt_ref) refl
      existing refl
  where
    go :
        (md : Option LocalRef)
        → gt.spec.agents.surveyor_claude_md_ref ≡ md
        → (inst : Fetch DoltInstance) → c.engine.get_instance gt.spec.dolt_ref ≡ inst
        → (old : Fetch Deployment) → existing ≡ old
        → IsDeployed c gt d
    go none e inst e' old e'' = absurd (ground (arith, e))
    go (some md) e (not_found x) e' old e'' = absurd (ground (arith, e, e'))
    go (some md) e (failed x) e' old e'' = absurd (ground (arith, e, e'))
    go (some md) e (found inst) e' (failed x) e'' = absurd (ground (arith, e, e', e''))
    go (some md) e (found inst) e' (not_found x) e'' = record {
      claude_md = md;
      instance_found = inst;
      deployment = surveyor_deployment gt md inst;
      names_claude_md = e;
      names_instance = e';
      is_there = ground (arith, e, e', e'');
      runs = surveyor_deployment-IsSurveyor gt md inst;
    }
    go (some md) e (found inst) e' (found there) e'' = record {
      claude_md = md;
      instance_found = inst;
      deployment = record there { spec = (surveyor_deployment gt md inst).spec };
      names_claude_md = e;
      names_instance = e';
      is_there = ground (arith, e, e', e'');
      runs = surveyor_deployment-IsSurveyor gt md inst;
    }

-- The town's row and its surveyor are as the resource asks, and no other town's row has changed.
abbrev pub Achieved :
    Client → GasTown → Tables → String → Outcome GasTown × Option Deployment → Type 0
Achieved c gt t k (o, d) =
    IsDeployed c gt d
    × (town_rows k o.tables ≡ (if gt.meta.name == k then asked_row gt ∷ [] else town_rows k t))

module _ (c : Client) (gt : GasTown) (existing : Fetch Deployment) (t : Tables) (k : String)
    (keyed : IsKeyed (λ r. r.name) t.towns) (wanted : gt.spec.agents.surveyor ≡ true) where
  report_surveyor-IsDeployed :
      (commit : String) (t' : Tables) (v : Option String × Option Deployment)
      → reconcile_surveyor c gt existing ≡ v
      → (report_surveyor c gt commit t' v).0.error ≡ none
      → IsDeployed c gt (report_surveyor c gt commit t' v).1
        × ((report_surveyor c gt commit t' v).0.tables ≡ t')
  report_surveyor-IsDeployed commit t' (some x, d) e quiet = absurd (ground arith)
  report_surveyor-IsDeployed commit t' (none, d) e quiet =
      (reconcile_surveyor-IsDeployed c gt existing d e, ground arith)

  after_sync-Achieved :
      (s : Result String String × Tables)
      → sync_to_dolt c.engine gt t ≡ s
      → (after_sync c gt existing s).0.error ≡ none
      → Achieved c gt t k (after_sync c gt existing s)
  after_sync-Achieved (err x, t') e quiet = absurd (ground arith)
  after_sync-Achieved (ok commit, t') e quiet = subst (Achieved c gt t k) (sym chosen) (
      let made =
        report_surveyor-IsDeployed commit t' (reconcile_surveyor c gt existing) refl
          (subst (λ o. o.0.error ≡ none) chosen quiet) in
      (made.0, ap (town_rows k) made.1 ∙ sync_to_dolt-town_rows c.engine gt t t' commit k keyed e))
    where
      chosen :
          after_sync c gt existing (ok commit, t')
          ≡ report_surveyor c gt commit t' (reconcile_surveyor c gt existing)
      chosen = rw wanted refl

  reconcile_connected-Achieved :
      (r : Result String String)
      → (reconcile_connected c gt existing t r).0.error ≡ none
      → (reconcile_connected c gt existing t r).0.result ≡ done
      → Achieved c gt t k (reconcile_connected c gt existing t r)
  reconcile_connected-Achieved (err x) quiet finished = absurd (ground arith)
  reconcile_connected-Achieved (ok endpoint) quiet finished =
      after_sync-Achieved (sync_to_dolt c.engine gt t) refl quiet

  -- For a town that asks for a surveyor, is not being deleted and has its finalizer, where each
  -- row of desired_town has a name of its own: a reconcile that returns no error and asks for no
  -- requeue leaves the surveyor's deployment with the pod spec made from the town and its
  -- DoltInstance (which the spec names and the API server has), one row for the town with its
  -- values, and the rows of any other town as they were.
  pub reconcile-Achieved :
      gt.meta.deleting ≡ false
      → has_finalizer c gt ≡ true
      → (reconcile c (found gt) existing t).0.error ≡ none
      → (reconcile c (found gt) existing t).0.result ≡ done
      → Achieved c gt t k (reconcile c (found gt) existing t)
  unfolding reconcile
  reconcile-Achieved stays registered quiet finished = subst (Achieved c gt t k) (sym chosen) (
      reconcile_connected-Achieved (open_dolt_connection_from_spec c.engine gt.spec.dolt_ref)
        (subst (λ o. o.0.error ≡ none) chosen quiet)
        (subst (λ o. o.0.result ≡ done) chosen finished))
    where
      chosen :
          reconcile c (found gt) existing t
          ≡ reconcile_connected c gt existing t
              (open_dolt_connection_from_spec c.engine gt.spec.dolt_ref)
      chosen = ground (arith, stays, registered)
