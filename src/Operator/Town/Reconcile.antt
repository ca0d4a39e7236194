-- ===== src/Operator/Town/Reconcile.antt =====
-- The reconcile loop of the GasTown controller and its finalizer
-- (pkg/k8s/operator/controllers/gastown_controller.go).
use landman.Base.{String, ◌<>◌, not, Option, none, some, [], ◌∷◌, Result, ok, err, if◌then◌else◌}
use landman.Operator.Types.{GasTown, Fetch, found, not_found, failed}
use landman.Operator.Tables.{Tables}
use landman.Operator.Dolt.{open_dolt_connection_from_spec}
use landman.Operator.Machinery.{
  CtrlResult, done, again, after_seconds, event, Outcome, outcome, written,
}
use landman.Operator.Town.{
  Client, Deployment, sync_to_dolt, delete_from_dolt, reconcile_surveyor, has_finalizer,
  with_finalizer, without_finalizer,
}

abbrev pub release : Client → GasTown → Result String (Unit {0}) × Tables → Outcome GasTown
release c gt (err x, t) = outcome done (some ("delete from dolt: " <> x)) (some gt) t []
release c gt (ok _, t) =
    outcome done (elim c.update [ none ↦ none | some x ↦ some ("remove finalizer: " <> x) ])
      (some (written c.update gt (without_finalizer c gt))) t []

abbrev pub delete_connected : Client → GasTown → Tables → Result String String → Outcome GasTown
delete_connected c gt t (err x) =
    outcome (after_seconds 10) (some ("dolt not ready during deletion: " <> x)) (some gt) t []
delete_connected c gt t (ok _) = release c gt (delete_from_dolt c.engine gt.meta.name t)

-- `handleDeletion`
unfoldable pub handle_deletion : Client → GasTown → Tables → Outcome GasTown
unfolding delete_from_dolt
handle_deletion c gt t =
    if has_finalizer c gt
    then delete_connected c gt t (open_dolt_connection_from_spec c.engine gt.spec.dolt_ref)
    else outcome done none (some gt) t []

-- `setCondition`
abbrev pub with_condition : Client → GasTown → String → String → String → String → GasTown
with_condition c gt condition_type status reason message = record gt {
  status = record gt.status {
    conditions = c.machinery.set_status_condition gt.status.conditions (record {
      condition_type = condition_type;
      status = status;
      observed_generation = gt.meta.generation;
      reason = reason;
      message = message;
    });
  };
}

-- A reconcile that stops with a condition false; the error of the status update is only logged.
abbrev stopped :
    Client
    → GasTown
    → Tables
    → CtrlResult
    → Option String
    → String
    → String
    → String
    → String
    → Outcome GasTown
stopped c gt t result error condition_type reason event_reason message =
    outcome result error
      (some
        (written c.status_update gt (with_condition c gt condition_type "False" reason message)))
      t (event "Warning" event_reason message ∷ [])

abbrev synced_status : Client → GasTown → String → GasTown
synced_status c gt commit =
    with_condition c
      (record gt {
        status = record gt.status {
          dolt_commit = commit;
          observed_generation = gt.meta.generation;
        };
      })
      "DesiredTopologyInSync" "True" "Synced" "desired_town written successfully"

-- Step 7.
abbrev report_sync : Client → GasTown → String → Tables → Outcome GasTown
report_sync c gt commit t = elim c.status_update [
  | some x ↦ outcome done (some ("update status: " <> x)) (some gt) t []
  | none ↦ outcome done none (some (synced_status c gt commit)) t (
      event "Normal" "Synced" ("desired_town written successfully (commit " <> (commit <> ")"))
      ∷ [])
]

-- Step 6, and what follows it.
abbrev pub report_surveyor :
    Client
    → GasTown
    → String
    → Tables
    → Option String × Option Deployment
    → Outcome GasTown × Option Deployment
report_surveyor c gt commit t (some x, d) =
    (stopped c gt t done (some x) "SurveyorRunning" "ReconcileError" "SurveyorError" x, d)
report_surveyor c gt commit t (none, d) = (report_sync c gt commit t, d)

abbrev current : Fetch Deployment → Option Deployment
current (found d) = some d
current (not_found x) = none
current (failed x) = none

-- Steps 5 to 7. Where no surveyor is wanted, its deployment is left as it is.
abbrev pub after_sync :
    Client
    → GasTown
    → Fetch Deployment
    → Result String String × Tables
    → Outcome GasTown × Option Deployment
after_sync c gt existing (err x, t) = (
  stopped c gt t done (some x) "DesiredTopologyInSync" "DoltWriteFailed" "DoltWriteFailed" x,
  current existing,
)
after_sync c gt existing (ok commit, t) =
    if gt.spec.agents.surveyor
    then report_surveyor c gt commit t (reconcile_surveyor c gt existing)
    else (report_sync c gt commit t, current existing)

-- Step 4.
abbrev pub reconcile_connected :
    Client
    → GasTown
    → Fetch Deployment
    → Tables
    → Result String String
    → Outcome GasTown × Option Deployment
reconcile_connected c gt existing t (err x) = (
  stopped c gt t (after_seconds 10) none "DesiredTopologyInSync" "DoltNotReady" "DoltNotReady" x,
  current existing,
)
reconcile_connected c gt existing t (ok _) = after_sync c gt existing (sync_to_dolt c.engine gt t)

abbrev add_cleanup_finalizer : Client → GasTown → Tables → Outcome GasTown
add_cleanup_finalizer c gt t = elim c.update [
  | some x ↦ outcome done (some ("add finalizer: " <> x)) (some gt) t []
  | none ↦ outcome again none (some (with_finalizer c gt)) t []
]

-- `Reconcile`, with the answers of the API server to the reads of the town and of its surveyor's
-- deployment.
unfoldable pub reconcile :
    Client → Fetch GasTown → Fetch Deployment → Tables → Outcome GasTown × Option Deployment
unfolding handle_deletion sync_to_dolt reconcile_surveyor
reconcile c (not_found x) existing t = (outcome done none none t [], current existing)
reconcile c (failed x) existing t =
    (outcome done (some ("get gastown: " <> x)) none t [], current existing)
reconcile c (found gt) existing t =
    if gt.meta.deleting
    then (handle_deletion c gt t, current existing)
    else if not (has_finalizer c gt)
    then (add_cleanup_finalizer c gt t, current existing)
    else reconcile_connected c gt existing t
        (open_dolt_connection_from_spec c.engine gt.spec.dolt_ref)
