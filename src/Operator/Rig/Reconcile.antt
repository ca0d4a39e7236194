-- ===== src/Operator/Rig/Reconcile.antt =====
-- The reconcile loop of the Rig controller, its finalizer and its status
-- (pkg/k8s/operator/controllers/rig_controller.go).
use landman.Base.{
  String, ◌<>◌, Bool, true, false, not, ◌||◌, Option, none, some, [], ◌∷◌, ℤ, pos, Result, ok, err,
  ◌>>=◌, ◌==◌, if◌then◌else◌, eqb_ℤ,
}
use landman.Operator.Types.{Rig, GasTown, Fetch, found, not_found, failed}
use landman.Operator.Tables.{Tables}
use landman.Operator.Dolt.{get_or_fail, open_dolt_connection_from_spec}
use landman.Operator.Machinery.{
  CtrlResult, done, again, after_seconds, Event, event, Outcome, outcome, written,
}
use landman.Operator.Rig.{
  Client, sync_to_dolt, resolve_rig_defaults, set_rig_disabled, is_rig_stopped, rig_drain_finalizer,
}

abbrev pub has_finalizer : Client → Rig → Bool
has_finalizer c rig = c.machinery.contains_finalizer rig.meta.finalizers rig_drain_finalizer

abbrev pub without_finalizer : Client → Rig → Rig
without_finalizer c rig = record rig {
  meta = record rig.meta {
    finalizers = c.machinery.remove_finalizer rig.meta.finalizers rig_drain_finalizer;
  };
}

abbrev with_finalizer : Client → Rig → Rig
with_finalizer c rig = record rig {
  meta = record rig.meta {
    finalizers = c.machinery.add_finalizer rig.meta.finalizers rig_drain_finalizer;
  };
}

abbrev drain_started : Event
drain_started =
    event "Normal" "DrainStarted" "rig marked disabled in desired_rigs; waiting for agents to stop"

abbrev drain_complete : Event
drain_complete = event "Normal" "DrainComplete" "rig agents stopped; removing drain finalizer"

-- The end of a drain, once the rig has stopped.
abbrev remove_drain_finalizer : Client → Rig → Tables → Outcome Rig
remove_drain_finalizer c rig t =
    outcome done (elim c.update [ none ↦ none | some x ↦ some ("remove finalizer: " <> x) ])
      (some (written c.update rig (without_finalizer c rig))) t
      (drain_started ∷ drain_complete ∷ [])

abbrev pub await_stop : Client → Rig → Result String Bool → Tables → Outcome Rig
await_stop c rig (err x) t =
    outcome done (some ("drain: check actual_rigs: " <> x)) (some rig) t (drain_started ∷ [])
await_stop c rig (ok false) t = outcome (after_seconds 10) none (some rig) t (drain_started ∷ [])
await_stop c rig (ok true) t = remove_drain_finalizer c rig t

abbrev pub drain : Client → Rig → Result String (Unit {0}) × Tables → Outcome Rig
drain c rig (err x, t) = outcome done (some ("drain: disable rig: " <> x)) (some rig) t []
drain c rig (ok _, t) = await_stop c rig (is_rig_stopped c rig.meta.name) t

-- The connection for a drain: the parent's instance.
unfoldable pub connect_for_drain : Client → Rig → Result String String
connect_for_drain c rig = do
  gt ← get_or_fail (c.engine.get_gas_town rig.spec.town_ref) "get gastown during drain: "
  elim (open_dolt_connection_from_spec c.engine gt.spec.dolt_ref) [
    | ok endpoint ↦ ok endpoint
    | err x ↦ err ("dolt not ready during drain: " <> x)
  ]

-- A deletion once the connection has been tried.
abbrev pub delete_connected : Client → Rig → Tables → Result String String → Outcome Rig
delete_connected c rig t (err x) = outcome (after_seconds 10) (some x) (some rig) t []
delete_connected c rig t (ok _) = drain c rig (set_rig_disabled c.engine rig.meta.name t)

-- `handleDeletion`
unfoldable pub handle_deletion : Client → Rig → Tables → Outcome Rig
unfolding set_rig_disabled is_rig_stopped connect_for_drain
handle_deletion c rig t =
    if has_finalizer c rig
    then delete_connected c rig t (connect_for_drain c rig)
    else outcome done none (some rig) t []

-- `setCondition`
abbrev with_condition : Client → Rig → String → String → String → Rig
with_condition c rig status reason message = record rig {
  status = record rig.status {
    conditions = c.machinery.set_status_condition rig.status.conditions (record {
      condition_type = "DesiredTopologyInSync";
      status = status;
      observed_generation = rig.meta.generation;
      reason = reason;
      message = message;
    });
  };
}

-- A reconcile that stops with the condition false; the error of the status update is only logged.
abbrev not_in_sync :
    Client → Rig → Tables → CtrlResult → Option String → String → String → Outcome Rig
not_in_sync c rig t result error reason message =
    outcome result error
      (some (written c.status_update rig (with_condition c rig "False" reason message))) t
      (event "Warning" reason message ∷ [])

abbrev synced_status : Client → Rig → String → Rig
synced_status c rig commit =
    with_condition c
      (record rig {
        status = record rig.status {
          dolt_commit = commit;
          observed_generation = rig.meta.generation;
        };
      })
      "True" "Synced" "desired_rigs written successfully"

-- Steps 6 and 7.
abbrev report_sync : Client → Rig → Result String String × Tables → Outcome Rig
report_sync c rig (err x, t) = not_in_sync c rig t done (some x) "DoltWriteFailed" x
report_sync c rig (ok commit, t) = elim c.status_update [
  | some x ↦ outcome done (some ("update status: " <> x)) (some rig) t []
  | none ↦ outcome done none (some (synced_status c rig commit)) t (
      event "Normal" "Synced" ("desired_rigs written successfully (commit " <> (commit <> ")"))
      ∷ [])
]

-- Steps 4 and 5. Any error of the read of the parent counts as not found.
unfoldable pub reconcile_in_town : Client → Rig → Fetch GasTown → Tables → Outcome Rig
unfolding sync_to_dolt resolve_rig_defaults
reconcile_in_town c rig (found gt) t =
    elim (open_dolt_connection_from_spec c.engine gt.spec.dolt_ref) [
      | err x ↦ not_in_sync c rig t (after_seconds 10) none "DoltNotReady" x
      | ok _ ↦ report_sync c rig (sync_to_dolt c.engine rig (resolve_rig_defaults rig gt) t)
    ]
reconcile_in_town c rig _ t =
    not_in_sync c rig t (after_seconds 10) none "GasTownNotFound"
      ("gastown " <> (c.engine.quote rig.spec.town_ref <> " not found"))

abbrev add_drain_finalizer : Client → Rig → Tables → Outcome Rig
add_drain_finalizer c rig t = elim c.update [
  | some x ↦ outcome done (some ("add finalizer: " <> x)) (some rig) t []
  | none ↦ outcome again none (some (with_finalizer c rig)) t []
]

-- `Reconcile`, with the answer of the API server to the read of the rig.
unfoldable pub reconcile : Client → Fetch Rig → Tables → Outcome Rig
unfolding handle_deletion reconcile_in_town
reconcile c (not_found x) t = outcome done none none t []
reconcile c (failed x) t = outcome done (some ("get rig: " <> x)) none t []
reconcile c (found rig) t =
    if rig.meta.deleting
    then handle_deletion c rig t
    else if has_finalizer c rig
    then reconcile_in_town c rig (c.engine.get_gas_town rig.spec.town_ref) t
    else add_drain_finalizer c rig t

unfoldable pub rig_status_to_health : String → String
rig_status_to_health status =
    if status == "running"
    then "healthy"
    else if status == "degraded"
    then "degraded"
    else "unknown"

-- A count that cannot be read is 0.
abbrev or_zero : Result String ℤ → ℤ
or_zero (ok n) = n
or_zero (err x) = pos 0

-- `patchStatusFromActual`: the error, and the rig as it is stored.
unfoldable pub patch_status_from_actual : Client → Rig → Option String × Rig
unfolding rig_status_to_health
patch_status_from_actual c rig = elim (c.actual_status rig.meta.name) [
  | err x ↦ (some ("query actual_rigs: " <> x), rig)
  | ok none ↦ (none, rig)
  | ok (some status) ↦
      let health = rig_status_to_health status in
      let running = or_zero (c.count_running rig.meta.name) in
      if not (health == rig.status.rig_health) || not (eqb_ℤ running rig.status.running_polecats)
      then (
        elim c.status_update [ none ↦ none | some x ↦ some ("update status: " <> x) ],
        written c.status_update rig (record rig {
          status = record rig.status { rig_health = health; running_polecats = running };
        }),
      )
      else (none, rig)
]
