-- ===== src/Tests/Operator/Rigs.antt =====
-- The Rig controller on samples.
use landman.Base.{
  String, ◌≡◌, refl, none, some, List, [], ◌∷◌, true, false, pos, ok, str_dec, if◌then◌else◌, ◌==◌,
}
use landman.Surveyor.Config.{sub_time}
use landman.Operator.Types.{found}
use landman.Operator.Tables.{Tables, run, upsert, disable}
use landman.Operator.Tables.Laws.{AllDisabled}
use landman.Operator.Dolt.{
  transaction, exec_all, check_topology_lock, is_locked_out, condition_true,
  open_dolt_connection_from_spec,
}
use landman.Operator.Dolt.Laws.{IsReliable}
use landman.Operator.Rig.{
  Client, ResolvedRigDefaults, resolve_rig_defaults, sync_to_dolt, sync_writes, agent_cfgs,
  desired_agents, set_rig_disabled, is_rig_stopped,
}
use landman.Operator.Rig.Reconcile.{
  reconcile, reconcile_in_town, handle_deletion, connect_for_drain, without_finalizer,
}
use landman.Operator.Rig.View.{view, specified, sync_to_dolt-view}
use landman.Operator.Rig.Lifecycle.{
  World, Reach, start, next, reconciled, deleted, removed-AllDisabled, own_rows,
}
use landman.Operator.Rig.Progress.{sync_to_dolt_reliable, handle_deletion_stopped}
use landman.Operator.Rig.Sync
use landman.Operator.Webhooks.{default_rig}
use landman.Operator.Rig.Defaults.{resolve_rig_defaults-default_rig}
use landman.Operator.Types.{Rig}
use landman.Base.{inr}
use landman.Tests.Operator.{rig, town, empty, engine, machinery}

abbrev client : Client
client = record {
  engine = engine;
  machinery = machinery;
  update = none;
  status_update = none;
  actual_status = λ name. ok (some "stopped");
  count_running = λ name. ok (pos 2);
}

abbrev resolved : ResolvedRigDefaults
resolved = record { mayor_model = "opus"; polecat_model = "haiku"; max_polecats = pos 5 }

abbrev guarded : List String
guarded = "gastown.io/rig-drain" ∷ []

abbrev after_sync : Tables
after_sync = (sync_to_dolt engine (rig false guarded) resolved empty).1

synced : sync_to_dolt engine (rig false guarded) resolved empty ≡ (ok "abc", after_sync)
unfolding sync_to_dolt sync_writes agent_cfgs desired_agents transaction exec_all run upsert
    check_topology_lock is_locked_out str_dec
synced = refl

sync_to_dolt-view_example :
    view "alpha" after_sync
    ≡ (if "alpha" == "alpha" then specified (rig false guarded) resolved else view "alpha" empty)
sync_to_dolt-view_example =
    sync_to_dolt-view engine (rig false guarded) resolved empty after_sync "abc" "alpha" tt synced

reliable : IsReliable engine
reliable = record { reads_lock = refl; begins = refl; execs = λ s t. refl; commits = λ t. refl }

sync_to_dolt_reliable_example :
    sync_to_dolt engine (rig false guarded) resolved empty
    ≡ (ok "abc", Sync.synced engine (rig false guarded) resolved empty)
unfolding is_locked_out
sync_to_dolt_reliable_example =
    sync_to_dolt_reliable engine (rig false guarded) resolved empty reliable refl

handle_deletion_stopped_example :
    (handle_deletion client (rig true guarded) after_sync).object
    ≡ some (without_finalizer client (rig true guarded))
unfolding sync_to_dolt sync_writes agent_cfgs desired_agents transaction exec_all run upsert
    check_topology_lock is_locked_out str_dec connect_for_drain open_dolt_connection_from_spec
    condition_true
handle_deletion_stopped_example =
    handle_deletion_stopped client (rig true guarded) after_sync "db.gt:3306" reliable refl refl
      (inr refl) refl refl

-- From its creation to its end: the finalizer, a sync, the deletion, the drain.
abbrev born : World
born = record { rig = rig false []; tables = empty }

abbrev stored : Rig
stored = record (rig false guarded) {
  status = record {
    conditions =
        record {
          condition_type = "DesiredTopologyInSync";
          status = "True";
          observed_generation = pos 1;
          reason = "Synced";
          message = "desired_rigs written successfully";
        }
        ∷ [];
    dolt_commit = "abc";
    observed_generation = pos 1;
    running_polecats = pos 0;
    rig_health = "";
  };
}

abbrev registered : World
registered = record {
  rig = rig false guarded;
  tables = (reconcile client (found (rig false [])) empty).tables;
}

abbrev written_out : World
written_out = record {
  rig = stored;
  tables = (reconcile client (found registered.rig) registered.tables).tables;
}

abbrev dying : World
dying = record written_out { rig = record stored { meta = record stored.meta { deleting = true } } }

abbrev drained : World
drained = record {
  rig = without_finalizer client dying.rig;
  tables = (reconcile client (found dying.rig) dying.tables).tables;
}

life : Reach machinery born drained
unfolding reconcile reconcile_in_town handle_deletion resolve_rig_defaults set_rig_disabled
    is_rig_stopped sync_to_dolt sync_writes agent_cfgs desired_agents transaction exec_all run
    upsert disable check_topology_lock is_locked_out str_dec connect_for_drain
    open_dolt_connection_from_spec condition_true sub_time
life =
    next
      (next
        (next (next start (reconciled client born (rig false guarded) refl refl))
          (reconciled client registered stored refl refl))
        (deleted written_out))
      (reconciled client dying drained.rig refl refl)

removed-AllDisabled_example : AllDisabled (own_rows drained.rig drained.tables)
unfolding str_dec
removed-AllDisabled_example = removed-AllDisabled machinery refl life refl

-- The row is there, and disabled.
drained_row :
    own_rows drained.rig drained.tables
    ≡ record { name = "alpha"; repo = "/src/alpha"; branch = "main"; enabled = false } ∷ []
unfolding reconcile reconcile_in_town handle_deletion resolve_rig_defaults set_rig_disabled
    is_rig_stopped sync_to_dolt sync_writes agent_cfgs desired_agents transaction exec_all run
    upsert disable check_topology_lock is_locked_out str_dec connect_for_drain
    open_dolt_connection_from_spec condition_true sub_time
drained_row = refl

resolve_rig_defaults-default_rig_example :
    resolve_rig_defaults (default_rig town.spec.defaults (rig false [])) town
    ≡ resolve_rig_defaults (rig false []) town
resolve_rig_defaults-default_rig_example = resolve_rig_defaults-default_rig (rig false []) town
