-- ===== src/Tests/Operator/Towns.antt =====
-- The GasTown controller on samples.
use landman.Base.{
  refl, none, some, List, [], ◌∷◌, true, pos, ok, err, Result, length, ◌≤◌, ℕ, zero, suc, arith,
  String, str_dec,
}
use landman.Operator.Types.{found, not_found}
use landman.Operator.Tables.{run, upsert}
use landman.Operator.Dolt.{
  transaction, exec_all, check_topology_lock, is_locked_out, open_dolt_connection_from_spec,
  condition_true,
}
use landman.Operator.Town.{Client, town_row, sync_to_dolt, reconcile_surveyor, surveyor_deployment}
use landman.Operator.Town.Reconcile.{reconcile}
use landman.Operator.Town.Laws.{Achieved, reconcile-Achieved}
use landman.Surveyor.Queries.{Queries, RigScan}
use landman.Operator.Town.Status.{TownStatus, patch_status_from_actual}
use landman.Operator.Town.Status.Bounds.{patch_status_from_actual_bound}
use landman.Tests.Samples.{sample_ops, float}
use landman.Tests.Operator.{town, empty, engine, machinery}

abbrev client : Client
client = record {
  engine = engine;
  machinery = machinery;
  update = none;
  status_update = none;
  create = none;
  patch = none;
}

reconcile-Achieved_example :
    Achieved client town empty "hq" (reconcile client (found town) (not_found "") empty)
unfolding reconcile sync_to_dolt town_row reconcile_surveyor surveyor_deployment transaction
    exec_all run upsert check_topology_lock is_locked_out open_dolt_connection_from_spec
    condition_true str_dec
reconcile-Achieved_example =
    reconcile-Achieved client town (not_found "") empty "hq" tt refl refl refl refl refl

abbrev unread : Queries
unread = record {
  desired_rigs = err "no such column";
  desired_agents = err "";
  desired_custom_roles = err "";
  desired_formulas = err "";
  actual_rigs = err "";
  actual_agents = err "";
  actual_worktrees = err "";
  actual_custom_roles = err "";
}

-- Thirty rigs that no one has seen.
abbrev scans : ℕ → List (Result String RigScan)
scans zero = []
scans (suc n) = ok (record { name = "rig"; enabled = true; max_polecats = pos 0 }) ∷ scans n

abbrev unseen : Queries
unseen = record unread {
  desired_rigs = ok (record { scans = scans 30; last = none });
  actual_rigs = ok (record { scans = []; last = none });
}

abbrev status : TownStatus
status = record {
  conditions = [];
  last_reconcile_at = none;
  convergence_score = float 0;
  non_converged = [];
  last_convergence_at = none;
}

patch_status_from_actual_bound_example :
    length
      (patch_status_from_actual sample_ops machinery
        (pos 1)
        (pos 5)
        (ok (some none))
        unseen
        none
        status).1.non_converged
    ≤ 20
patch_status_from_actual_bound_example =
    patch_status_from_actual_bound sample_ops machinery (pos 1) (pos 5) (ok (some none)) unseen none
      status (omega arith)
