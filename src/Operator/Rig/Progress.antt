-- ===== src/Operator/Rig/Progress.antt =====
-- On a database that answers, with the lock free: a sync is made, and a drain ends once the rig has
-- stopped.
use landman.Base.{String, ◌≡◌, ◌∙◌, ap, true, false, none, some, ok, arith}
use landman.Operator.Types.{Rig}
use landman.Operator.Tables.{Tables, run_all}
use landman.Operator.Dolt.{Engine, is_locked_out, commit_hash, statements}
use landman.Operator.Dolt.Laws.{IsReliable, transaction_reliable, check_topology_lock_free}
use landman.Operator.Rig.{
  Client, ResolvedRigDefaults, sync_to_dolt, sync_writes, set_rig_disabled, disable_writes,
  is_rig_stopped,
}
use landman.Operator.Rig.Sync.{synced, sync_writes-run}
use landman.Operator.Rig.Drain.{HasStopped}
use landman.Operator.Rig.Reconcile.{
  handle_deletion, has_finalizer, without_finalizer, connect_for_drain,
}

-- On a database where no call fails and whose lock is free, syncToDolt ends without an error,
-- returns the hash of the commit, and leaves the tables with all its statements applied.
pub sync_to_dolt_reliable :
    (e : Engine) (rig : Rig) (resolved : ResolvedRigDefaults) (t : Tables)
    → IsReliable e
    → is_locked_out t.lock e.now ≡ false
    → sync_to_dolt e rig resolved t
      ≡ (ok (commit_hash e (synced e rig resolved t)), synced e rig resolved t)
unfolding sync_to_dolt
sync_to_dolt_reliable e rig resolved t reliable free =
    ground (
      arith,
      check_topology_lock_free e t reliable free,
      transaction_reliable e (sync_writes e rig resolved) t reliable,
    )
    ∙ ap (λ t'. (ok (commit_hash e t'), t')) (sync_writes-run e rig resolved t)

set_rig_disabled_reliable :
    (c : Client) (name : String) (t : Tables)
    → IsReliable c.engine
    → is_locked_out t.lock c.engine.now ≡ false
    → set_rig_disabled c.engine name t
      ≡ (ok tt, run_all c.engine.now (statements (disable_writes c.engine name)) t)
unfolding set_rig_disabled
set_rig_disabled_reliable c name t reliable free = ground (
  arith,
  check_topology_lock_free c.engine t reliable free,
  transaction_reliable c.engine (disable_writes c.engine name) t reliable,
)

is_rig_stopped_of :
    (c : Client) (name : String) → HasStopped c name → is_rig_stopped c name ≡ ok true
unfolding is_rig_stopped
is_rig_stopped_of c name stopped = ground arith

-- On a database where no call fails and whose lock is free, with a connection and an API server
-- that takes the update, the deletion handler of a rig that has its finalizer and has stopped
-- takes the finalizer off.
pub handle_deletion_stopped :
    (c : Client) (rig : Rig) (t : Tables) (endpoint : String)
    → IsReliable c.engine
    → is_locked_out t.lock c.engine.now ≡ false
    → connect_for_drain c rig ≡ ok endpoint
    → HasStopped c rig.meta.name
    → has_finalizer c rig ≡ true
    → c.update ≡ none
    → (handle_deletion c rig t).object ≡ some (without_finalizer c rig)
unfolding handle_deletion
handle_deletion_stopped c rig t endpoint reliable free connected stopped finalizer updates =
    ground (
      arith,
      set_rig_disabled_reliable c rig.meta.name t reliable free,
      is_rig_stopped_of c rig.meta.name stopped,
    )
