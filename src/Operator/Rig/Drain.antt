-- ===== src/Operator/Rig/Drain.antt =====
-- The drain of a rig: what has to be before its finalizer goes, and when it does go.
use landman.Base.{
  String, ◌≡◌, refl, sym, ap, subst, ◌⊎◌, inl, true, false, none, some, Result, ok, err, arith, [],
  if◌then◌else◌,
}
use landman.Operator.Types.{Rig}
use landman.Operator.Tables.{Tables, rows_of, disable, run_all}
use landman.Operator.Tables.Laws.{AllDisabled, disable-AllDisabled}
use landman.Operator.Dolt.Laws.{transaction-run_all}
use landman.Operator.Machinery.{Outcome, outcome, done}
use landman.Operator.Rig.{Client, disable_writes, set_rig_disabled, is_rig_stopped}
use landman.Operator.Rig.Reconcile.{
  handle_deletion, has_finalizer, without_finalizer, drain, connect_for_drain, delete_connected,
}

pub set_rig_disabled-rigs :
    (c : Client) (name : String) (t t' : Tables)
    → set_rig_disabled c.engine name t ≡ (ok tt, t')
    → t'.rigs ≡ disable name t.rigs
unfolding set_rig_disabled run_all
set_rig_disabled-rigs c name t t' h =
    ap (λ x. x.rigs)
      (transaction-run_all c.engine (disable_writes c.engine name) t t' (ground arith))

-- The fleet reports no such rig, or that it has stopped.
abbrev pub HasStopped : Client → String → Type 0
HasStopped c name = (c.actual_status name ≡ ok none) ⊎ (c.actual_status name ≡ ok (some "stopped"))

is_rig_stopped-HasStopped :
    (c : Client) (name : String) → is_rig_stopped c name ≡ ok true → HasStopped c name
unfolding is_rig_stopped
is_rig_stopped-HasStopped c name h = ground arith

set_rig_disabled-AllDisabled :
    (c : Client) (name : String) (t t' : Tables)
    → set_rig_disabled c.engine name t ≡ (ok tt, t')
    → AllDisabled (rows_of (λ r. r.name) name t'.rigs)
set_rig_disabled-AllDisabled c name t t' h =
    subst (λ rigs. AllDisabled (rows_of (λ r. r.name) name rigs))
      (sym (set_rig_disabled-rigs c name t t' h)) (disable-AllDisabled name t.rigs)

-- The two ends of a deletion: the finalizer stays, or it goes and the rig is drained.
abbrev pub Drained : Client → Rig → Outcome Rig → Type 0
Drained c rig o =
    (o.object ≡ some rig)
    ⊎ ((o.object ≡ some (without_finalizer c rig))
        × AllDisabled (rows_of (λ r. r.name) rig.meta.name o.tables.rigs)
        × HasStopped c rig.meta.name)

drain-Drained :
    (c : Client) (rig : Rig) (t : Tables)
    → Drained c rig (drain c rig (set_rig_disabled c.engine rig.meta.name t))
drain-Drained c rig t = go (set_rig_disabled c.engine rig.meta.name t) refl
  where
    go :
        (r : Result String (Unit {0}) × Tables)
        → set_rig_disabled c.engine rig.meta.name t ≡ r
        → Drained c rig (drain c rig r)
    go (err x, t') e = inl refl
    go (ok tt, t') e = ground (
      arith,
      set_rig_disabled-AllDisabled c rig.meta.name t t' e,
      is_rig_stopped-HasStopped c rig.meta.name,
    )

delete_connected-Drained :
    (c : Client) (rig : Rig) (t : Tables) (r : Result String String)
    → Drained c rig (delete_connected c rig t r)
delete_connected-Drained c rig t (err x) = inl refl
delete_connected-Drained c rig t (ok endpoint) = drain-Drained c rig t

pub handle_deletion-Drained :
    (c : Client) (rig : Rig) (t : Tables) → Drained c rig (handle_deletion c rig t)
unfolding handle_deletion
handle_deletion-Drained c rig t =
    elim (has_finalizer c rig)
      as (λ b. Drained c rig (
        if b
        then delete_connected c rig t (connect_for_drain c rig)
        else outcome done none (some rig) t [])) [
          | true ↦ delete_connected-Drained c rig t (connect_for_drain c rig)
          | false ↦ inl refl
        ]
