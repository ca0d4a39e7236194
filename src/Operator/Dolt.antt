-- ===== src/Operator/Dolt.antt =====
-- Connections, the advisory lock and transactions (pkg/k8s/operator/controllers/dolt.go and
-- `openDoltConnectionFromSpec` of gastown_controller.go). The SQL driver, the clock and `%q` are
-- parameters, and each of them may fail anywhere.
pub mod Laws
use landman.Base.{
  String, ◌<>◌, Bool, true, false, not, ◌&&◌, ◌||◌, Option, none, some, List, [], ◌∷◌, ◌*◌, ℤ, pos,
  ltb_ℤ, Result, ok, err, ◌>>=◌, ◌>>◌, fail_if, ◌==◌,
}
use landman.Surveyor.Config.{sub_time, second}
use landman.TownCtl.Lock.{LockRow}
use landman.Operator.Types.{
  NamespacedRef, GasTown, DoltInstance, Condition, Fetch, found, not_found, failed,
}
use landman.Operator.Tables.{
  Tables, Statement, TableVersion, upsert_version, upsert_lock, run, run_all,
}

pub record Engine : Type 0 where
  pub quote : String → String
  pub duration : ℤ → String
  pub now : ℤ
  pub get_gas_town : String → Fetch GasTown
  pub get_instance : NamespacedRef → Fetch DoltInstance
  -- the error of `sql.Open`, and of `PingContext`
  pub sql_open : String → Option String
  pub ping : String → Option String
  pub read_lock : Option String
  pub begin : Option String
  pub exec : Statement → Tables → Option String
  pub commit : Tables → Option String
  -- `SELECT dolt_hashof('HEAD')`
  pub head : Tables → Result String String

-- `if err := f(); err != nil { return fmt.Errorf("...: %w", err) }`
abbrev pub failing : Option String → String → Result String (Unit {0})
failing none context = ok tt
failing (some e) context = err (context <> e)

abbrev pub get_or_fail {ℓ} : {A : Type ℓ} → Fetch A → String → Result String A
get_or_fail (found a) context = ok a
get_or_fail (not_found e) context = err (context <> e)
get_or_fail (failed e) context = err (context <> e)

abbrev pub is_true_condition : String → Condition → Bool
is_true_condition t c = (c.condition_type == t) && (c.status == "True")

-- `conditionTrue`, and the loop of `doltInstanceReady`
unfoldable pub condition_true : List Condition → String → Bool
condition_true [] t = false
condition_true (c ∷ cs) t = is_true_condition t c || condition_true cs t

abbrev pub dolt_instance_ready : DoltInstance → Bool
dolt_instance_ready inst = condition_true inst.status.conditions "Ready"

-- The endpoint that a connection is open to.
unfoldable pub open_dolt_connection_from_spec : Engine → NamespacedRef → Result String String
unfolding condition_true
open_dolt_connection_from_spec e ref = do
  inst ← get_or_fail (e.get_instance ref) ("get doltinstance " <> (e.quote ref.name <> ": "))
  fail_if (not (dolt_instance_ready inst))
      ("doltinstance " <> (e.quote ref.name <> " is not ready"))
  fail_if (inst.status.endpoint == "")
      ("doltinstance " <> (e.quote ref.name <> " has empty endpoint"))
  failing (e.sql_open ("root@tcp(" <> (inst.status.endpoint <> ")/gastown?parseTime=true")))
      ("open dolt connection to " <> (e.quote inst.status.endpoint <> ": "))
  failing (e.ping inst.status.endpoint) ("ping dolt at " <> (e.quote inst.status.endpoint <> ": "))
  ok inst.status.endpoint

-- The namespace is not used: a GasTown is cluster-scoped.
unfoldable pub open_dolt_connection : Engine → String → String → Result String String
unfolding open_dolt_connection_from_spec
open_dolt_connection e gastown_name namespace = do
  gt ← get_or_fail (e.get_gas_town gastown_name) ("get gastown " <> (e.quote gastown_name <> ": "))
  open_dolt_connection_from_spec e gt.spec.dolt_ref

abbrev pub topology_lock_ttl : ℤ
topology_lock_ttl = pos (30 * second)

abbrev pub topology_lock_holder : String
topology_lock_holder = "gastown-operator"

-- Another component holds the lock, and not for long enough.
unfoldable pub is_locked_out : Option LockRow → ℤ → Bool
is_locked_out none now = false
is_locked_out (some row) now =
    not (row.holder == topology_lock_holder)
    && ltb_ℤ (sub_time now row.acquired_at) topology_lock_ttl

abbrev lock_error : Engine → Option LockRow → String
lock_error e none = ""
lock_error e (some row) =
    "desired topology locked by "
    <> (e.quote row.holder
        <> (" (" <> (e.duration (sub_time e.now row.acquired_at) <> " ago); requeuing")))

unfoldable pub check_topology_lock : Engine → Tables → Result String (Unit {0})
unfolding is_locked_out
check_topology_lock e t = do
  failing e.read_lock "topology lock: read: "
  fail_if (is_locked_out t.lock e.now) (lock_error e t.lock)

-- A statement, with the words that its error is wrapped in.
pub record Write : Type 0 where
  pub statement : Statement
  pub context : String

abbrev pub write : Statement → String → Write
write s context = record { statement = s; context = context }

abbrev pub statements : List Write → List Statement
statements [] = []
statements (w ∷ ws) = w.statement ∷ statements ws

-- `upsertTopologyVersions`
abbrev pub upsert_topology_versions : Engine → List TableVersion → List Write
upsert_topology_versions e [] = []
upsert_topology_versions e (v ∷ vs) =
    write (upsert_version v) ("upsert topology version for " <> (e.quote v.table <> ": "))
    ∷ upsert_topology_versions e vs

-- `upsertTopologyLock`
abbrev pub upsert_topology_lock : Write
upsert_topology_lock = write (upsert_lock topology_lock_holder) "upsert topology lock: "

-- The statements up to the first that fails.
unfoldable pub exec_all : Engine → List Write → Tables → Result String Tables
unfolding run
exec_all e [] t = ok t
exec_all e (w ∷ ws) t =
    let rest = exec_all e ws (run e.now w.statement t) in
    elim (e.exec w.statement t) [ none ↦ rest | some x ↦ err (w.context <> x) ]

-- `BeginTx`, the statements, `Commit`; the tables as they are read afterwards. `Rollback` is
-- deferred, so an error leaves the tables as they were.
unfoldable pub transaction : Engine → List Write → Tables → Result String (Unit {0}) × Tables
unfolding exec_all
transaction e ws t = elim (failing e.begin "begin transaction: " >> exec_all e ws t) [
  | err x ↦ (err x, t)
  | ok t' ↦ elim (e.commit t') [ none ↦ (ok tt, t') | some x ↦ (err ("commit: " <> x), t) ]
]

-- The hash of the commit, or none if it cannot be read.
abbrev pub commit_hash : Engine → Tables → String
commit_hash e t = elim (e.head t) [ ok h ↦ h | err x ↦ "" ]

-- What a `syncToDolt` returns behind its transaction.
abbrev pub with_hash : Engine → Result String (Unit {0}) × Tables → Result String String × Tables
with_hash e (ok _, t) = (ok (commit_hash e t), t)
with_hash e (err x, t) = (err x, t)
