-- ===== src/Operator/Dolt/Laws.antt =====
-- Transactions that go through, and those that do not.
use landman.Base.{
  String, ◌≡◌, refl, ap, inl, inr, none, List, [], ◌∷◌, ◌++◌, ok, err, Option-cases, arith, false,
}
use landman.Operator.Tables.{Tables, Statement, run, run_all}
use landman.Operator.Dolt.{
  Engine, Write, statements, exec_all, transaction, check_topology_lock, is_locked_out,
}

pub statements-append :
    (ws vs : List Write) → statements (ws ++ vs) ≡ statements ws ++ statements vs
statements-append [] vs = refl
statements-append (w ∷ ws) vs = ap (λ ss. w.statement ∷ ss) (statements-append ws vs)

pub exec_all-run_all :
    (e : Engine) (ws : List Write) (t t' : Tables)
    → exec_all e ws t ≡ ok t'
    → t' ≡ run_all e.now (statements ws) t
unfolding exec_all run_all
exec_all-run_all e [] t t' h = ground arith
exec_all-run_all e (w ∷ ws) t t' h = elim (Option-cases (e.exec w.statement t)) [
  | inl runs ↦ exec_all-run_all e ws (run e.now w.statement t) t' (ground (arith, runs))
  | inr (x, fails) ↦ absurd (ground (arith, fails))
]

-- A transaction without an error has run every statement.
pub transaction-run_all :
    (e : Engine) (ws : List Write) (t t' : Tables)
    → transaction e ws t ≡ (ok tt, t')
    → t' ≡ run_all e.now (statements ws) t
unfolding transaction
transaction-run_all e ws t t' h = ground (arith, exec_all-run_all e ws t t')

-- A transaction with an error has changed nothing.
pub transaction-err :
    (e : Engine) (ws : List Write) (t t' : Tables) (x : String)
    → transaction e ws t ≡ (err x, t')
    → t' ≡ t
unfolding transaction
transaction-err e ws t t' x h = ground arith

-- A database that answers every call without an error.
pub record IsReliable (e : Engine) : Type 0 where
  pub reads_lock : e.read_lock ≡ none
  pub begins : e.begin ≡ none
  pub execs : (s : Statement) (t : Tables) → e.exec s t ≡ none
  pub commits : (t : Tables) → e.commit t ≡ none

exec_all_reliable :
    (e : Engine) (ws : List Write) (t : Tables)
    → IsReliable e
    → exec_all e ws t ≡ ok (run_all e.now (statements ws) t)
unfolding exec_all run_all
exec_all_reliable e [] t r = refl
exec_all_reliable e (w ∷ ws) t r =
    rw (exec_all, r.execs w.statement t) (exec_all_reliable e ws (run e.now w.statement t) r)

pub transaction_reliable :
    (e : Engine) (ws : List Write) (t : Tables)
    → IsReliable e
    → transaction e ws t ≡ (ok tt, run_all e.now (statements ws) t)
unfolding transaction
transaction_reliable e ws t r =
    ground
      (arith, r.begins, exec_all_reliable e ws t r, r.commits (run_all e.now (statements ws) t))

pub check_topology_lock_free :
    (e : Engine) (t : Tables)
    → IsReliable e
    → is_locked_out t.lock e.now ≡ false
    → check_topology_lock e t ≡ ok tt
unfolding check_topology_lock
check_topology_lock_free e t r free = ground (arith, r.reads_lock)
