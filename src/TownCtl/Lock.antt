-- ===== src/TownCtl/Lock.antt =====
-- The advisory lock on the desired topology (pkg/townctl/dolt.go, CheckTopologyLock), and the
-- applies that check it and then take it (pkg/townctl/apply.go, applyTransaction).
pub mod Laws
use landman.Base.{
  String, Bool, not, ◌&&◌, Option, none, some, List, [], ◌∷◌, ◌*◌, ℤ, pos, ltb_ℤ, Result, ok, err,
  ◌>>◌, ◌>>=◌, fail_if, ◌==◌,
}
use landman.Surveyor.Config.{sub_time, second}

-- The row of `desired_topology_lock`.
pub record LockRow : Type 0 where
  pub holder : String
  pub acquired_at : ℤ

pub data LockError : Type 0 where
  unreadable : String → LockError
  locked_by : String → ℤ → LockError

abbrev pub topology_lock_ttl : ℤ
topology_lock_ttl = pos (30 * second)

-- The answer of the database is an error, no row, or the row.
unfoldable pub check_topology_lock :
    Result String (Option LockRow) → String → ℤ → Result LockError (Unit {0})
check_topology_lock (err e) holder now = err (unreadable e)
check_topology_lock (ok none) holder now = ok tt
check_topology_lock (ok (some row)) holder now =
    let age = sub_time now row.acquired_at in
    fail_if (not (row.holder == holder) && ltb_ℤ age topology_lock_ttl) (locked_by row.holder age)

-- One apply: who runs it, when it checks the lock, and when its transaction writes the lock.
pub record Attempt : Type 0 where
  pub holder : String
  pub checked_at : ℤ
  pub committed_at : ℤ

-- The row that the transaction leaves, where the check lets it run and the database takes it.
unfoldable pub apply_under_lock : Option LockRow → Attempt → Result LockError LockRow
unfolding check_topology_lock
apply_under_lock row a = do
  check_topology_lock (ok row) a.holder a.checked_at
  ok (record { holder = a.holder; acquired_at = a.committed_at })

-- The applies that go through when each one ends before the next begins.
unfoldable pub serial : Option LockRow → List Attempt → List Attempt
serial row [] = []
serial row (a ∷ attempts) = elim (apply_under_lock row a) [
  | err e ↦ serial row attempts
  | ok taken ↦ a ∷ serial (some taken) attempts
]
