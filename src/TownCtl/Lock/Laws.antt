-- ===== src/TownCtl/Lock/Laws.antt =====
-- What the lock gives to applies that do not overlap (pkg/townctl/dolt.go, CheckTopologyLock).
use landman.Base.{
  ◌≡◌, refl, subst, ◌⊎◌, Option, none, some, List, [], ◌∷◌, ◌++◌, arith, ◌-ℤ◌, ◌≤ℤ◌, ok, err,
  Result,
}
use landman.Surveyor.Config.{sub_time}
use landman.TownCtl.Lock.{
  LockRow, LockError, Attempt, topology_lock_ttl, check_topology_lock, apply_under_lock, serial,
}

-- The row is the writer's own, or as old as the TTL when the writer checks it.
abbrev IsClear : Option LockRow → Attempt → Type 0
IsClear none a = Unit
IsClear (some row) a =
    (row.holder ≡ a.holder) ⊎ (topology_lock_ttl ≤ℤ a.checked_at -ℤ row.acquired_at)

abbrev row_of : Attempt → LockRow
row_of a = record { holder = a.holder; acquired_at = a.committed_at }

-- Each apply of a log is clear of the one before it.
abbrev IsSpaced : Option LockRow → List Attempt → Type 0
IsSpaced row [] = Unit
IsSpaced row (a ∷ log) = IsClear row a × IsSpaced (some (row_of a)) log

apply_under_lock-IsClear :
    (row : Option LockRow) (a : Attempt) {taken : LockRow}
    → apply_under_lock row a ≡ ok taken
    → IsClear row a × (taken ≡ row_of a)
unfolding apply_under_lock check_topology_lock sub_time
apply_under_lock-IsClear none a h = ground arith
apply_under_lock-IsClear (some row) a h = ground arith

serial-IsSpaced :
    (row : Option LockRow) (attempts : List Attempt) → IsSpaced row (serial row attempts)
unfolding serial
serial-IsSpaced row [] = tt
serial-IsSpaced row (a ∷ attempts) =
    go (λ r. serial-IsSpaced r attempts) (apply_under_lock row a) refl
  where
    go :
        ((next : Option LockRow) → IsSpaced next (serial next attempts))
        → (r : Result LockError LockRow) → apply_under_lock row a ≡ r
        → IsSpaced row
            (elim r [ err e ↦ serial row attempts | ok taken ↦ a ∷ serial (some taken) attempts ])
    go later (err e) h = later row
    go later (ok taken) h =
        let (clear, same) = apply_under_lock-IsClear row a h in
        (
          clear,
          subst (λ t. IsSpaced (some t) (serial (some taken) attempts)) same (later (some taken)),
        )

IsSpaced-neighbours :
    (row : Option LockRow) (before after : List Attempt) (a b : Attempt)
    → IsSpaced row (before ++ (a ∷ b ∷ after))
    → IsClear (some (row_of a)) b
IsSpaced-neighbours row [] after a b (_, (clear, _)) = clear
IsSpaced-neighbours row (x ∷ before) after a b (_, spaced) =
    IsSpaced-neighbours (some (row_of x)) before after a b spaced

-- When applies do not overlap, whatever row they start from: of two applies that go through one
-- right after the other, either both have the same holder, or the second checked the lock at least
-- 30 seconds after the first had written it.
pub serial_spaced :
    (row : Option LockRow) (attempts before after : List Attempt) (a b : Attempt)
    → serial row attempts ≡ before ++ (a ∷ b ∷ after)
    → (a.holder ≡ b.holder) ⊎ (topology_lock_ttl ≤ℤ b.checked_at -ℤ a.committed_at)
serial_spaced row attempts before after a b log =
    IsSpaced-neighbours row before after a b
      (subst (IsSpaced row) log (serial-IsSpaced row attempts))
