-- ===== src/Tests/Lock.antt =====
-- Applies under the advisory lock: in turn, and with their checks before either one's commit.
use landman.Base.{◌≡◌, refl, ◌⊎◌, none, [], ◌∷◌, ◌++◌, ◌*◌, pos, ok, str_dec, ◌≤ℤ◌, ◌-ℤ◌}
use landman.Surveyor.Config.{second, sub_time}
use landman.TownCtl.Lock.{Attempt, topology_lock_ttl, check_topology_lock, apply_under_lock, serial}
use landman.TownCtl.Lock.Laws.{serial_spaced}

abbrev first : Attempt
first = record { holder = "town-ctl"; checked_at = pos 0; committed_at = pos second }

abbrev early : Attempt
early = record {
  holder = "operator";
  checked_at = pos (10 * second);
  committed_at = pos (11 * second);
}

abbrev late : Attempt
late = record {
  holder = "operator";
  checked_at = pos (40 * second);
  committed_at = pos (41 * second);
}

early_waits : serial none (first ∷ early ∷ late ∷ []) ≡ [] ++ (first ∷ late ∷ [])
unfolding serial apply_under_lock check_topology_lock sub_time str_dec
early_waits = refl

-- A check and the write of the lock are not one step: both writers find the lock free.
both_pass :
    (check_topology_lock (ok none) first.holder (pos 0) ≡ ok tt)
    × (check_topology_lock (ok none) early.holder (pos 0) ≡ ok tt)
unfolding check_topology_lock
both_pass = (refl, refl)

serial_spaced_example :
    (first.holder ≡ late.holder) ⊎ (topology_lock_ttl ≤ℤ late.checked_at -ℤ first.committed_at)
serial_spaced_example = serial_spaced none (first ∷ early ∷ late ∷ []) [] [] first late early_waits
