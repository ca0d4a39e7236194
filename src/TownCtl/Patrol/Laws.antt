-- ===== src/TownCtl/Patrol/Laws.antt =====
-- The decision rules of the patrol as the documentation of ComputePatrolBeads
-- (pkg/townctl/patrol.go) states them, each by its own condition.
use landman.Base.{
  ◌≡◌, refl, ap, ◌∙◌, if◌then◌else◌, Bool, true, false, ◌&&◌, List, [], ◌∷◌, map, ℤ, pos, arith,
}
use landman.Base.{select, All, ◌⊎◌}
use landman.Base.Float.{Float64, FloatOps}
use landman.TownCtl.Patrol.{
  PatrolRow, PatrolBead, Formats, patrol_warn, patrol_drain, pct_used, drain_bead, warn_bead,
  compute_patrol_beads,
}

-- The share of its budget that a rig has spent, in percent, and 0 for a budget of 0.
abbrev pub spent : FloatOps → PatrolRow → Float64
spent ops r =
    if ops.eq r.daily_budget (ops.of_int (pos 0))
    then ops.of_int (pos 0)
    else ops.mul (ops.div r.spend r.daily_budget) (ops.of_int (pos 100))

-- pct_used >= 100
abbrev pub is_drain : FloatOps → PatrolRow → Bool
is_drain ops r = ops.le (ops.of_int (pos 100)) (spent ops r)

-- pct_used >= warn_at_pct && < 100
abbrev pub is_warn : FloatOps → PatrolRow → Bool
is_warn ops r =
    ops.le (ops.of_int r.warn_at_pct) (spent ops r) && ops.lt (spent ops r) (ops.of_int (pos 100))

abbrev pub is_drain_bead : PatrolBead → Bool
is_drain_bead b = elim b.action [ patrol_drain ↦ true | _ ↦ false ]

abbrev pub is_warn_bead : PatrolBead → Bool
is_warn_bead b = elim b.action [ patrol_warn ↦ true | _ ↦ false ]

-- How a bead of each kind is filed.
abbrev pub IsFiled : PatrolBead → Type 0
IsFiled b =
    ((b.action ≡ patrol_drain) × (b.priority ≡ 0) × (b.tag ≡ "cost-cap") × (b.assign_to ≡ ""))
    ⊎ ((b.action ≡ patrol_warn)
        × (b.priority ≡ 1)
        × (b.tag ≡ "cost-warning")
        × (b.assign_to ≡ "mayor"))

-- Facts of IEEE 754 on comparisons with integers, which are never NaN: what is at least one integer
-- is a number, and so it is below any other integer that it does not reach; and nothing that reaches
-- an integer is below it.
pub record IsOrdered (ops : FloatOps) : Type 0 where
  pub lt_of_not_le :
      (x : Float64) (a b : ℤ)
      → ops.le (ops.of_int a) x ≡ true
      → ops.le (ops.of_int b) x ≡ false
      → ops.lt x (ops.of_int b) ≡ true
  pub not_lt_of_le :
      (x : Float64) (b : ℤ) → ops.le (ops.of_int b) x ≡ true → ops.lt x (ops.of_int b) ≡ false

module _ (ops : FloatOps) (fmt : Formats) where
  drains :
      (rows : List PatrolRow)
      → select is_drain_bead (compute_patrol_beads ops fmt rows)
        ≡ map (λ r. drain_bead fmt r (spent ops r)) (select (is_drain ops) rows)
  unfolding compute_patrol_beads pct_used drain_bead warn_bead
  drains [] = refl
  drains (r ∷ rows) = ground (arith, drains rows)

  warns :
      (laws : IsOrdered ops) (rows : List PatrolRow)
      → select is_warn_bead (compute_patrol_beads ops fmt rows)
        ≡ map (λ r. warn_bead fmt r (spent ops r)) (select (is_warn ops) rows)
  unfolding compute_patrol_beads pct_used drain_bead warn_bead
  warns laws [] = refl
  warns laws (r ∷ rows) = ground (
    arith,
    warns laws rows,
    laws.lt_of_not_le (spent ops r) r.warn_at_pct (pos 100),
    laws.not_lt_of_le (spent ops r) (pos 100),
  )

  names :
      (rows : List PatrolRow)
      → (map (λ b. b.rig_name) (map (λ r. drain_bead fmt r (spent ops r)) rows)
          ≡ map (λ r. r.rig_name) rows)
        × (map (λ b. b.rig_name) (map (λ r. warn_bead fmt r (spent ops r)) rows)
            ≡ map (λ r. r.rig_name) rows)
  unfolding drain_bead warn_bead
  names [] = (refl, refl)
  names (r ∷ rows) = ground (arith, names rows)

  filed : (rows : List PatrolRow) → All IsFiled (compute_patrol_beads ops fmt rows)
  unfolding compute_patrol_beads drain_bead warn_bead
  filed [] = tt
  filed (r ∷ rows) = ground (arith, filed rows)

-- The patrol files a drain bead for exactly the rows that have spent 100 percent or more, and, where
-- comparisons with integers are as `IsOrdered` says, a warning for exactly the rows from their
-- threshold up to below 100 percent, each in the order of the rows and under the row's rig; drain
-- beads have priority 0 and the tag cost-cap, warnings priority 1, the tag cost-warning and the
-- mayor; there are no other beads.
pub compute_patrol_beads_rules :
    (ops : FloatOps) (fmt : Formats) (rows : List PatrolRow)
    → IsOrdered ops
    → let beads = compute_patrol_beads ops fmt rows in
      (select is_drain_bead beads
        ≡ map (λ r. drain_bead fmt r (spent ops r)) (select (is_drain ops) rows))
      × (select is_warn_bead beads
          ≡ map (λ r. warn_bead fmt r (spent ops r)) (select (is_warn ops) rows))
      × (map (λ b. b.rig_name) (select is_drain_bead beads)
          ≡ map (λ r. r.rig_name) (select (is_drain ops) rows))
      × (map (λ b. b.rig_name) (select is_warn_bead beads)
          ≡ map (λ r. r.rig_name) (select (is_warn ops) rows))
      × All IsFiled beads
compute_patrol_beads_rules ops fmt rows laws =
    let drained = drains ops fmt rows in
    let warned = warns ops fmt laws rows in
    (
      drained,
      warned,
      ap (map (λ b. b.rig_name)) drained ∙ (names ops fmt (select (is_drain ops) rows)).0,
      ap (map (λ b. b.rig_name)) warned ∙ (names ops fmt (select (is_warn ops) rows)).1,
      filed ops fmt rows,
    )
