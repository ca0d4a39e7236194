-- ===== src/Operator/Town/Status.antt =====
-- The status of a town: the read of the tables, the score, and the conditions
-- (`patchStatusFromActual`, `readTopologyForStatus`, `cappedSlice` and `summariseNonConverged` of
-- pkg/k8s/operator/controllers/gastown_controller.go). What the database answers is a parameter.
pub mod Bounds
use landman.Base.{
  String, ◌<>◌, Bool, true, false, not, ◌||◌, ◌&&◌, Option, none, some, List, [], ◌∷◌, ◌++◌, map, ℕ,
  zero, suc, ◌-◌, ℤ, pos, Result, ok, err, ◌>>=◌, any, length, leb, ◌==◌, if◌then◌else◌, eqb_ℤ,
}
use landman.Base.Decimal.{show_ℕ}
use landman.Base.Float.{Float64, FloatOps}
use landman.Surveyor.Topology.{
  DesiredTopology, DesiredRig, DesiredCustomRole, DesiredFormula, ActualTopology, RigState,
  AgentState, WorktreeState, CustomRoleState,
}
use landman.Surveyor.Queries.{Rows, RigScan, Queries}
use landman.Surveyor.Config.{default_production_config}
use landman.Surveyor.Score.{ScoreResult, compute_score}
use landman.Operator.Types.{GasTown, Condition}
use landman.Operator.Machinery.{Machinery}

module _ {A : Type 0} where
  -- A loop that returns at the first row that cannot be scanned.
  abbrev pub scan_all : String → List (Result String A) → Result String (List A)
  scan_all context [] = ok []
  scan_all context (err x ∷ scans) = err (context <> x)
  scan_all context (ok a ∷ scans) = scan_all context scans >>= λ rest. ok (a ∷ rest)

  abbrev pub end_of : Option String → List A → Result String (List A)
  end_of none xs = ok xs
  end_of (some x) xs = err x

  -- A table that has to be read.
  abbrev pub required : String → Result String (Rows A) → Result String (List A)
  required table (err x) = err ("read " <> (table <> (": " <> x)))
  required table (ok rows) = scan_all ("scan " <> (table <> ": ")) rows.scans >>= end_of rows.last

  -- A loop that passes over the rows that cannot be scanned.
  abbrev pub scanned : List (Result String A) → List A
  scanned [] = []
  scanned (err x ∷ scans) = scanned scans
  scanned (ok a ∷ scans) = a ∷ scanned scans

  -- A table that may be missing.
  abbrev pub optional : Result String (Rows A) → List A
  optional (err x) = []
  optional (ok rows) = scanned rows.scans

-- `witnessEnabled[name]`: there is a row for the rig's witness, enabled or not.
abbrev pub witness_enabled : List (String × String) → String → Bool
witness_enabled rows name = any (λ (rig, role). (rig == name) && (role == "witness")) rows

abbrev pub desired_rig : List (String × String) → RigScan → DesiredRig
desired_rig rows r = record {
  name = r.name;
  enabled = r.enabled;
  max_polecats = r.max_polecats;
  witness_enabled = witness_enabled rows r.name;
}

unfoldable pub read_topology_for_status : Queries → Result String (DesiredTopology × ActualTopology)
read_topology_for_status q = do
  rigs ← required "desired_rigs" q.desired_rigs
  actual_rigs ← required "actual_rigs" q.actual_rigs
  ok (
    record {
      rigs = map (desired_rig (optional q.desired_agents)) rigs;
      custom_roles = optional q.desired_custom_roles;
      formulas = optional q.desired_formulas;
    },
    record {
      rigs = actual_rigs;
      agents = optional q.actual_agents;
      worktrees = optional q.actual_worktrees;
      custom_roles = optional q.actual_custom_roles;
    },
  )

-- `copy(out, s[:n])` for an `n` within the length
abbrev pub prefix : ℕ → List String → List String
prefix n [] = []
prefix zero (x ∷ xs) = []
prefix (suc n) (x ∷ xs) = x ∷ prefix n xs

-- `cappedSlice(s, n)` for a positive `n`
unfoldable pub capped_slice : List String → ℕ → List String
capped_slice s n =
    if leb (length s) n
    then s
    else prefix (n - 1) s ++ (("... and " <> (show_ℕ (length s - (n - 1)) <> " more")) ∷ [])

unfoldable pub summarise_non_converged : List String → String
summarise_non_converged [] = "unknown"
summarise_non_converged (x ∷ []) = x
summarise_non_converged (x ∷ y ∷ rest) = x <> (" (and " <> (show_ℕ (suc (length rest)) <> " more)"))

-- The fields of the status that the poll writes.
pub record TownStatus : Type 0 where
  pub conditions : List Condition
  pub last_reconcile_at : Option ℤ
  pub convergence_score : Float64
  pub non_converged : List String
  pub last_convergence_at : Option ℤ

abbrev set_condition :
    Machinery → ℤ → String → String → String → String → List Condition → List Condition
set_condition m generation condition_type status reason message conditions =
    m.set_status_condition conditions (record {
      condition_type = condition_type;
      status = status;
      observed_generation = generation;
      reason = reason;
      message = message;
    })

-- The conditions once the tables could be read.
abbrev pub scored_conditions :
    FloatOps → Machinery → ℤ → ScoreResult → List Condition → List Condition
scored_conditions ops m generation result conditions =
    let readable =
      set_condition m generation "ActualTopologyAvailable" "True" "TopologyRead"
        "actual_topology tables readable" conditions in
    if ops.eq result.score (ops.of_int (pos 1))
    then set_condition m generation "FleetConverged" "True" "FullyConverged"
        "all desired resources are running" readable
    else set_condition m generation "FleetConverged" "False" "PartialConvergence"
        ("non-converged: " <> summarise_non_converged result.non_converged) readable

-- The status with a score, or with the error that left it as it was.
abbrev scored :
    FloatOps
    → Machinery
    → ℤ
    → ℤ
    → Result String (DesiredTopology × ActualTopology)
    → TownStatus
    → TownStatus
scored ops m generation now (err x) status = record status {
  conditions =
      set_condition m generation "ActualTopologyAvailable" "False" "SurveyorNotStarted" x
        status.conditions;
}
scored ops m generation now (ok (desired, actual)) status =
    let result = compute_score ops desired actual (default_production_config ops) now in
    record status {
      conditions = scored_conditions ops m generation result status.conditions;
      convergence_score = result.score;
      non_converged = capped_slice result.non_converged 20;
      last_convergence_at = some now;
    }

abbrev or_before : Option ℤ → Option ℤ → Option ℤ
or_before none before = before
or_before (some t) before = some t

-- The status that `patchStatusFromActual` computes, from the row of `actual_town`.
unfoldable pub status_from_actual :
    FloatOps → Machinery → ℤ → ℤ → Option ℤ → Queries → TownStatus → TownStatus
unfolding read_topology_for_status capped_slice summarise_non_converged
status_from_actual ops m generation now last_reconcile q status =
    scored ops m generation now (read_topology_for_status q)
      (record status { last_reconcile_at = or_before last_reconcile status.last_reconcile_at })

abbrev time_equal : Option ℤ → Option ℤ → Bool
time_equal none none = true
time_equal none (some b) = false
time_equal (some a) none = false
time_equal (some a) (some b) = eqb_ℤ a b

-- `statusChanged`
unfoldable pub status_changed : FloatOps → TownStatus → TownStatus → Bool
status_changed ops new old =
    not (time_equal new.last_reconcile_at old.last_reconcile_at)
    || not (ops.eq new.convergence_score old.convergence_score)
    || not (time_equal new.last_convergence_at old.last_convergence_at)

-- `patchStatusFromActual`, from the answer for the row of `actual_town` (an error, no row, or its
-- time) and that of the status update: the error, and the status as it is stored.
unfoldable pub patch_status_from_actual :
    FloatOps
    → Machinery
    → ℤ
    → ℤ
    → Result String (Option (Option ℤ))
    → Queries
    → Option String
    → TownStatus
    → Option String × TownStatus
unfolding status_from_actual status_changed
patch_status_from_actual ops m generation now (err x) q update status =
    (some ("query actual_town: " <> x), status)
patch_status_from_actual ops m generation now (ok none) q update status = (none, status)
patch_status_from_actual ops m generation now (ok (some seen)) q update status =
    let new = status_from_actual ops m generation now seen q status in
    if status_changed ops new status
    then elim update [ none ↦ (none, new) | some x ↦ (some ("update status: " <> x), status) ]
    else (none, status)
