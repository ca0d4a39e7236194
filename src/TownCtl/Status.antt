-- ===== src/TownCtl/Status.antt =====
-- The fleet's status (`statusFromDB` and its readers in pkg/townctl/status.go), from the answers of
-- the database. `int64(d.Seconds())` goes through a float, and is a parameter.
pub mod Laws
use landman.Base.{
  String, ◌<>◌, Bool, true, false, not, ◌||◌, ◌&&◌, Option, none, some, List, [], ◌∷◌, map, ℤ, pos,
  Result, ok, err, ◌>>=◌, any, count, select, length, contains, ◌==◌, if◌then◌else◌, eqb_ℤ, ltb_ℤ,
}
use landman.Base.Float.{Float64, FloatOps}
use landman.Surveyor.Topology.{
  DesiredTopology, DesiredRig, DesiredFormula, ActualTopology, RigState, AgentState, WorktreeState,
  CustomRoleState,
}
use landman.Surveyor.Queries.{Rows, RigScan, Queries}
use landman.Surveyor.Config.{VerifyConfig, default_production_config, sub_time}
use landman.Surveyor.Score.{ScoreResult, compute_score}

pub record RigStatusResult : Type 0 where
  pub name : String
  pub status : String
  pub score : Float64
  pub mayor_stale_seconds : ℤ
  pub pool_desired : ℤ
  pub pool_actual : ℤ
  pub non_converged : List String

pub record CustomRoleStatusResult : Type 0 where
  pub rig : String
  pub role : String
  pub instance_index : ℤ
  pub status : String
  pub stale_seconds : ℤ

pub record BeadsSummaryResult : Type 0 where
  pub bead_type : String
  pub priority : ℤ
  pub count : ℤ
  pub oldest_seconds : ℤ
  pub escalation : Bool

pub record CostResult : Type 0 where
  pub rig : String
  pub spend_usd : Float64
  pub budget_usd : Float64
  pub pct : Float64

pub record StatusResult : Type 0 where
  pub version : ℤ
  pub town : String
  pub score : Float64
  pub read_at : ℤ
  pub rigs : List RigStatusResult
  pub custom_roles : List CustomRoleStatusResult
  pub open_beads : List BeadsSummaryResult
  pub cost : List CostResult

-- A row of the beads: type, priority, number and the creation of the oldest.
pub record BeadScan : Type 0 where
  pub bead_type : String
  pub priority : ℤ
  pub count : ℤ
  pub oldest : Option ℤ

pub record CostScan : Type 0 where
  pub rig : String
  pub spend_usd : Float64
  pub budget_usd : Float64

pub record StatusReads : Type 0 where
  pub topology : Queries
  pub town_name : Result String String
  pub open_beads : Result String (Rows BeadScan)
  pub cost : Result String (Rows CostScan)

module _ {A : Type 0} where
  -- A loop that returns at the first row that cannot be scanned.
  abbrev pub scan_rows : List (Result String A) → Result String (List A)
  scan_rows [] = ok []
  scan_rows (err x ∷ scans) = err x
  scan_rows (ok a ∷ scans) = scan_rows scans >>= λ rest. ok (a ∷ rest)

  abbrev pub rows_end : Option String → List A → Result String (List A)
  rows_end none xs = ok xs
  rows_end (some x) xs = err x

  -- A reader whose query has to succeed.
  abbrev pub read_rows : Result String (Rows A) → Result String (List A)
  read_rows (err x) = err x
  read_rows (ok rows) = scan_rows rows.scans >>= rows_end rows.last

  -- A reader that takes a query that fails for an empty table.
  abbrev pub read_optional : Result String (Rows A) → Result String (List A)
  read_optional (err x) = ok []
  read_optional (ok rows) = read_rows (ok rows)

  abbrev pub in_status : String → Result String A → Result String A
  in_status table (ok a) = ok a
  in_status table (err x) = err ("status: read " <> (table <> (": " <> x)))

  -- A read whose error is passed over.
  abbrev or_empty : Result String (List A) → List A
  or_empty (ok xs) = xs
  or_empty (err x) = []

-- `witnessEnabledByRig[name]`
abbrev pub has_witness : List (String × String) → String → Bool
has_witness rows name =
    any (λ (rig, role). role == "witness") (select (λ (rig, role). rig == name) rows)

abbrev pub scored_rig : List (String × String) → RigScan → DesiredRig
scored_rig rows r = record {
  name = r.name;
  enabled = r.enabled;
  max_polecats = r.max_polecats;
  witness_enabled = has_witness rows r.name;
}

-- The two topologies, read in the order of the source.
unfoldable pub read_topology : Queries → Result String (DesiredTopology × ActualTopology)
read_topology q = do
  rigs ← in_status "desired_rigs" (read_rows q.desired_rigs)
  agents ← in_status "desired_agent_config" (read_rows q.desired_agents)
  custom_roles ← in_status "desired_custom_roles" (read_optional q.desired_custom_roles)
  formulas ← in_status "desired_formulas" (read_optional q.desired_formulas)
  actual_rigs ← in_status "actual_rigs" (read_optional q.actual_rigs)
  actual_agents ← in_status "actual_agent_config" (read_optional q.actual_agents)
  worktrees ← in_status "actual_worktrees" (read_optional q.actual_worktrees)
  actual_custom_roles ← in_status "actual_custom_roles" (read_optional q.actual_custom_roles)
  ok (
    record {
      rigs = map (scored_rig agents) rigs;
      custom_roles = custom_roles;
      formulas = formulas;
    },
    record {
      rigs = actual_rigs;
      agents = actual_agents;
      worktrees = worktrees;
      custom_roles = actual_custom_roles;
    },
  )

-- The seconds since a time when they are more than the limit, and 0 otherwise.
abbrev pub stale_for : (ℤ → ℤ) → ℤ → ℤ → ℤ → ℤ
stale_for seconds ttl now seen =
    let elapsed = seconds (sub_time now seen) in
    if ltb_ℤ (seconds ttl) elapsed then elapsed else pos 0

-- The first mayor of the rig.
abbrev pub mayor_stale : (ℤ → ℤ) → ℤ → ℤ → String → List AgentState → ℤ
mayor_stale seconds ttl now name [] = pos 0
mayor_stale seconds ttl now name (a ∷ agents) =
    let rest = mayor_stale seconds ttl now name agents in
    if (a.rig_name == name) && (a.role == "mayor")
    then stale_for seconds ttl now a.last_seen
    else rest

-- `actualRigByName[name].Status`: the last row of the name.
abbrev rig_status : String → List RigState → Option String
rig_status name [] = none
rig_status name (r ∷ rigs) = elim (rig_status name rigs) [
  | some s ↦ some s
  | none ↦ if r.name == name then some r.status else none
]

abbrev status_or_unknown : Option String → String
status_or_unknown none = "unknown"
status_or_unknown (some s) = s

-- The desired topology of one rig: itself and its formulas.
abbrev pub rig_topology : DesiredRig → List DesiredFormula → DesiredTopology
rig_topology dr formulas = record {
  rigs = dr ∷ [];
  custom_roles = [];
  formulas = select (λ f. f.rig_name == dr.name) formulas;
}

unfoldable pub rig_result :
    FloatOps → (ℤ → ℤ) → ℤ → List DesiredFormula → ActualTopology → DesiredRig → RigStatusResult
rig_result ops seconds now formulas actual dr =
    let cfg = default_production_config ops in
    let result = compute_score ops (rig_topology dr formulas) actual cfg now in
    record {
      name = dr.name;
      status = status_or_unknown (rig_status dr.name actual.rigs);
      score = result.score;
      mayor_stale_seconds = mayor_stale seconds cfg.stale_ttl now dr.name actual.agents;
      pool_desired = dr.max_polecats;
      pool_actual =
          pos (count (λ w. (w.status == "active") && (w.rig_name == dr.name)) actual.worktrees);
      non_converged = result.non_converged;
    }

abbrev custom_role_result : (ℤ → ℤ) → ℤ → ℤ → String → CustomRoleState → CustomRoleStatusResult
custom_role_result seconds ttl now town cr = record {
  rig = if cr.rig_name == "__town__" then town else cr.rig_name;
  role = cr.role_name;
  instance_index = cr.instance_index;
  status = cr.status;
  stale_seconds = stale_for seconds ttl now cr.last_seen;
}

-- `rigFilter`: without names nothing is left out.
abbrev pub passes : List String → String → Bool
passes [] name = true
passes (x ∷ xs) name = contains (x ∷ xs) name

abbrev bead_result : (ℤ → ℤ) → ℤ → BeadScan → BeadsSummaryResult
bead_result seconds now b = record {
  bead_type = b.bead_type;
  priority = b.priority;
  count = b.count;
  oldest_seconds = elim b.oldest [ none ↦ pos 0 | some t ↦ seconds (sub_time now t) ];
  escalation = eqb_ℤ b.priority (pos 0);
}

abbrev cost_result : FloatOps → CostScan → CostResult
cost_result ops c = record {
  rig = c.rig;
  spend_usd = c.spend_usd;
  budget_usd = c.budget_usd;
  pct =
      if ops.lt (ops.of_int (pos 0)) c.budget_usd
      then ops.mul (ops.div c.spend_usd c.budget_usd) (ops.of_int (pos 100))
      else ops.of_int (pos 0);
}

abbrev sum_scores : FloatOps → Float64 → List RigStatusResult → Float64
sum_scores ops total [] = total
sum_scores ops total (r ∷ rigs) = sum_scores ops (ops.add total r.score) rigs

-- The score over all, or over the rigs that the filter leaves.
abbrev pub status_score : FloatOps → List String → List RigStatusResult → Float64 → Float64
status_score ops [] rigs all = all
status_score ops (x ∷ filter) [] all = all
status_score ops (x ∷ filter) (r ∷ rigs) all =
    ops.div (sum_scores ops (ops.of_int (pos 0)) (r ∷ rigs)) (ops.of_int (pos (length (r ∷ rigs))))

abbrev town_or_empty : Result String String → String
town_or_empty (ok name) = name
town_or_empty (err x) = ""

abbrev pub report :
    FloatOps
    → (ℤ → ℤ)
    → StatusReads
    → List String
    → ℤ
    → DesiredTopology × ActualTopology
    → StatusResult
report ops seconds reads filter now (desired, actual) =
    let cfg = default_production_config ops in
    let town = town_or_empty reads.town_name in
    let rigs =
      map (rig_result ops seconds now desired.formulas actual)
        (select (λ dr. passes filter dr.name) desired.rigs) in
    record {
      version = pos 1;
      town = town;
      score = status_score ops filter rigs (compute_score ops desired actual cfg now).score;
      read_at = now;
      rigs = rigs;
      custom_roles = map (custom_role_result seconds cfg.stale_ttl now town) (
          select (λ cr. passes filter cr.rig_name || (cr.rig_name == "__town__"))
            actual.custom_roles);
      open_beads = map (bead_result seconds now) (or_empty (read_optional reads.open_beads));
      cost = map (cost_result ops) (or_empty (read_optional reads.cost));
    }

-- `statusFromDB`, with the names of `opts.Rigs`
unfoldable pub status_from_db :
    FloatOps → (ℤ → ℤ) → StatusReads → List String → ℤ → Result String StatusResult
unfolding read_topology rig_result
status_from_db ops seconds reads filter now =
    read_topology reads.topology >>= λ read. ok (report ops seconds reads filter now read)
