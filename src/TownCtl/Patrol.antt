-- ===== src/TownCtl/Patrol.antt =====
-- The cost patrol (pkg/townctl/patrol.go). `%.4f`, `%.1f` and `%.0f` are parameters.
pub mod Laws
use landman.Base.{String, ◌<>◌, Bool, List, [], ◌∷◌, ℕ, ℤ, pos, if◌then◌else◌}
use landman.Base.Decimal.{show_ℤ}
use landman.Base.Float.{Float64, FloatOps}

pub record PatrolRow : Type 0 where
  pub rig_name : String
  pub budget_type : String
  pub daily_budget : Float64
  pub warn_at_pct : ℤ
  pub spend : Float64

unfoldable pub pct_used : FloatOps → PatrolRow → Float64
pct_used ops r =
    if ops.eq r.daily_budget (ops.of_int (pos 0))
    then ops.of_int (pos 0)
    else ops.mul (ops.div r.spend r.daily_budget) (ops.of_int (pos 100))

pub data PatrolAction : Type 0 where
  patrol_none patrol_warn patrol_drain : PatrolAction

unfoldable pub action_text : PatrolAction → String
action_text patrol_none = "none"
action_text patrol_warn = "warn"
action_text patrol_drain = "drain"

pub record PatrolBead : Type 0 where
  pub action : PatrolAction
  pub rig_name : String
  pub title : String
  pub description : String
  pub priority : ℕ
  pub tag : String
  pub assign_to : String

pub record Formats : Type 0 where
  pub f0 : Float64 → String
  pub f1 : Float64 → String
  pub f4 : Float64 → String

unfoldable pub drain_bead : Formats → PatrolRow → Float64 → PatrolBead
drain_bead fmt row pct = record {
  action = patrol_drain;
  rig_name = row.rig_name;
  title = "COST CAP: drain rig " <> row.rig_name;
  description =
      "Drain all Polecats on rig "
      <> (row.rig_name
          <> (". Block until Polecat count reaches 0. Reason: cost hard cap. Spend: "
              <> (fmt.f4 row.spend
                  <> (" "
                      <> (row.budget_type
                          <> (" / "
                              <> (fmt.f4 row.daily_budget
                                  <> (" (" <> (fmt.f1 pct <> "%). Tag: cost-cap.")))))))));
  priority = 0;
  tag = "cost-cap";
  assign_to = "";
}

unfoldable pub warn_bead : Formats → PatrolRow → Float64 → PatrolBead
warn_bead fmt row pct = record {
  action = patrol_warn;
  rig_name = row.rig_name;
  title = "COST WARNING: rig " <> (row.rig_name <> (" at " <> (fmt.f0 pct <> "%")));
  description =
      "Rig "
      <> (row.rig_name
          <> (" has consumed "
              <> (fmt.f1 pct
                  <> ("% of its daily "
                      <> (row.budget_type
                          <> (" budget ("
                              <> (fmt.f4 row.spend
                                  <> (" / "
                                      <> (fmt.f4 row.daily_budget
                                          <> ("). Warn threshold: "
                                              <> (show_ℤ row.warn_at_pct <> "%.")))))))))));
  priority = 1;
  tag = "cost-warning";
  assign_to = "mayor";
}

unfoldable pub compute_patrol_beads : FloatOps → Formats → List PatrolRow → List PatrolBead
compute_patrol_beads ops fmt [] = []
compute_patrol_beads ops fmt (row ∷ rows) =
    let rest = compute_patrol_beads ops fmt rows in
    let pct = pct_used ops row in
    if ops.le (ops.of_int (pos 100)) pct
    then drain_bead fmt row pct ∷ rest
    else if ops.le (ops.of_int row.warn_at_pct) pct
    then warn_bead fmt row pct ∷ rest
    else rest
