-- ===== src/Surveyor/Rules.antt =====
-- When a rig, a pool, a custom role or a formula has converged (pkg/surveyor/score.go, scoreRig,
-- scorePolecatPool and the lookups of ComputeScore).
use landman.Base.{String, ◌<>◌, Bool, true, false, not, ◌&&◌, ◌||◌, xor, Option, none, some}
use landman.Base.{List, [], ◌∷◌, ◌++◌, foldl, any, ℕ, ◌+◌, ℤ, pos, ltb_ℤ, ltb}
use landman.Base.{◌==◌, if◌then◌else◌}
use landman.Base.Decimal.{show_ℤ}
use landman.Base.Map.{Map, lookup, insert, get_or}
use landman.Surveyor.Config.{is_stale}
use landman.Surveyor.Topology.{
  RigState, AgentState, WorktreeState, CustomRoleState, DesiredRig, DesiredFormula,
  DesiredCustomRole, ActualTopology,
}

-- The lookup indexes of a snapshot.
pub record Indexes : Type 0 where
  pub rigs : Map RigState
  pub agents : Map (List AgentState)
  pub active : Map ℕ
  pub stale : Map ℕ
  pub custom_roles : Map CustomRoleState

unfoldable pub add_rig : Map RigState → RigState → Map RigState
add_rig m r = insert r.name r m

unfoldable pub add_agent : Map (List AgentState) → AgentState → Map (List AgentState)
add_agent m a = insert a.rig_name (get_or [] a.rig_name m ++ (a ∷ [])) m

-- The count of the worktrees of one status.
unfoldable pub add_worktree : String → Map ℕ → WorktreeState → Map ℕ
add_worktree status m wt =
    if wt.status == status then insert wt.rig_name (get_or 0 wt.rig_name m + 1) m else m

unfoldable pub actual_custom_role_key : String → String → ℤ → String
actual_custom_role_key rig role idx = rig <> ("|" <> (role <> ("|" <> show_ℤ idx)))

unfoldable pub add_custom_role : Map CustomRoleState → CustomRoleState → Map CustomRoleState
add_custom_role m cr =
    insert (actual_custom_role_key cr.rig_name cr.role_name cr.instance_index) cr m

unfoldable pub indexes : ActualTopology → Indexes
indexes actual = record {
  rigs = foldl add_rig [] actual.rigs;
  agents = foldl add_agent [] actual.agents;
  active = foldl (add_worktree "active") [] actual.worktrees;
  stale = foldl (add_worktree "stale") [] actual.worktrees;
  custom_roles = foldl add_custom_role [] actual.custom_roles;
}

-- An agent of the role that runs and was seen within the TTL.
unfoldable pub is_live : String → ℤ → ℤ → AgentState → Bool
is_live role ttl now a =
    a.role == role && a.status == "running" && not (is_stale a.last_seen ttl now)

-- `scoreRig` once the rig is found.
unfoldable pub score_found : DesiredRig → RigState → List AgentState → ℤ → ℤ → Bool
score_found dr ar agents ttl now =
    if not dr.enabled
    then not ar.enabled && (ar.status == "stopped" || ar.status == "draining")
    else if not (ar.status == "running") || xor ar.enabled dr.enabled
    then false
    else if is_stale ar.last_seen ttl now
    then false
    else any (is_live "mayor" ttl now) agents

unfoldable pub score_rig : DesiredRig → Map RigState → Map (List AgentState) → ℤ → ℤ → Bool
score_rig dr rigs agents ttl now = elim (lookup dr.name rigs) [
  | none ↦ false
  | some ar ↦ score_found dr ar (get_or [] dr.name agents) ttl now
]

unfoldable pub score_polecat_pool : DesiredRig → Indexes → ℤ → ℤ → Bool
score_polecat_pool dr ix ttl now =
    if ltb_ℤ dr.max_polecats (pos (get_or 0 dr.name ix.active))
    then false
    else if ltb 0 (get_or 0 dr.name ix.stale)
    then false
    else if dr.witness_enabled
    then any (is_live "witness" ttl now) (get_or [] dr.name ix.agents)
    else true

unfoldable pub rig_name_for_role : DesiredCustomRole → String
rig_name_for_role dcr = if dcr.scope == "town" then "__town__" else dcr.rig_name

-- `exists && actual.Status == "running" && !isStale(...)`
unfoldable pub role_found : ℤ → ℤ → Option CustomRoleState → Bool
role_found ttl now none = false
role_found ttl now (some s) = s.status == "running" && not (is_stale s.last_seen ttl now)

unfoldable pub role_passes : Indexes → ℤ → ℤ → DesiredCustomRole → Bool
role_passes ix ttl now dcr = role_found ttl now (
    lookup (actual_custom_role_key (rig_name_for_role dcr) dcr.name dcr.instance_index)
      ix.custom_roles)

unfoldable pub formula_passes : Indexes → ℤ → ℤ → DesiredFormula → Bool
formula_passes ix ttl now df =
    score_rig
      (record { name = df.rig_name; enabled = true; max_polecats = pos 0; witness_enabled = false })
      ix.rigs ix.agents ttl now

-- Only enabled rigs that may have polecats have a pool to score.
unfoldable pub has_pool : DesiredRig → Bool
has_pool dr = dr.enabled && ltb_ℤ (pos 0) dr.max_polecats
