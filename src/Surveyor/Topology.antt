-- ===== src/Surveyor/Topology.antt =====
-- The snapshots that are scored (pkg/surveyor/score.go). A time is a number of nanoseconds.
use landman.Base.{String, Bool, List, ℤ}

pub record RigState : Type 0 where
  pub name : String
  pub enabled : Bool
  pub status : String
  pub last_seen : ℤ

pub record AgentState : Type 0 where
  pub rig_name : String
  pub role : String
  pub status : String
  pub last_seen : ℤ

pub record WorktreeState : Type 0 where
  pub rig_name : String
  pub status : String
  pub last_seen : ℤ

pub record CustomRoleState : Type 0 where
  pub rig_name : String
  pub role_name : String
  pub instance_index : ℤ
  pub status : String
  pub last_seen : ℤ

pub record DesiredRig : Type 0 where
  pub name : String
  pub enabled : Bool
  pub max_polecats : ℤ
  pub witness_enabled : Bool

pub record DesiredFormula : Type 0 where
  pub rig_name : String
  pub name : String

pub record DesiredCustomRole : Type 0 where
  pub name : String
  pub scope : String
  pub rig_name : String
  pub instance_index : ℤ

pub record DesiredTopology : Type 0 where
  pub rigs : List DesiredRig
  pub custom_roles : List DesiredCustomRole
  pub formulas : List DesiredFormula

pub record ActualTopology : Type 0 where
  pub rigs : List RigState
  pub agents : List AgentState
  pub worktrees : List WorktreeState
  pub custom_roles : List CustomRoleState
