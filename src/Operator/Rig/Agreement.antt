-- ===== src/Operator/Rig/Agreement.antt =====
-- The agent rows of the operator and those of `town-ctl` for one rig.
use landman.Base.{
  String, ◌≡◌, refl, Option, none, some, List, [], ◌∷◌, map, ℤ, pos, select, Bool-cases, inl, inr,
}
use landman.Manifest.Types
use landman.TownCtl.Topology.{AgentConfigRow, rig_agent_rows}
use landman.Operator.Types.{Rig, GasTown}
use landman.Operator.Tables.{AgentRow}
use landman.Operator.Rig.{desired_agents, agent_cfgs, resolve_rig_defaults}

-- What a row settles for its agent, where NULL, the empty string and 0 are the same.
pub record Setting : Type 0 where
  pub role : String
  pub model : String
  pub max_polecats : ℤ

abbrev text_of : Option String → String
text_of none = ""
text_of (some s) = s

abbrev number_of : Option ℤ → ℤ
number_of none = pos 0
number_of (some n) = n

abbrev pub of_operator : AgentRow → Setting
of_operator r = record {
  role = r.role;
  model = text_of r.model;
  max_polecats = number_of r.max_polecats;
}

abbrev pub of_town_ctl : AgentConfigRow → Setting
of_town_ctl r = record { role = r.role; model = r.model; max_polecats = r.max_polecats }

-- The resource and the manifest configure the rig's agents alike.
pub record SameAgents (rig : Rig) (spec : Types.RigSpec) : Type 0 where
  pub mayor : rig.spec.agents.mayor ≡ spec.agents.mayor
  pub witness : rig.spec.agents.witness ≡ spec.agents.witness
  pub refinery : rig.spec.agents.refinery ≡ spec.agents.refinery
  pub deacon : rig.spec.agents.deacon ≡ spec.agents.deacon
  pub mayor_model : rig.spec.agents.mayor_model ≡ spec.agents.mayor_model
  pub polecat_model : rig.spec.agents.polecat_model ≡ spec.agents.polecat_model
  pub max_polecats : rig.spec.agents.max_polecats ≡ spec.agents.max_polecats

pub record SameDefaults (gt : GasTown) (d : Types.RigDefaults) : Type 0 where
  pub mayor_model : gt.spec.defaults.mayor_model ≡ d.mayor_model
  pub polecat_model : gt.spec.defaults.polecat_model ≡ d.polecat_model
  pub max_polecats : gt.spec.defaults.max_polecats ≡ d.max_polecats

-- Row by row, enabled alike and with the same setting.
abbrev Alike : List AgentRow → List AgentConfigRow → Type 0
Alike [] [] = Unit
Alike [] (s ∷ ss) = ⊥
Alike (r ∷ rs) [] = ⊥
Alike (r ∷ rs) (s ∷ ss) = (r.enabled ≡ s.enabled) × (of_operator r ≡ of_town_ctl s) × Alike rs ss

select-Alike :
    (rs : List AgentRow) (ss : List AgentConfigRow)
    → Alike rs ss
    → map of_operator (select (λ r. r.enabled) rs) ≡ map of_town_ctl (select (λ s. s.enabled) ss)
select-Alike [] [] all = refl
select-Alike [] (s ∷ ss) all = absurd all
select-Alike (r ∷ rs) [] all = absurd all
select-Alike (r ∷ rs) (s ∷ ss) (same, setting, all) = elim (Bool-cases s.enabled) [
  | inl on ↦ rw (same, on) (cong_cons setting (select-Alike rs ss all))
  | inr off ↦ rw (same, off) (select-Alike rs ss all)
]
  where
    cong_cons : {x y : Setting} {xs ys : List Setting} → x ≡ y → xs ≡ ys → x ∷ xs ≡ y ∷ ys
    cong_cons p q = cc

agent_cfgs-Alike :
    (expand : String → String) (rig : Rig) (spec : Types.RigSpec) (gt : GasTown)
    (d : Types.RigDefaults)
    → SameAgents rig spec
    → SameDefaults gt d
    → Alike (agent_cfgs rig (resolve_rig_defaults rig gt)) (rig_agent_rows expand d spec)
unfolding agent_cfgs rig_agent_rows resolve_rig_defaults
agent_cfgs-Alike expand rig spec gt d same also = (
  same.mayor,
  rw (same.mayor_model, also.mayor_model) refl,
  (
    same.witness,
    refl,
    (
      same.refinery,
      refl,
      (
        same.deacon,
        refl,
        (
          refl,
          rw (same.polecat_model, same.max_polecats, also.polecat_model, also.max_polecats) refl,
          tt,
        ),
      ),
    ),
  ),
)

-- Where a Rig resource and a rig of the manifest configure the agents alike, and the defaults of
-- the GasTown are the manifest's, the agent rows that the operator inserts have, in the same
-- order, the roles, models and pool sizes of the enabled rows that town-ctl writes (NULL, the
-- empty string and 0 counting as the same).
pub desired_agents-rig_agent_rows :
    (expand : String → String) (rig : Rig) (spec : Types.RigSpec) (gt : GasTown)
    (d : Types.RigDefaults)
    → SameAgents rig spec
    → SameDefaults gt d
    → map of_operator (desired_agents rig (resolve_rig_defaults rig gt))
      ≡ map of_town_ctl (select (λ r. r.enabled) (rig_agent_rows expand d spec))
unfolding desired_agents
desired_agents-rig_agent_rows expand rig spec gt d same also =
    select-Alike (agent_cfgs rig (resolve_rig_defaults rig gt)) (rig_agent_rows expand d spec)
      (agent_cfgs-Alike expand rig spec gt d same also)
