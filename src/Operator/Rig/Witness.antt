-- ===== src/Operator/Rig/Witness.antt =====
-- Whether a rig's witness counts as enabled, from the presence of its row
-- (`readTopologyForStatus`): on the rows that the operator writes, and on those of `town-ctl`.
use landman.Base.{
  String, ◌≡◌, refl, ap, ◌∙◌, Bool, true, List, [], ◌∷◌, map, ok, any, arith, ◌==◌, str_dec,
  if◌then◌else◌, ==_self,
}
use landman.Manifest.Types
use landman.TownCtl.Topology.{AgentConfigRow, rig_agent_rows}
use landman.Operator.Types.{Rig}
use landman.Operator.Tables.{Tables, AgentRow, rows_of}
use landman.Operator.Tables.Laws.{IsKeyed}
use landman.Operator.Dolt.{Engine}
use landman.Operator.Rig.{ResolvedRigDefaults, sync_to_dolt}
use landman.Operator.Rig.View.{view, specified, sync_to_dolt-view}
use landman.Operator.Town.Status.{witness_enabled}

abbrev pub pair_of : AgentRow → String × String
pair_of r = (r.rig_name, r.role)

abbrev pub pair_of_row : AgentConfigRow → String × String
pair_of_row r = (r.rig_name, r.role)

abbrev is_witness : AgentRow → Bool
is_witness r = r.role == "witness"

witness_enabled-rows_of :
    (name : String) (rows : List AgentRow)
    → witness_enabled (map pair_of rows) name ≡ any is_witness (rows_of (λ r. r.rig_name) name rows)
witness_enabled-rows_of name [] = refl
witness_enabled-rows_of name (r ∷ rows) = ground (arith, witness_enabled-rows_of name rows)

any-specified :
    (rig : Rig) (resolved : ResolvedRigDefaults)
    → any is_witness (specified rig resolved).agents ≡ rig.spec.agents.witness
unfolding str_dec
any-specified rig resolved = ground arith

-- If syncToDolt of a rig succeeds on tables where each row of desired_rigs has a name of its own,
-- then the status reader, which takes a witness for enabled when its row is there, reads back
-- spec.agents.witness.
pub sync_to_dolt_witness :
    (e : Engine) (rig : Rig) (resolved : ResolvedRigDefaults) (t t' : Tables) (h : String)
    → IsKeyed (λ r. r.name) t.rigs
    → sync_to_dolt e rig resolved t ≡ (ok h, t')
    → witness_enabled (map pair_of t'.agents) rig.meta.name ≡ rig.spec.agents.witness
sync_to_dolt_witness e rig resolved t t' h keyed run =
    witness_enabled-rows_of rig.meta.name t'.agents
    ∙ ap (λ v. any is_witness v.agents) own
    ∙ any-specified rig resolved
  where
    own : view rig.meta.name t' ≡ specified rig resolved
    own =
        sync_to_dolt-view e rig resolved t t' h rig.meta.name keyed run
        ∙ ap (λ b. if b then specified rig resolved else view rig.meta.name t)
            (==_self rig.meta.name)

-- On the rows that town-ctl writes for a rig, the status reader takes the witness for enabled
-- whether the manifest enables it or not.
pub rig_agent_rows_witness :
    (expand : String → String) (d : Types.RigDefaults) (rig : Types.RigSpec)
    → witness_enabled (map pair_of_row (rig_agent_rows expand d rig)) rig.name ≡ true
unfolding rig_agent_rows
rig_agent_rows_witness expand d rig = ground arith
