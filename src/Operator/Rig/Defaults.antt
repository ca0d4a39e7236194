-- ===== src/Operator/Rig/Defaults.antt =====
-- Defaults at admission, and again at each reconcile.
use landman.Base.{◌≡◌, refl, false, if◌then◌else◌, arith, String, ℤ, pos}
use landman.TownCtl.Topology.{or_text, or_number}
use landman.Operator.Types.{Rig, RigAgents, GasTown, GasTownDefaults}
use landman.Operator.Webhooks.{default_rig, default_agents, is_mutated, lacks_text, lacks_number}
use landman.Operator.Rig.{resolve_rig_defaults}

text_twice :
    (own default last : String)
    → or_text (if lacks_text own default then default else own) (or_text default last)
      ≡ or_text own (or_text default last)
text_twice own default last = ground arith

number_twice :
    (own default last : ℤ)
    → or_number (if lacks_number own default then default else own) (or_number default last)
      ≡ or_number own (or_number default last)
number_twice own default last = ground arith

-- The second run of the webhook finds nothing to change.
pub is_mutated-default_agents :
    (d : GasTownDefaults) (a : RigAgents) → is_mutated d (default_agents d a) ≡ false
is_mutated-default_agents d a = ground arith

-- The defaults that the webhook writes into a rig at admission change nothing of what the
-- controller resolves from that rig and the same town.
pub resolve_rig_defaults-default_rig :
    (rig : Rig) (gt : GasTown)
    → resolve_rig_defaults (default_rig gt.spec.defaults rig) gt ≡ resolve_rig_defaults rig gt
unfolding resolve_rig_defaults default_rig
resolve_rig_defaults-default_rig rig gt =
    rw
      (
        text_twice rig.spec.agents.mayor_model gt.spec.defaults.mayor_model "claude-opus-4-6",
        text_twice rig.spec.agents.polecat_model gt.spec.defaults.polecat_model "claude-sonnet-4-6",
        number_twice rig.spec.agents.max_polecats gt.spec.defaults.max_polecats (pos 20),
      )
      refl
