-- ===== src/Operator/Webhooks/Laws.antt =====
-- What the webhooks admit.
use landman.Base.{
  String, ◌≡◌, ◌≢◌, refl, ◌↔◌, ◌⊎◌, true, false, ok, contains, arith, pos, ◌==◌, str_dec,
}
use landman.Operator.Types.{Rig, AgentRole, AgentRoleTrigger, DoltInstance, is_found}
use landman.Operator.Admission.{Request, update, allowed}
use landman.Operator.Semver.{is_version_downgrade}
use landman.Operator.Webhooks.{
  Server, validate_rig, validate_agent_role, validate_dolt_instance, reserved_role_names,
  check_trigger, check_agent_role,
}

-- A trigger that names a known type and has the field that its type needs.
abbrev pub IsTrigger : Server → AgentRoleTrigger → Type 0
IsTrigger s t =
    ((t.trigger_type ≡ "schedule") × (t.schedule ≢ "") × (s.matches_cron t.schedule ≡ true))
    ⊎ ((t.trigger_type ≡ "event") × (t.event ≢ ""))
    ⊎ (t.trigger_type ≡ "bead_assigned")
    ⊎ (t.trigger_type ≡ "manual")

pub apart : (s t : String) → (s == t) ≡ false → s ≢ t
apart s t h = ground arith

types_differ :
    ◌≢◌ {A = String} "schedule" "event"
    × ◌≢◌ {A = String} "schedule" "bead_assigned"
    × ◌≢◌ {A = String} "schedule" "manual"
    × ◌≢◌ {A = String} "event" "bead_assigned"
    × ◌≢◌ {A = String} "event" "manual"
unfolding str_dec
types_differ = (
  apart "schedule" "event" refl,
  apart "schedule" "bead_assigned" refl,
  apart "schedule" "manual" refl,
  apart "event" "bead_assigned" refl,
  apart "event" "manual" refl,
)

check_trigger_iff :
    (s : Server) (t : AgentRoleTrigger) → (check_trigger s t ≡ ok tt) ↔ IsTrigger s t
unfolding check_trigger
check_trigger_iff s t = ground (arith, types_differ)

abbrev pub IsAdmissible : Server → AgentRole → Type 0
IsAdmissible s ar =
    (contains reserved_role_names ar.meta.name ≡ false)
    × (ar.spec.supervision.parent ≢ "")
    × (ar.spec.supervision.parent ≢ ar.meta.name)
    × IsTrigger s ar.spec.trigger
    × (is_found (s.get_gas_town ar.spec.town_ref) ≡ true)

check_agent_role_iff :
    (s : Server) (ar : AgentRole) → (check_agent_role s ar ≡ ok tt) ↔ IsAdmissible s ar
unfolding check_agent_role
check_agent_role_iff s ar = ground (arith, check_trigger_iff s ar.spec.trigger)

-- Where the request holds a role that decodes, the webhook admits it exactly when the role's name
-- is not reserved, its parent is given and is not the role itself, its trigger has a known type
-- with the field that the type needs (a schedule that the expression matches, or an event), and
-- the API server finds its town.
pub validate_agent_role_iff :
    (s : Server) (req : Request) (ar : AgentRole)
    → s.decode_role req.object ≡ ok ar
    → (validate_agent_role s req ≡ allowed) ↔ IsAdmissible s ar
unfolding validate_agent_role
validate_agent_role_iff s req ar decoded = ground (arith, check_agent_role_iff s ar)

pub validate_rig_update :
    (s : Server) (req : Request) (old new : Rig)
    → req.operation ≡ update
    → s.decode_rig req.old_object ≡ ok old
    → s.decode_rig req.object ≡ ok new
    → (validate_rig s req ≡ allowed) ↔ (
        (new.spec.town_ref ≡ old.spec.town_ref)
        × (is_found (s.get_gas_town new.spec.town_ref) ≡ true))
unfolding validate_rig
validate_rig_update s req old new is_update was decoded = ground arith

pub validate_dolt_instance_update :
    (s : Server) (req : Request) (old new : DoltInstance)
    → req.operation ≡ update
    → s.decode_instance req.old_object ≡ ok old
    → s.decode_instance req.object ≡ ok new
    → (validate_dolt_instance s req ≡ allowed) ↔ (
        (new.spec.replicas ≡ pos 1)
        × (new.spec.storage ≡ old.spec.storage)
        × (is_version_downgrade old.spec.version new.spec.version ≡ false))
unfolding validate_dolt_instance
validate_dolt_instance_update s req old new is_update was decoded = ground arith
