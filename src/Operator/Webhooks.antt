-- ===== src/Operator/Webhooks.antt =====
-- The validating and mutating webhooks (pkg/k8s/operator/webhooks).
pub mod Laws
pub mod Histories
use landman.Base.{
  String, ◌<>◌, Bool, true, false, not, ◌&&◌, ◌||◌, Option, none, some, List, [], ◌∷◌, ℤ, pos,
  eqb_ℤ, Result, ok, err, ◌>>=◌, ◌>>◌, fail_if, contains, ◌==◌, if◌then◌else◌,
}
use landman.Base.Decimal.{show_ℤ}
use landman.Operator.Types.{
  NamespacedRef, GasTown, GasTownDefaults, Rig, RigAgents, AgentRole, AgentRoleTrigger,
  DoltInstance, Fetch, found, not_found, failed,
}
use landman.Operator.Admission.{
  Request, Operation, create, update, Response, allowed, denied, errored, patched, decode_object,
  decode_old, get_or_deny, answer, internal_server_error,
}
use landman.Operator.Semver.{is_version_downgrade}

-- `%q`, decoding and encoding of objects, `cronRE`, `Quantity.String`, and the reads of the API.
pub record Server : Type 0 where
  pub quote : String → String
  pub decode_rig : String → Result String Rig
  pub decode_gas_town : String → Result String GasTown
  pub decode_role : String → Result String AgentRole
  pub decode_instance : String → Result String DoltInstance
  pub marshal_rig : Rig → Result String String
  pub matches_cron : String → Bool
  pub quantity : ℤ → String
  pub get_gas_town : String → Fetch GasTown
  pub get_instance : NamespacedRef → Fetch DoltInstance

abbrev pub reserved_role_names : List String
reserved_role_names = "mayor" ∷ "polecat" ∷ "witness" ∷ "refinery" ∷ "deacon" ∷ "dog" ∷ "crew" ∷ []

-- The checks of an update against the old object.
abbrev on_update {ℓ} :
    {A : Type ℓ}
    → (String → Result String A)
    → Request
    → (A → Result Response (Unit {0}))
    → Result Response (Unit {0})
on_update decode req checks = elim req.operation [
  | create ↦ ok tt
  | update ↦ decode_old decode req >>= checks
]

-- The look-up of the town that an object names.
abbrev town_exists : Server → String → Result Response (Unit {0})
town_exists s town_ref = do
  _ ←
      get_or_deny (s.get_gas_town town_ref)
        ("spec.townRef: GasTown " <> (s.quote town_ref <> " not found in cluster"))
        ("get gastown " <> (s.quote town_ref <> ": "))
  ok tt

-- `(old: %q, new: %q)`
abbrev old_and_new : String → String → String
old_and_new old new = "(old: " <> (old <> (", new: " <> (new <> ")")))

-- `RigValidator.Handle`
unfoldable pub validate_rig : Server → Request → Response
validate_rig s req = answer (do
  rig ← decode_object s.decode_rig req
  on_update s.decode_rig req λ old. fail_if (not (rig.spec.town_ref == old.spec.town_ref)) (
      denied (
        "spec.townRef: Forbidden: field is immutable after creation "
        <> old_and_new (s.quote old.spec.town_ref) (s.quote rig.spec.town_ref)))
  town_exists s rig.spec.town_ref)

-- `oldRef != newRef` on structs compares every field.
abbrev pub same_ref : NamespacedRef → NamespacedRef → Bool
same_ref a b = (a.namespace == b.namespace) && (a.name == b.name)

abbrev slashed : NamespacedRef → String
slashed ref = ref.namespace <> ("/" <> ref.name)

-- `GasTownValidator.Handle`
unfoldable pub validate_gas_town : Server → Request → Response
validate_gas_town s req = answer (do
  gt ← decode_object s.decode_gas_town req
  on_update s.decode_gas_town req λ old.
      fail_if (not (same_ref gt.spec.dolt_ref old.spec.dolt_ref)) (
        denied (
          "spec.doltRef: Forbidden: field is immutable after creation "
          <> old_and_new (slashed old.spec.dolt_ref) (slashed gt.spec.dolt_ref)))
  fail_if (gt.spec.dolt_ref.namespace == "")
      (denied "spec.doltRef.namespace: Required value: namespace must not be empty")
  _ ←
      get_or_deny (s.get_instance gt.spec.dolt_ref)
        ("spec.doltRef: DoltInstance "
          <> (s.quote gt.spec.dolt_ref.name
              <> (" not found in namespace " <> s.quote gt.spec.dolt_ref.namespace)))
        ("get doltinstance " <> (s.quote gt.spec.dolt_ref.name <> ": "))
  fail_if
      (gt.spec.agents.surveyor
        && elim gt.spec.agents.surveyor_claude_md_ref [ none ↦ true | some ref ↦ false ])
      (denied "spec.agents.surveyorClaudeMdRef: required when spec.agents.surveyor is true"))

-- Rule 4 of the agent roles: the `switch` on the type of the trigger.
unfoldable pub check_trigger : Server → AgentRoleTrigger → Result Response (Unit {0})
check_trigger s t =
    if t.trigger_type == "schedule"
    then (if t.schedule == ""
        then err (denied "spec.trigger.schedule: required when spec.trigger.type is 'schedule'")
        else fail_if (not (s.matches_cron t.schedule)) (
            denied (
              "spec.trigger.schedule: "
              <> (s.quote t.schedule <> " is not a valid 5-field cron expression"))))
    else if t.trigger_type == "event"
    then fail_if (t.event == "")
        (denied "spec.trigger.event: required when spec.trigger.type is 'event'")
    else if (t.trigger_type == "bead_assigned") || (t.trigger_type == "manual")
    then ok tt
    else err (
        denied (
          "spec.trigger.type: "
          <> (s.quote t.trigger_type
              <> (" is not a recognized trigger type; "
                  <> "must be one of: bead_assigned, schedule, event, manual"))))

-- Rules 1 to 5.
unfoldable pub check_agent_role : Server → AgentRole → Result Response (Unit {0})
unfolding check_trigger
check_agent_role s ar = do
  fail_if (contains reserved_role_names ar.meta.name) (
      denied (
        "spec.metadata.name: "
        <> (s.quote ar.meta.name
            <> (" is a reserved built-in Gas Town role name and cannot "
                <> "be used for a custom role; choose a different name (ADR-0004)"))))
  fail_if (ar.spec.supervision.parent == "") (
      denied (
        "spec.supervision.parent: required field; every custom role must declare a "
        <> "supervision relationship (ADR-0004)"))
  fail_if (ar.spec.supervision.parent == ar.meta.name)
      (denied ("spec.supervision.parent: " <> (s.quote ar.meta.name <> " cannot supervise itself")))
  check_trigger s ar.spec.trigger
  town_exists s ar.spec.town_ref

-- `AgentRoleValidator.Handle`
unfoldable pub validate_agent_role : Server → Request → Response
unfolding check_agent_role
validate_agent_role s req = answer (decode_object s.decode_role req >>= check_agent_role s)

-- The fields of a running instance that an update may not change.
abbrev check_instance_update : Server → DoltInstance → DoltInstance → Result Response (Unit {0})
check_instance_update s di old = do
  fail_if (not (di.spec.storage.storage_class_name == old.spec.storage.storage_class_name)) (
      denied (
        "spec.storage.storageClassName: Forbidden: field is immutable after creation "
        <> old_and_new (s.quote old.spec.storage.storage_class_name)
            (s.quote di.spec.storage.storage_class_name)))
  fail_if (not (eqb_ℤ di.spec.storage.size old.spec.storage.size)) (
      denied (
        "spec.storage.size: Forbidden: field is immutable after creation "
        <> old_and_new (s.quote (s.quantity old.spec.storage.size))
            (s.quote (s.quantity di.spec.storage.size))))
  fail_if (is_version_downgrade old.spec.version di.spec.version) (
      denied (
        "spec.version: Forbidden: version downgrade not allowed "
        <> old_and_new (s.quote old.spec.version) (s.quote di.spec.version)))

-- `DoltInstanceValidator.Handle`
unfoldable pub validate_dolt_instance : Server → Request → Response
validate_dolt_instance s req = answer (do
  di ← decode_object s.decode_instance req
  fail_if (not (eqb_ℤ di.spec.replicas (pos 1))) (
      denied (
        "spec.replicas: Invalid value: "
        <> (show_ℤ di.spec.replicas <> (": replicas must be 1 in " <> "gastown-operator v0.x"))))
  on_update s.decode_instance req (check_instance_update s di))

-- The tests of mutations 1 to 3.
abbrev pub lacks_text : String → String → Bool
lacks_text own default = (own == "") && not (default == "")

abbrev pub lacks_number : ℤ → ℤ → Bool
lacks_number own default = eqb_ℤ own (pos 0) && not (eqb_ℤ default (pos 0))

abbrev pub default_agents : GasTownDefaults → RigAgents → RigAgents
default_agents d a = record a {
  mayor_model = if lacks_text a.mayor_model d.mayor_model then d.mayor_model else a.mayor_model;
  polecat_model =
      if lacks_text a.polecat_model d.polecat_model then d.polecat_model else a.polecat_model;
  max_polecats =
      if lacks_number a.max_polecats d.max_polecats then d.max_polecats else a.max_polecats;
}

-- `mutated` after the three mutations.
abbrev pub is_mutated : GasTownDefaults → RigAgents → Bool
is_mutated d a =
    lacks_text a.mayor_model d.mayor_model
    || lacks_text a.polecat_model d.polecat_model
    || lacks_number a.max_polecats d.max_polecats

unfoldable pub default_rig : GasTownDefaults → Rig → Rig
default_rig d rig = record rig {
  spec = record rig.spec { agents = default_agents d rig.spec.agents };
}

abbrev has_every_default : RigAgents → Bool
has_every_default a =
    not (a.mayor_model == "") && not (a.polecat_model == "") && not (eqb_ℤ a.max_polecats (pos 0))

-- The encoding of a changed rig, as a patch of the object of the request.
abbrev patch_rig : Server → Request → Rig → Response
patch_rig s req rig = elim (s.marshal_rig rig) [
  | err e ↦ errored internal_server_error e
  | ok marshaled ↦ patched req.object marshaled
]

abbrev default_from : Server → Request → Rig → Fetch GasTown → Response
default_from s req rig (found gastown) =
    if is_mutated gastown.spec.defaults rig.spec.agents
    then patch_rig s req (default_rig gastown.spec.defaults rig)
    else allowed
default_from s req rig (not_found e) = allowed
default_from s req rig (failed e) =
    errored internal_server_error ("get gastown " <> (s.quote rig.spec.town_ref <> (": " <> e)))

-- `RigDefaulter.Handle`
unfoldable pub handle_rig_defaults : Server → Request → Response
unfolding default_rig
handle_rig_defaults s req = elim (decode_object s.decode_rig req) [
  | err r ↦ r
  | ok rig ↦
      if has_every_default rig.spec.agents
      then allowed
      else default_from s req rig (s.get_gas_town rig.spec.town_ref)
]
