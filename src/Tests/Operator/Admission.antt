-- ===== src/Tests/Operator/Admission.antt =====
-- The webhooks and the versions on samples.
use landman.Base.{
  String, ◌≡◌, ◌↔◌, refl, some, [], ◌∷◌, true, false, pos, ok, str_dec, arith, Result,
}
use landman.Operator.Types.{DoltInstance, found}
use landman.Operator.Admission.{Request, update, allowed}
use landman.Operator.Semver.{
  parse_semver, parse_three, parse_parts, split_n3, cut, trim_v, atoi, unsigned, scan, is_older,
  is_version_downgrade,
}
use landman.Operator.Semver.RoundTrip.{print_semver, parse_semver-print_semver}
use landman.Operator.Webhooks.{Server, validate_agent_role, validate_dolt_instance}
use landman.Operator.Webhooks.Laws.{IsAdmissible, validate_agent_role_iff}
use landman.Operator.Webhooks.Histories.{
  History, created, updated, Admits, InstanceStep, IsAtLeast, instance_updates_version,
}
use landman.Tests.Operator.{dolt, town, rig, role}

-- An instance is written as its version, and every other object is its sample.
abbrev decode_instance : String → Result String DoltInstance
decode_instance v = ok (dolt v "" false [])

abbrev pub server : Server
server = record {
  quote = λ s. s;
  decode_rig = λ s. ok (rig false []);
  decode_gas_town = λ s. ok town;
  decode_role = λ s. ok (role false);
  decode_instance = decode_instance;
  marshal_rig = λ r. ok "";
  matches_cron = λ s. true;
  quantity = λ n. "";
  get_gas_town = λ name. found town;
  get_instance = λ ref. found (dolt "v1.2.3" "" false []);
}

abbrev request : String → String → Request
request old new = record { operation = update; object = new; old_object = old }

abbrev low : DoltInstance
low = dolt "v1.9.3" "" false []

abbrev high : DoltInstance
high = dolt "v1.10.0" "" false []

raised : Admits server.decode_instance (validate_dolt_instance server) low high
unfolding validate_dolt_instance parse_semver parse_three parse_parts split_n3 cut trim_v atoi
    unsigned scan is_older is_version_downgrade str_dec
raised = record {
  request = request "v1.9.3" "v1.10.0";
  is_update = refl;
  decodes_old = refl;
  decodes_new = refl;
  admitted = refl;
}

-- By the numbers and not by the texts, 1.10 is later than 1.9.
high_numbers : parse_semver high.spec.version ≡ some (pos 1 ∷ pos 10 ∷ pos 0 ∷ [])
unfolding parse_semver parse_three parse_parts split_n3 cut trim_v atoi unsigned scan
high_numbers = refl

low_numbers : parse_semver low.spec.version ≡ some (pos 1 ∷ pos 9 ∷ pos 3 ∷ [])
unfolding parse_semver parse_three parse_parts split_n3 cut trim_v atoi unsigned scan
low_numbers = refl

history : History (InstanceStep server) low high
history = updated created (raised, ((pos 1 ∷ pos 10 ∷ pos 0 ∷ []), high_numbers))

instance_updates_version_example :
    IsAtLeast (pos 1 ∷ pos 10 ∷ pos 0 ∷ []) (pos 1 ∷ pos 9 ∷ pos 3 ∷ [])
    × (high.spec.storage ≡ low.spec.storage)
instance_updates_version_example =
    instance_updates_version server (pos 1 ∷ pos 9 ∷ pos 3 ∷ []) (pos 1 ∷ pos 10 ∷ pos 0 ∷ [])
      low_numbers high_numbers history

-- Through a version that is no number the downgrade goes through.
detour :
    (validate_dolt_instance server (request "v2.0.0" "latest") ≡ allowed)
    × (validate_dolt_instance server (request "latest" "v1.0.0") ≡ allowed)
unfolding validate_dolt_instance parse_semver parse_three parse_parts split_n3 cut trim_v atoi
    unsigned scan is_older is_version_downgrade str_dec
detour = (refl, refl)

validate_agent_role_iff_example :
    (validate_agent_role server (request "" "") ≡ allowed) ↔ IsAdmissible server (role false)
validate_agent_role_iff_example = validate_agent_role_iff server (request "" "") (role false) refl

parse_semver-print_semver_example :
    parse_semver (print_semver 1 10 0) ≡ some (pos 1 ∷ pos 10 ∷ pos 0 ∷ [])
parse_semver-print_semver_example =
    parse_semver-print_semver 1 10 0 (omega arith) (omega arith) (omega arith)
