-- ===== src/Operator/Webhooks/Histories.antt =====
-- Sequences of updates that the webhooks admit, and what stays as it was.
use landman.Base.{
  String, ◌≡◌, refl, sym, subst, ◌∙◌, ◌⊎◌, inr, false, Option, some, List, [], ◌∷◌, pos, ℤ, ◌<ℤ◌,
  length, Result, ok, arith,
}
use landman.Operator.Types.{Rig, GasTown, DoltInstance}
use landman.Operator.Admission.{Request, update, Response, allowed}
use landman.Operator.Semver.{parse_semver, is_older, is_version_downgrade}
use landman.Operator.Semver.Laws.{parse_semver-length}
use landman.Operator.Webhooks.{Server, validate_rig, validate_gas_town, validate_dolt_instance}
use landman.Operator.Webhooks.Laws.{validate_rig_update, validate_dolt_instance_update}

-- The request is an update of `old` to `new`, and the handler admits it.
pub record Admits {A : Type 0} (decode : String → Result String A) (handle : Request → Response)
    (old new : A) : Type 0 where
  pub request : Request
  pub is_update : request.operation ≡ update
  pub decodes_old : decode request.old_object ≡ ok old
  pub decodes_new : decode request.object ≡ ok new
  pub admitted : handle request ≡ allowed

-- An object's history: each version is an admitted update of the one before.
pub data History {A : Type 0} (Step : A → A → Type 0) (first : A) : A → Type 0 where
  created : History Step first first
  updated : {old new : A} → History Step first old → Step old new → History Step first new

abbrev pub RigStep : Server → Rig → Rig → Type 0
RigStep s = Admits s.decode_rig (validate_rig s)

abbrev pub GasTownStep : Server → GasTown → GasTown → Type 0
GasTownStep s = Admits s.decode_gas_town (validate_gas_town s)

-- An update to a version that `parseSemver` reads.
abbrev pub InstanceStep : Server → DoltInstance → DoltInstance → Type 0
InstanceStep s old new =
    Admits s.decode_instance (validate_dolt_instance s) old new
    × ((nums : List ℤ) × (parse_semver new.spec.version ≡ some nums))

validate_gas_town_update :
    (s : Server) (req : Request) (old new : GasTown)
    → req.operation ≡ update
    → s.decode_gas_town req.old_object ≡ ok old
    → s.decode_gas_town req.object ≡ ok new
    → validate_gas_town s req ≡ allowed
    → new.spec.dolt_ref ≡ old.spec.dolt_ref
unfolding validate_gas_town
validate_gas_town_update s req old new is_update was decoded h = ground arith

pub rig_updates_town_ref :
    (s : Server) {first last : Rig}
    → History (RigStep s) first last
    → last.spec.town_ref ≡ first.spec.town_ref
rig_updates_town_ref s created = refl
rig_updates_town_ref s (updated {old} {new} before step) =
    ((validate_rig_update s step.request old new step.is_update step.decodes_old step.decodes_new).0
      step.admitted).0
    ∙ rig_updates_town_ref s before

pub gas_town_updates_dolt_ref :
    (s : Server) {first last : GasTown}
    → History (GasTownStep s) first last
    → last.spec.dolt_ref ≡ first.spec.dolt_ref
gas_town_updates_dolt_ref s created = refl
gas_town_updates_dolt_ref s (updated {old} {new} before step) =
    validate_gas_town_update s step.request old new step.is_update step.decodes_old step.decodes_new
      step.admitted
    ∙ gas_town_updates_dolt_ref s before

-- A version, number by number, is no earlier than another: it is the same, or at the first place
-- where they differ its number is the greater one.
abbrev pub IsAtLeast : List ℤ → List ℤ → Type 0
IsAtLeast [] [] = Unit {0}
IsAtLeast [] (b ∷ others) = ⊥
IsAtLeast (a ∷ more) [] = ⊥
IsAtLeast (a ∷ more) (b ∷ others) = (b <ℤ a) ⊎ ((a ≡ b) × IsAtLeast more others)

IsAtLeast-refl : (a : List ℤ) → IsAtLeast a a
IsAtLeast-refl [] = tt
IsAtLeast-refl (x ∷ a) = inr (refl, IsAtLeast-refl a)

IsAtLeast-trans : (a b c : List ℤ) → IsAtLeast a b → IsAtLeast b c → IsAtLeast a c
IsAtLeast-trans [] [] [] h k = tt
IsAtLeast-trans [] [] (z ∷ c) h k = k
IsAtLeast-trans [] (y ∷ b) c h k = absurd h
IsAtLeast-trans (x ∷ a) [] c h k = absurd h
IsAtLeast-trans (x ∷ a) (y ∷ b) [] h k = absurd k
IsAtLeast-trans (x ∷ a) (y ∷ b) (z ∷ c) h k = ground (arith, IsAtLeast-trans a b c)

-- What the webhook lets pass, where both versions have as many numbers.
is_older-IsAtLeast :
    (old new : List ℤ) → length new ≡ length old → is_older old new ≡ false → IsAtLeast new old
unfolding is_older
is_older-IsAtLeast [] [] same h = tt
is_older-IsAtLeast [] (n ∷ new) same h = absurd (ground arith)
is_older-IsAtLeast (o ∷ old) [] same h = absurd (ground arith)
is_older-IsAtLeast (o ∷ old) (n ∷ new) same h = ground (arith, is_older-IsAtLeast old new)

-- One more update.
next_version :
    (s : Server) (old new : DoltInstance) (a b : List ℤ)
    → Admits s.decode_instance (validate_dolt_instance s) old new
    → parse_semver old.spec.version ≡ some a
    → parse_semver new.spec.version ≡ some b
    → (new.spec.storage ≡ old.spec.storage) × IsAtLeast b a
unfolding is_version_downgrade
next_version s old new a b step parsed released = (
  kept.1,
  is_older-IsAtLeast a b
      (parse_semver-length new.spec.version {nums = b} released
        ∙ sym (parse_semver-length old.spec.version {nums = a} parsed))
      (ground (arith, kept.2)),
)
  where
    kept :
        (new.spec.replicas ≡ pos 1)
        × (new.spec.storage ≡ old.spec.storage)
        × (is_version_downgrade old.spec.version new.spec.version ≡ false)
    kept =
        (validate_dolt_instance_update s step.request old new step.is_update step.decodes_old
            step.decodes_new).0
          step.admitted

-- The numbers of the last version, as far as a history has come.
last_version :
    (s : Server) {first last : DoltInstance} (a : List ℤ)
    → parse_semver first.spec.version ≡ some a
    → History (InstanceStep s) first last
    → (b : List ℤ) × (parse_semver last.spec.version ≡ some b)
      × IsAtLeast b a
      × (last.spec.storage ≡ first.spec.storage)
last_version s a parsed created = (a, parsed, IsAtLeast-refl a, refl)
last_version s a parsed (updated {old} {new} before (step, (b, released))) =
    let (known, is_known, later, same) = last_version s a parsed before in
    let (kept, next) = next_version s old new known b step is_known released in
    (b, released, IsAtLeast-trans b known a next later, kept ∙ same)

some_inj : {x y : List ℤ} → ◌≡◌ {A = Option (List ℤ)} (some x) (some y) → x ≡ y
some_inj h = cc

-- Let the versions of a DoltInstance as it was created and as it is now both parse, and let each
-- version since be an update that the webhook admits, to a version that parses. Then the numbers now
-- are no earlier than the first ones, in the order of major, minor and patch, and the storage is the
-- first one's.
pub instance_updates_version :
    (s : Server) {first last : DoltInstance} (a b : List ℤ)
    → parse_semver first.spec.version ≡ some a
    → parse_semver last.spec.version ≡ some b
    → History (InstanceStep s) first last
    → IsAtLeast b a × (last.spec.storage ≡ first.spec.storage)
instance_updates_version s a b parsed parsed' history =
    let (known, is_known, later, same) = last_version s a parsed history in
    (subst (λ c. IsAtLeast c a) (some_inj (sym is_known ∙ parsed')) later, same)
