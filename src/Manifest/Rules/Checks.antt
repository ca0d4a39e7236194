-- ===== src/Manifest/Rules/Checks.antt =====
-- The checks of crossValidate (pkg/manifest/validate.go), each against the rule that it enforces.
use landman.Base.{
  String, ◌<>◌, ◌≡◌, refl, sym, ap, Bool-cases, All-map, All-zip, str_dec, ◌∙◌, ◌≢◌, ◌⊎◌, inl, inr,
  Bool, true, false, Option, none, some, List, [], ◌∷◌, foldl, ℕ, ◌+◌, arith, ok, each, each-All,
  All, >>-ok, >>=-ok, ◌==◌, contains, length,
}
use landman.Base.Map.{Map, lookup, insert, get_or, has, has-true}
use landman.Base.Float.{FloatOps}
use landman.Manifest.Types.{
  TownManifest, TownAgents, RigDefaults, RigSpec, RoleSpec, RoleTrigger, CostPolicy,
}
use landman.Manifest.Cost.{set_fields, validate_cost_policy}
use landman.Manifest.Validate.{
  cross_validate, check_surveyor, check_rigs, check_costs, check_rig_cost, collect_roles,
  check_roles, check_role, check_extends, check_trigger, check_ref, check_refs, is_builtin,
  is_known, extends_targets,
}
use landman.Manifest.Merge.{add_role, by_name}
use landman.Manifest.Chains.Maps.{collect_roles-cons, names_known}
use landman.Manifest.Validate.Names.{
  cross_validate-check_rigs, cross_validate-roles, check_rigs-cons, cross_validate-Unique,
}
use landman.Manifest.Rules.{IsKnown, IsPolicy, IsRole, IsRef, IsSurveyor, IsValid}

abbrev scope_of : Option RoleSpec → String
scope_of none = ""
scope_of (some r) = r.scope

check_surveyor-IsSurveyor :
    (ops : FloatOps) (a : TownAgents) → check_surveyor ops a ≡ ok tt → IsSurveyor ops a
unfolding check_surveyor
check_surveyor-IsSurveyor ops a h = ground arith

validate_cost_policy-one :
    (c : CostPolicy) (ctx : String) → validate_cost_policy c ctx ≡ ok tt → length (set_fields c) ≡ 1
unfolding validate_cost_policy
validate_cost_policy-one c ctx h = ground arith

check_rig_cost-IsPolicy : (rig : RigSpec) → check_rig_cost rig ≡ ok tt → IsPolicy rig.cost
unfolding check_rig_cost
check_rig_cost-IsPolicy rig h =
    ground (arith, validate_cost_policy-one rig.cost ("[rig." <> rig.name <> ".cost]"))

check_rigs-witness :
    (i : ℕ) (seen : List String) (rigs : List RigSpec)
    → check_rigs i seen rigs ≡ ok tt
    → All (λ rig. (rig.agents.witness ≡ false) ⊎ (rig.agents.mayor ≡ true)) rigs
check_rigs-witness i seen [] h = tt
check_rigs-witness i seen (rig ∷ rigs) h =
    let (_, w, rest) = check_rigs-cons i seen rig rigs h in
    (
      witness_or_mayor rig.agents.witness rig.agents.mayor w,
      check_rigs-witness (i + 1) (rig.name ∷ seen) rigs rest,
    )
  where
    witness_or_mayor : (a b : Bool) → (a ≡ true → b ≡ true) → (a ≡ false) ⊎ (b ≡ true)
    witness_or_mayor false b w = inl refl
    witness_or_mayor true b w = inr (w refl)

collect_roles-scope :
    (i : ℕ) (names : List String) (scopes : Map String) (roles : List RoleSpec) (m : Map RoleSpec)
    {out : List String × Map String}
    → collect_roles i names scopes roles ≡ ok out
    → ((n : String) → get_or "" n scopes ≡ scope_of (lookup n m))
    → (n : String) → get_or "" n out.1 ≡ scope_of (lookup n (foldl add_role m roles))
unfolding collect_roles
collect_roles-scope i names scopes [] m h same n = ground (arith, same n)
collect_roles-scope i names scopes (r ∷ roles) m h same n =
    let (_, _, rest) = collect_roles-cons i names scopes r roles h in
    collect_roles-scope (i + 1) (r.name ∷ names) (insert r.name r.scope scopes) roles (add_role m r)
      rest (λ k. unfold add_role in ground (arith, same k)) n

check_extends-base :
    (names : List String) (targets : Map String) (depth : ℕ) (r : RoleSpec)
    → check_extends names targets depth r ≡ ok tt
    → (r.identity.extends ≡ "")
      ⊎ ((contains names r.identity.extends ≡ true)
          × (is_builtin r.identity.extends ≡ false)
          × (r.identity.extends ≢ r.name))
unfolding check_extends
check_extends-base names targets depth r h = ground arith

schedule-event : ◌≢◌ {A = String} "schedule" "event"
unfolding str_dec
schedule-event p = let clash : ◌≡◌ {A = Bool} true false = ap (λ s. s == "schedule") p in cc

check_trigger-ok :
    (name : String) (t : RoleTrigger)
    → check_trigger name t ≡ ok tt
    → ((t.type ≢ "schedule") ⊎ (t.schedule ≢ "")) × ((t.type ≢ "event") ⊎ (t.event ≢ ""))
unfolding check_trigger
check_trigger-ok name t h = ground (arith, schedule-event)

-- What the checks of a role say, before the sets of names are read.
check_role-guards :
    (names : List String) (targets : Map String) (depth : ℕ) (r : RoleSpec)
    → check_role names targets depth r ≡ ok tt
    → (check_trigger r.name r.trigger ≡ ok tt)
      × (is_known names r.supervision.parent ≡ true)
      × ((r.supervision.reports_to ≡ "") ⊎ (is_known names r.supervision.reports_to ≡ true))
      × (check_extends names targets depth r ≡ ok tt)
unfolding check_role
check_role-guards names targets depth r h = ground arith

check_ref-guards :
    (names : List String) (scopes : Map String) (rig ref : String)
    → check_ref names scopes rig ref ≡ ok tt
    → (contains names ref ≡ true) × (get_or "" ref scopes ≢ "town")
unfolding check_ref
check_ref-guards names scopes rig ref h = ground arith

module _ (m : TownManifest) (names : List String) (scopes : Map String)
    (known : (n : String) → contains names n ≡ has n (by_name m.roles))
    (scoped : (n : String) → get_or "" n scopes ≡ scope_of (lookup n (by_name m.roles))) where
  is_known-IsKnown : (n : String) → is_known names n ≡ true → IsKnown m n
  unfolding is_known
  is_known-IsKnown n h = elim (Bool-cases (is_builtin n)) [
    | inl builtin ↦ inl builtin
    | inr custom ↦ inr (sym (known n) ∙ (rw custom at h))
  ]

  check_role-IsRole :
      (targets : Map String) (depth : ℕ) (r : RoleSpec)
      → check_role names targets depth r ≡ ok tt
      → IsRole m r
  check_role-IsRole targets depth r h =
      let (trigger, parent, reports, base) = check_role-guards names targets depth r h in
      let (schedule, event) = check_trigger-ok r.name r.trigger trigger in
      record {
        schedule = schedule;
        event = event;
        parent = is_known-IsKnown r.supervision.parent parent;
        reports_to = elim reports [
          | inl none_set ↦ inl none_set
          | inr k ↦ inr (is_known-IsKnown _ k)
        ];
        extends = elim (check_extends-base names targets depth r base) [
          | inl plain ↦ inl plain
          | inr (defined, custom, other) ↦ inr (sym (known _) ∙ defined, custom, other)
        ];
      }

  check_ref-IsRef : (rig ref : String) → check_ref names scopes rig ref ≡ ok tt → IsRef m ref
  check_ref-IsRef rig ref h =
      let (defined, other) = check_ref-guards names scopes rig ref h in
      let (r, found) = has-true ref (by_name m.roles) (sym (known ref) ∙ defined) in
      (r, found, λ t. other (scoped ref ∙ ap scope_of found ∙ t))

  check_refs-IsRef :
      (rig : RigSpec) → check_refs names scopes rig ≡ ok tt → All (IsRef m) rig.agents.roles
  unfolding check_refs
  check_refs-IsRef rig h =
      All-map (check_ref-IsRef rig.name) rig.agents.roles (each-All _ rig.agents.roles h)

collect_roles-fresh_of_builtin :
    (i : ℕ) (names : List String) (scopes : Map String) (roles : List RoleSpec)
    {out : List String × Map String}
    → collect_roles i names scopes roles ≡ ok out
    → All (λ r. is_builtin r.name ≡ false) roles
collect_roles-fresh_of_builtin i names scopes [] h = tt
collect_roles-fresh_of_builtin i names scopes (r ∷ roles) h =
    let (custom, _, rest) = collect_roles-cons i names scopes r roles h in
    (
      custom,
      collect_roles-fresh_of_builtin (i + 1) (r.name ∷ names) (insert r.name r.scope scopes) roles
          rest,
    )

cross_validate-steps :
    (ops : FloatOps) (m : TownManifest)
    → cross_validate ops m ≡ ok tt
    → (check_surveyor ops m.town.agents ≡ ok tt) × (check_costs m.defaults m.rigs ≡ ok tt)
unfolding cross_validate
cross_validate-steps ops m h = ground arith

check_costs-IsPolicy :
    (d : RigDefaults) (rigs : List RigSpec)
    → check_costs d rigs ≡ ok tt
    → IsPolicy d.cost × All (λ rig. IsPolicy rig.cost) rigs
unfolding check_costs
check_costs-IsPolicy d rigs h =
    let (own, each_rig) = >>-ok _ (each check_rig_cost rigs) h in
    (
      ground (arith, validate_cost_policy-one d.cost "[defaults.cost]"),
      All-map check_rig_cost-IsPolicy rigs (each-All check_rig_cost rigs each_rig),
    )

pub cross_validate-IsValid :
    (ops : FloatOps) (m : TownManifest) → cross_validate ops m ≡ ok tt → IsValid ops m
unfolding check_roles by_name
cross_validate-IsValid ops m h =
    let ((names, scopes), collected, checked) =
      >>=-ok (collect_roles 0 [] [] m.roles) (check_roles m) (cross_validate-roles ops m h) in
    let known = names_known 0 [] [] m.roles [] collected (λ n. refl) in
    let scoped = collect_roles-scope 0 [] [] m.roles [] collected (λ n. refl) in
    let (on_roles, on_rigs) = >>-ok _ (each (check_refs names scopes) m.rigs) checked in
    let (surveyor, costs) = cross_validate-steps ops m h in
    let (default_cost, rig_costs) = check_costs-IsPolicy m.defaults m.rigs costs in
    let witnesses = check_rigs-witness 0 [] m.rigs (cross_validate-check_rigs ops m h) in
    let refs =
      All-map (check_refs-IsRef m names scopes known scoped) m.rigs (each-All _ m.rigs on_rigs) in
    let with_costs : All
        (λ rig. ((rig.agents.witness ≡ false) ⊎ (rig.agents.mayor ≡ true)) × IsPolicy rig.cost)
        m.rigs =
      All-zip (λ rig w c. (w, c)) m.rigs witnesses rig_costs in
    let (rig_names, role_names) = cross_validate-Unique ops m h in
    record {
      surveyor = check_surveyor-IsSurveyor ops m.town.agents surveyor;
      defaults = default_cost;
      rigs =
          All-zip
            (λ rig with_cost r. record { witness = with_cost.0; cost = with_cost.1; refs = r })
            m.rigs with_costs refs;
      roles =
          All-map
            (check_role-IsRole m names scopes known scoped (extends_targets m.roles)
              (length m.roles))
            m.roles (each-All _ m.roles on_roles);
      custom = collect_roles-fresh_of_builtin 0 [] [] m.roles collected;
      rig_names = rig_names;
      role_names = role_names;
    }
