-- ===== src/TownCtl/Roles/Laws.antt =====
-- The diff of custom roles (pkg/townctl/customroles.go, DiffCustomRoles) and the table.
use landman.Base.{String, ◌≡◌, refl, ap, ◌∙◌, true, Option, none, some, List, [], ◌∷◌, arith, map}
use landman.Base.{ok, str_dec, contains, inl, inr}
use landman.Base.Float.{FloatOps}
use landman.Manifest.Types.{TownManifest, RoleSpec}
use landman.Manifest.Validate.{cross_validate}
use landman.Manifest.Validate.Names.{Unique, names_of_roles, cross_validate-Unique}
use landman.TownCtl.Diff.{find, keeps}
use landman.TownCtl.Diff.Laws.{Agrees, after, Distinct, plan-Agrees, plan_self, plan_self_of_keys}
use landman.Base.{Bool, true, not, ◌&&◌, ◌||◌, any, ◌++◌}
use landman.Manifest.Types.{is_nil, RigSpec}
use landman.Base.{◌==◌}
use landman.TownCtl.Diff.Presence.{plan-keeps}
use landman.TownCtl.Roles.{
  RigRoleKey, rig_role_rows, CustomRoleRow, role_spec_to_row, resolve_custom_roles, same_role,
  diff_custom_roles, RigCustomRoleRow, resolve_rig_custom_roles, key_dec, rig_role_key,
}

abbrev pub row_name : CustomRoleRow → String
row_name r = r.name

role_spec_to_row-name :
    (expand : String → String) (r : RoleSpec) → (role_spec_to_row expand r).name ≡ r.name
unfolding role_spec_to_row
role_spec_to_row-name expand r = refl

rows-keeps :
    (expand : String → String) (roles : List RoleSpec) (k : String)
    → keeps str_dec row_name (map (role_spec_to_row expand) roles) k
      ≡ contains (names_of_roles roles) k
unfolding role_spec_to_row
rows-keeps expand [] k = refl
rows-keeps expand (r ∷ roles) k = ground (arith, rows-keeps expand roles k)

rows-Distinct :
    (expand : String → String) (roles : List RoleSpec)
    → Unique (names_of_roles roles)
    → Distinct str_dec row_name (map (role_spec_to_row expand) roles)
unfolding role_spec_to_row
rows-Distinct expand [] u = tt
rows-Distinct expand (r ∷ roles) (fresh, u) =
    (rows-keeps expand roles r.name ∙ fresh, rows-Distinct expand roles u)

-- Rows that compare equal are the same row.
same_role-eq : (a b : CustomRoleRow) → same_role a b ≡ true → a ≡ b
unfolding same_role
same_role-eq a b h = ground arith

same_role_refl : (a : CustomRoleRow) → same_role a a ≡ true
unfolding same_role
same_role_refl a = ground arith

-- What the manifest asks of a name.
abbrev pub row_of : (String → String) → Option RoleSpec → Option CustomRoleRow
row_of expand none = none
row_of expand (some r) = some (role_spec_to_row expand r)

abbrev pub role_name : RoleSpec → String
role_name r = r.name

rows-find :
    (expand : String → String) (roles : List RoleSpec) (k : String)
    → find str_dec row_name k (map (role_spec_to_row expand) roles)
      ≡ row_of expand (find str_dec role_name k roles)
rows-find expand [] k = refl
rows-find expand (r ∷ roles) k =
    ground (arith, rows-find expand roles k, role_spec_to_row-name expand r)

Agrees-eq : (a b : Option CustomRoleRow) → Agrees same_role a b → a ≡ b
Agrees-eq none none h = refl
Agrees-eq none (some b) h = absurd h
Agrees-eq (some a) none h = absurd h
Agrees-eq (some a) (some b) (inl e) = ap some e
Agrees-eq (some a) (some b) (inr e) = ap some (same_role-eq a b e)

-- For a manifest that passed validation, and whatever the table holds: when the role operations of
-- the diff are carried out, the table holds exactly the rows of the manifest's roles.
pub diff_custom_roles-after :
    (ops : FloatOps) (expand : String → String) (m : TownManifest) (current : List CustomRoleRow)
    (current_rig : List RigCustomRoleRow) (k : String)
    → cross_validate ops m ≡ ok tt
    → after str_dec row_name k
        (find str_dec row_name k current)
        (diff_custom_roles expand m current current_rig).role_ops
      ≡ row_of expand (find str_dec role_name k m.roles)
unfolding diff_custom_roles resolve_custom_roles
diff_custom_roles-after ops expand m current current_rig k valid =
    Agrees-eq _ _ (
      plan-Agrees str_dec row_name same_role (map (role_spec_to_row expand) m.roles) current
        (rows-Distinct expand m.roles (cross_validate-Unique ops m valid).1) k)
    ∙ rows-find expand m.roles k

-- A manifest that passed validation has nothing to change in tables that hold its rows.
pub diff_custom_roles_self :
    (ops : FloatOps) (expand : String → String) (m : TownManifest)
    → cross_validate ops m ≡ ok tt
    → diff_custom_roles expand m (resolve_custom_roles expand m) (resolve_rig_custom_roles m)
      ≡ record { role_ops = []; rig_role_ops = [] }
unfolding diff_custom_roles resolve_custom_roles
diff_custom_roles_self ops expand m valid = λ i. record {
  role_ops =
      plan_self str_dec row_name same_role same_role_refl (map (role_spec_to_row expand) m.roles)
        (rows-Distinct expand m.roles (cross_validate-Unique ops m valid).1) i;
  rig_role_ops =
      plan_self_of_keys key_dec rig_role_key (λ _ _. true) (λ a b. refl)
        (resolve_rig_custom_roles m) i;
}

-- A rig of the name opts in to the role.
abbrev pub opts_in : List RigSpec → RigRoleKey → Bool
opts_in rigs k = any (λ rig. rig.name == k.rig && contains rig.agents.roles k.role) rigs

keeps-append :
    (xs ys : List RigCustomRoleRow) (k : RigRoleKey)
    → keeps key_dec rig_role_key (xs ++ ys) k
      ≡ (keeps key_dec rig_role_key xs k || keeps key_dec rig_role_key ys k)
keeps-append [] ys k = refl
keeps-append (x ∷ xs) ys k = ground (arith, keeps-append xs ys k)

keeps-refs :
    (name : String) (refs : List String) (k : RigRoleKey)
    → keeps key_dec rig_role_key (map (λ role. record { rig_name = name; role_name = role }) refs) k
      ≡ (name == k.rig && contains refs k.role)
unfolding key_dec
keeps-refs name [] k = ground arith
keeps-refs name (ref ∷ refs) k = ground (arith, keeps-refs name refs k)

keeps-opts_in :
    (rigs : List RigSpec) (k : RigRoleKey)
    → keeps key_dec rig_role_key (rig_role_rows rigs) k ≡ opts_in rigs k
unfolding rig_role_rows
keeps-opts_in [] k = refl
keeps-opts_in (rig ∷ rigs) k =
    keeps-append (map (λ role. record { rig_name = rig.name; role_name = role }) rig.agents.roles)
      (rig_role_rows rigs) k
    ∙ ground (arith, keeps-refs rig.name rig.agents.roles k, keeps-opts_in rigs k)

-- Whatever the tables hold: when the opt-in operations of the diff are carried out, the table has a
-- row for a rig and a role exactly when a rig of that name in the manifest opts in to that role.
pub diff_custom_roles_opt_ins :
    (expand : String → String) (m : TownManifest) (current : List CustomRoleRow)
    (current_rig : List RigCustomRoleRow) (k : RigRoleKey)
    → is_nil (
        after key_dec rig_role_key k
          (find key_dec rig_role_key k current_rig)
          (diff_custom_roles expand m current current_rig).rig_role_ops)
      ≡ not (opts_in m.rigs k)
unfolding diff_custom_roles resolve_rig_custom_roles
diff_custom_roles_opt_ins expand m current current_rig k =
    plan-keeps key_dec rig_role_key (λ _ _. true) (λ a b. refl) current_rig k (rig_role_rows m.rigs)
    ∙ ap not (keeps-opts_in m.rigs k)
