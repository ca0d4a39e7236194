-- ===== src/Operator/Rig/View.antt =====
-- The tables rig by rig, as a sync leaves them.
use mathlib.Core.List.{append-nil}
use landman.Base.{
  String, ◌<>◌, Bool, true, false, none, some, ◌≡◌, ◌≢◌, refl, ap, ◌∙◌, List, [], ◌∷◌, ◌++◌, map,
  ok, arith, ◌==◌, ==_self, str_dec, subst, if◌then◌else◌, select-append,
}
use landman.TownCtl.Topology.{FormulaRow}
use landman.Operator.Types.{Rig, RigFormula}
use landman.Operator.Tables.{Tables, AgentRow, RigRoleRow, RigRow, run, rows_of, delete_of}
use landman.Operator.Tables.Laws.{
  Keyed, IsKeyed, rows_of-upsert, rows_of-upsert_self, rows_of-delete_of, rows_of-delete_of_ne,
  rows_of-Keyed, rows_of-Keyed_ne,
}
use landman.Operator.Dolt.{Engine}
use landman.Operator.Rig.{
  ResolvedRigDefaults, sync_to_dolt, desired_agents, formula_row, rig_role_row, rig_row,
}
use landman.Operator.Rig.Sync.{synced, sync_to_dolt-synced}

desired_agents-Keyed :
    (rig : Rig) (resolved : ResolvedRigDefaults)
    → Keyed (λ r. r.rig_name) rig.meta.name (desired_agents rig resolved)
unfolding desired_agents
desired_agents-Keyed rig resolved = ground arith

formula_rows-Keyed :
    (rig : String) (fs : List RigFormula) → Keyed (λ r. r.rig_name) rig (map (formula_row rig) fs)
formula_rows-Keyed rig [] = tt
formula_rows-Keyed rig (f ∷ fs) = (refl, formula_rows-Keyed rig fs)

rig_role_rows-Keyed :
    (rig : String) (roles : List String)
    → Keyed (λ r. r.rig_name) rig (map (rig_role_row rig) roles)
rig_role_rows-Keyed rig [] = tt
rig_role_rows-Keyed rig (r ∷ roles) = (refl, rig_role_rows-Keyed rig roles)

-- Rows that replace those of their key: they are the key's rows, and no other key's rows change.
module _ {A : Type 0} (key : A → String) (k : String) (rows xs : List A)
    (keyed : Keyed key k rows) where
  replaced-own : rows_of key k (delete_of key k xs ++ rows) ≡ rows
  replaced-own =
      select-append (λ x. key x == k) (delete_of key k xs) rows
      ∙ ap (λ found. found ++ rows_of key k rows) (rows_of-delete_of key k xs)
      ∙ rows_of-Keyed key k rows keyed

  replaced-other :
      (j : String) → k ≢ j → rows_of key j (delete_of key k xs ++ rows) ≡ rows_of key j xs
  replaced-other j differ =
      select-append (λ x. key x == j) (delete_of key k xs) rows
      ∙ ap (λ found. found ++ rows_of key j rows) (rows_of-delete_of_ne key j k xs differ)
      ∙ ap (λ more. rows_of key j xs ++ more) (rows_of-Keyed_ne key j k rows keyed differ)
      ∙ append-nil (rows_of key j xs)

-- The rows of one rig.
pub record RigRows : Type 0 where
  pub rigs : List RigRow
  pub agents : List AgentRow
  pub formulas : List FormulaRow
  pub rig_roles : List RigRoleRow

-- What the tables say of a rig.
abbrev pub view : String → Tables → RigRows
view name t = record {
  rigs = rows_of (λ r. r.name) name t.rigs;
  agents = rows_of (λ r. r.rig_name) name t.agents;
  formulas = rows_of (λ r. r.rig_name) name t.formulas;
  rig_roles = rows_of (λ r. r.rig_name) name t.rig_roles;
}

-- The rows as the statements write them.
abbrev written_rows : Rig → ResolvedRigDefaults → RigRows
written_rows rig resolved = record {
  rigs = rig_row rig ∷ [];
  agents = desired_agents rig resolved;
  formulas = map (formula_row rig.meta.name) rig.spec.formulas;
  rig_roles = map (rig_role_row rig.meta.name) rig.spec.roles;
}

abbrev when {ℓ} : {A : Type ℓ} → Bool → A → List A
when true a = a ∷ []
when false a = []

-- An agent without a model, a pool or a file of its own.
abbrev plain_agent : Rig → String → AgentRow
plain_agent rig role = record {
  rig_name = rig.meta.name;
  role = role;
  enabled = true;
  model = none;
  max_polecats = none;
  claude_md_path = none;
}

-- The agents that the spec enables, and the polecats.
abbrev specified_agents : Rig → ResolvedRigDefaults → List AgentRow
specified_agents rig resolved =
    when rig.spec.agents.mayor (record (plain_agent rig "mayor") {
      model = some resolved.mayor_model;
      claude_md_path = some ("/gt/rigs/" <> (rig.meta.name <> "/CLAUDE.md"));
    })
    ++ (when rig.spec.agents.witness (plain_agent rig "witness")
        ++ (when rig.spec.agents.refinery (plain_agent rig "refinery")
            ++ (when rig.spec.agents.deacon (plain_agent rig "deacon")
                ++ (record (plain_agent rig "polecat") {
                  model = some resolved.polecat_model;
                  max_polecats = some resolved.max_polecats;
                }
                    ∷ []))))

-- What the resource says of the rig, with its defaults resolved.
abbrev pub specified : Rig → ResolvedRigDefaults → RigRows
specified rig resolved = record {
  rigs =
      record {
        name = rig.meta.name;
        repo = rig.spec.repo;
        branch = rig.spec.branch;
        enabled = rig.spec.enabled;
      }
      ∷ [];
  agents = specified_agents rig resolved;
  formulas =
      map (λ f. record { rig_name = rig.meta.name; name = f.name; schedule = f.schedule })
        rig.spec.formulas;
  rig_roles =
      map (λ role. record { rig_name = rig.meta.name; role_name = role; enabled = true })
        rig.spec.roles;
}

desired_agents-specified :
    (rig : Rig) (resolved : ResolvedRigDefaults)
    → desired_agents rig resolved ≡ specified_agents rig resolved
unfolding desired_agents
desired_agents-specified rig resolved = ground arith

written_rows-specified :
    (rig : Rig) (resolved : ResolvedRigDefaults)
    → written_rows rig resolved ≡ specified rig resolved
written_rows-specified rig resolved = rw (desired_agents-specified rig resolved) refl

synced-own :
    (e : Engine) (rig : Rig) (resolved : ResolvedRigDefaults) (t : Tables)
    → IsKeyed (λ r. r.name) t.rigs
    → view rig.meta.name (synced e rig resolved t) ≡ written_rows rig resolved
synced-own e rig resolved t keyed =
    rw
      (
        rows_of-upsert_self (λ r. r.name) (rig_row rig) t.rigs keyed,
        replaced-own (λ r. r.rig_name) rig.meta.name (desired_agents rig resolved) t.agents
            (desired_agents-Keyed rig resolved),
        replaced-own (λ r. r.rig_name) rig.meta.name
            (map (formula_row rig.meta.name) rig.spec.formulas) t.formulas
            (formula_rows-Keyed rig.meta.name rig.spec.formulas),
        replaced-own (λ r. r.rig_name) rig.meta.name
            (map (rig_role_row rig.meta.name) rig.spec.roles) t.rig_roles
            (rig_role_rows-Keyed rig.meta.name rig.spec.roles),
      )
      refl

synced-other :
    (e : Engine) (rig : Rig) (resolved : ResolvedRigDefaults) (t : Tables) (k : String)
    → rig.meta.name ≢ k
    → view k (synced e rig resolved t) ≡ view k t
synced-other e rig resolved t k differ =
    rw
      (
        rows_of-upsert (λ r. r.name) (rig_row rig) k t.rigs differ,
        replaced-other (λ r. r.rig_name) rig.meta.name (desired_agents rig resolved) t.agents
            (desired_agents-Keyed rig resolved) k differ,
        replaced-other (λ r. r.rig_name) rig.meta.name
            (map (formula_row rig.meta.name) rig.spec.formulas) t.formulas
            (formula_rows-Keyed rig.meta.name rig.spec.formulas) k differ,
        replaced-other (λ r. r.rig_name) rig.meta.name
            (map (rig_role_row rig.meta.name) rig.spec.roles) t.rig_roles
            (rig_role_rows-Keyed rig.meta.name rig.spec.roles) k differ,
      )
      refl

pub synced-view :
    (e : Engine) (rig : Rig) (resolved : ResolvedRigDefaults) (t : Tables) (k : String)
    → IsKeyed (λ r. r.name) t.rigs
    → view k (synced e rig resolved t)
      ≡ (if rig.meta.name == k then written_rows rig resolved else view k t)
synced-view e rig resolved t k keyed = elim (str_dec rig.meta.name k) [
  | yes same ↦
      subst
        (λ j.
          view j (synced e rig resolved t)
          ≡ (if rig.meta.name == j then written_rows rig resolved else view j t))
        same (rw (==_self rig.meta.name) (synced-own e rig resolved t keyed))
  | no differ ↦ synced-other e rig resolved t k differ ∙ ground arith
]

-- If syncToDolt of a rig succeeds on tables where each row of desired_rigs has a name of its own,
-- then under the rig's name the four tables hold exactly what its spec asks for: one row of the rig
-- with the spec's repository, branch and enabled flag; a row for each agent that the spec enables and
-- one for the polecats, with the resolved models and pool size; its formulas; and its roles; whatever
-- they held before. Under every other name they are unchanged.
pub sync_to_dolt-view :
    (e : Engine) (rig : Rig) (resolved : ResolvedRigDefaults) (t t' : Tables) (h k : String)
    → IsKeyed (λ r. r.name) t.rigs
    → sync_to_dolt e rig resolved t ≡ (ok h, t')
    → view k t' ≡ (if rig.meta.name == k then specified rig resolved else view k t)
sync_to_dolt-view e rig resolved t t' h k keyed run =
    ap (view k) (sync_to_dolt-synced e rig resolved t t' h run)
    ∙ synced-view e rig resolved t k keyed
    ∙ ap (λ rows. if rig.meta.name == k then rows else view k t)
        (written_rows-specified rig resolved)
