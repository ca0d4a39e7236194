-- ===== src/Operator/Rig/Sync.antt =====
-- The tables behind the statements of a sync.
use mathlib.Core.List.{append_assoc, append-nil}
use landman.Base.{String, ◌≡◌, sym, ap, ◌∙◌, List, [], ◌∷◌, ◌++◌, map, ℤ, ok, arith}
use landman.TownCtl.Topology.{FormulaRow}
use landman.Operator.Types.{Rig, RigFormula}
use landman.Operator.Tables.{Tables, AgentRow, run_all, run, upsert, delete_of}
use landman.Operator.Tables.Laws.{run_all-append}
use landman.Operator.Dolt.{
  Engine, Write, statements, upsert_topology_versions, upsert_topology_lock,
}
use landman.Operator.Dolt.Laws.{statements-append, transaction-run_all}
use landman.Operator.Rig.{
  ResolvedRigDefaults, sync_to_dolt, sync_writes, desired_agents, insert_agents, insert_formulas,
  insert_rig_roles, formula_row, rig_role_row, rig_row, rig_versions,
}

run_writes-append :
    (now : ℤ) (ws vs : List Write) (t : Tables)
    → run_all now (statements (ws ++ vs)) t
      ≡ run_all now (statements vs) (run_all now (statements ws) t)
run_writes-append now ws vs t =
    ap (λ ss. run_all now ss t) (statements-append ws vs)
    ∙ run_all-append now (statements ws) (statements vs) t

insert_agents-run :
    (e : Engine) (rows : List AgentRow) (t : Tables)
    → run_all e.now (statements (insert_agents e rows)) t ≡ record t { agents = t.agents ++ rows }
unfolding run_all
insert_agents-run e [] t = ap (λ rows. record t { agents = rows }) (sym (append-nil t.agents))
insert_agents-run e (r ∷ rows) t =
    insert_agents-run e rows (record t { agents = t.agents ++ (r ∷ []) })
    ∙ ap (λ xs. record t { agents = xs }) (append_assoc t.agents (r ∷ []) rows)

abbrev formula_rows : String → List RigFormula → List FormulaRow
formula_rows rig fs = map (formula_row rig) fs

insert_formulas-run :
    (e : Engine) (rig : String) (fs : List RigFormula) (t : Tables)
    → run_all e.now (statements (insert_formulas e rig fs)) t
      ≡ record t { formulas = t.formulas ++ map (formula_row rig) fs }
unfolding run_all
insert_formulas-run e rig [] t =
    ap (λ rows. record t { formulas = rows }) (sym (append-nil t.formulas))
insert_formulas-run e rig (f ∷ fs) t =
    insert_formulas-run e rig fs (record t { formulas = t.formulas ++ (formula_row rig f ∷ []) })
    ∙ ap (λ xs. record t { formulas = xs })
        (append_assoc t.formulas (formula_row rig f ∷ []) (map (formula_row rig) fs))

insert_rig_roles-run :
    (e : Engine) (rig : String) (roles : List String) (t : Tables)
    → run_all e.now (statements (insert_rig_roles e rig roles)) t
      ≡ record t { rig_roles = t.rig_roles ++ map (rig_role_row rig) roles }
unfolding run_all
insert_rig_roles-run e rig [] t =
    ap (λ rows. record t { rig_roles = rows }) (sym (append-nil t.rig_roles))
insert_rig_roles-run e rig (r ∷ roles) t =
    insert_rig_roles-run e rig roles
      (record t { rig_roles = t.rig_roles ++ (rig_role_row rig r ∷ []) })
    ∙ ap (λ xs. record t { rig_roles = xs })
        (append_assoc t.rig_roles (rig_role_row rig r ∷ []) (map (rig_role_row rig) roles))

-- The versions and the lock are written first.
abbrev claim : Engine → Tables → Tables
claim e t =
    run_all e.now
      (statements (upsert_topology_versions e rig_versions ++ (upsert_topology_lock ∷ []))) t

-- The tables behind all statements of a sync.
abbrev pub synced : Engine → Rig → ResolvedRigDefaults → Tables → Tables
synced e rig resolved t = record (claim e t) {
  rigs = upsert (λ x. x.name) (rig_row rig) t.rigs;
  agents = delete_of (λ x. x.rig_name) rig.meta.name t.agents ++ desired_agents rig resolved;
  formulas =
      delete_of (λ x. x.rig_name) rig.meta.name t.formulas
      ++ map (formula_row rig.meta.name) rig.spec.formulas;
  rig_roles =
      delete_of (λ x. x.rig_name) rig.meta.name t.rig_roles
      ++ map (rig_role_row rig.meta.name) rig.spec.roles;
}

-- Behind the first writes, the rest.
behind :
    (e : Engine) (ws vs : List Write) (t t' : Tables) {t'' : Tables}
    → run_all e.now (statements ws) t ≡ t'
    → run_all e.now (statements vs) t' ≡ t''
    → run_all e.now (statements (ws ++ vs)) t ≡ t''
behind e ws vs t t' first rest =
    run_writes-append e.now ws vs t ∙ ap (run_all e.now (statements vs)) first ∙ rest

pub sync_writes-run :
    (e : Engine) (rig : Rig) (resolved : ResolvedRigDefaults) (t : Tables)
    → run_all e.now (statements (sync_writes e rig resolved)) t ≡ synced e rig resolved t
unfolding sync_writes run_all
sync_writes-run e rig resolved t =
    behind e (insert_agents e (desired_agents rig resolved)) _ _ _
      (insert_agents-run e (desired_agents rig resolved) _)
      (behind e (insert_formulas e rig.meta.name rig.spec.formulas) _ _ _
        (insert_formulas-run e rig.meta.name rig.spec.formulas _)
        (insert_rig_roles-run e rig.meta.name rig.spec.roles _))

-- A sync without an error has run its transaction.
pub sync_to_dolt-synced :
    (e : Engine) (rig : Rig) (resolved : ResolvedRigDefaults) (t t' : Tables) (h : String)
    → sync_to_dolt e rig resolved t ≡ (ok h, t')
    → t' ≡ synced e rig resolved t
unfolding sync_to_dolt
sync_to_dolt-synced e rig resolved t t' h run =
    transaction-run_all e (sync_writes e rig resolved) t t' (ground arith)
    ∙ sync_writes-run e rig resolved t
