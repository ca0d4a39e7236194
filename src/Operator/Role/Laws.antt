-- ===== src/Operator/Role/Laws.antt =====
-- What a sync and a deletion of a role leave in the tables, and the checks of the schema on its row
-- (pkg/k8s/operator/controllers/sql/gastown_init_v1.sql).
use landman.Base.{
  String, ◌≡◌, ◌≢◌, refl, ap, ◌∙◌, ◌⊎◌, inl, inr, true, false, none, some, List, [], ◌∷◌, Result,
  ok, err, arith, ◌==◌, if◌then◌else◌,
}
use landman.Operator.Types.{AgentRole}
use landman.Operator.Webhooks.{Server}
use landman.Operator.Webhooks.Laws.{IsAdmissible, IsTrigger}
use landman.Operator.Tables.{Tables, RoleRow, RigRoleRow, rows_of, upsert, run_all}
use landman.Operator.Tables.Laws.{IsKeyed, rows_of-upsert_if, rows_of-delete_if}
use landman.Operator.Dolt.{Engine, statements, open_dolt_connection}
use landman.Operator.Dolt.Laws.{transaction-run_all}
use landman.Operator.Machinery.{Outcome, outcome, done}
use landman.Operator.Role.{
  Client, role_row, role_writes, delete_writes, sync_to_dolt, delete_from_dolt, handle_deletion,
  has_finalizer, release, delete_connected,
}

-- The constraints `chk_trigger` and `chk_custom_role_name_not_builtin`.
pub record IsStorable (r : RoleRow) : Type 0 where
  pub trigger :
      ((r.trigger_type ≡ "schedule") × (r.trigger_schedule ≢ none))
      ⊎ ((r.trigger_type ≡ "event") × (r.trigger_event ≢ none))
      ⊎ (r.trigger_type ≡ "bead_assigned")
      ⊎ (r.trigger_type ≡ "manual")
  pub custom :
      (r.name ≢ "mayor")
      × (r.name ≢ "polecat")
      × (r.name ≢ "witness")
      × (r.name ≢ "refinery")
      × (r.name ≢ "deacon")
      × (r.name ≢ "dog")
      × (r.name ≢ "crew")

role_row-trigger :
    (s : Server) (ar : AgentRole)
    → IsTrigger s ar.spec.trigger
    → (((role_row ar).trigger_type ≡ "schedule") × ((role_row ar).trigger_schedule ≢ none))
      ⊎ (((role_row ar).trigger_type ≡ "event") × ((role_row ar).trigger_event ≢ none))
      ⊎ ((role_row ar).trigger_type ≡ "bead_assigned")
      ⊎ ((role_row ar).trigger_type ≡ "manual")
unfolding role_row
role_row-trigger s ar h = ground arith

-- The row of a role that the webhook's rules admit meets the constraints chk_trigger and
-- chk_custom_role_name_not_builtin of the table.
pub role_row-IsStorable :
    (s : Server) (ar : AgentRole) → IsAdmissible s ar → IsStorable (role_row ar)
unfolding role_row
role_row-IsStorable s ar h = record {
  trigger = role_row-trigger s ar h.3;
  custom = ground (arith, h.0);
}

-- A role in the tables: its row, and the rigs that have opted into it.
pub record RoleRows : Type 0 where
  pub role : List RoleRow
  pub uses : List RigRoleRow

abbrev pub role_view : String → Tables → RoleRows
role_view name t = record {
  role = rows_of (λ r. r.name) name t.roles;
  uses = rows_of (λ r. r.role_name) name t.rig_roles;
}

role_writes-run :
    (e : Engine) (ar : AgentRole) (t t' : Tables) (h : String)
    → sync_to_dolt e ar t ≡ (ok h, t')
    → (t'.roles ≡ upsert (λ r. r.name) (role_row ar) t.roles) × (t'.rig_roles ≡ t.rig_roles)
unfolding sync_to_dolt run_all
role_writes-run e ar t t' h go =
    let e' : t' ≡ run_all e.now (statements (role_writes e ar)) t =
      transaction-run_all e (role_writes e ar) t t' (ground arith) in
    (ap (λ x. x.roles) e', ap (λ x. x.rig_roles) e')

pub sync_to_dolt-role_view :
    (e : Engine) (ar : AgentRole) (t t' : Tables) (h k : String)
    → IsKeyed (λ r. r.name) t.roles
    → sync_to_dolt e ar t ≡ (ok h, t')
    → role_view k t' ≡ (
        if ar.meta.name == k
        then record { role = role_row ar ∷ []; uses = (role_view k t).uses }
        else role_view k t)
unfolding sync_to_dolt
sync_to_dolt-role_view e ar t t' h k keyed go =
    let (roles, uses) = role_writes-run e ar t t' h go in
    rw (roles, uses, rows_of-upsert_if (λ r. r.name) (role_row ar) k t.roles keyed)
      (elim (ar.meta.name == k)
        as (λ b.
          ◌≡◌ {A = RoleRows}
            (record {
              role = if b then role_row ar ∷ [] else rows_of (λ r. r.name) k t.roles;
              uses = rows_of (λ r. r.role_name) k t.rig_roles;
            })
            (if b
              then record { role = role_row ar ∷ []; uses = (role_view k t).uses }
              else role_view k t)) [ true ↦ refl | false ↦ refl ])

delete_from_dolt_view :
    (e : Engine) (name : String) (t t' : Tables) (k : String)
    → delete_from_dolt e name t ≡ (ok tt, t')
    → role_view k t' ≡ (if name == k then record { role = []; uses = [] } else role_view k t)
unfolding delete_from_dolt run_all
delete_from_dolt_view e name t t' k go =
    ap (role_view k) (transaction-run_all e (delete_writes e name) t t' go)
    ∙ rw
        (
          rows_of-delete_if (λ r. r.name) k name t.roles,
          rows_of-delete_if (λ r. r.role_name) k name t.rig_roles,
        )
        (elim (name == k)
          as (λ b.
            ◌≡◌ {A = RoleRows}
              (record {
                role = if b then [] else rows_of (λ r. r.name) k t.roles;
                uses = if b then [] else rows_of (λ r. r.role_name) k t.rig_roles;
              })
              (if b then record { role = []; uses = [] } else role_view k t)) [
                | true ↦ refl
                | false ↦ refl
              ])

abbrev Purged : Client → AgentRole → Tables → String → Outcome AgentRole → Type 0
Purged c ar t k o =
    (o.object ≡ some ar)
    ⊎ (role_view k o.tables
        ≡ (if ar.meta.name == k then record { role = []; uses = [] } else role_view k t))

release-Purged :
    (c : Client) (ar : AgentRole) (t : Tables) (k : String)
    → Purged c ar t k (release c ar (delete_from_dolt c.engine ar.meta.name t))
release-Purged c ar t k = go (delete_from_dolt c.engine ar.meta.name t) refl
  where
    go :
        (r : Result String (Unit {0}) × Tables)
        → delete_from_dolt c.engine ar.meta.name t ≡ r
        → Purged c ar t k (release c ar r)
    go (err x, t') e = inl refl
    go (ok tt, t') e = inr (delete_from_dolt_view c.engine ar.meta.name t t' k e)

delete_connected-Purged :
    (c : Client) (ar : AgentRole) (t : Tables) (k : String) (r : Result String String)
    → Purged c ar t k (delete_connected c ar t r)
delete_connected-Purged c ar t k (err x) = inl refl
delete_connected-Purged c ar t k (ok endpoint) = release-Purged c ar t k

handle_deletion-Purged :
    (c : Client) (ar : AgentRole) (t : Tables) (k : String)
    → Purged c ar t k (handle_deletion c ar t)
unfolding handle_deletion
handle_deletion-Purged c ar t k =
    elim (has_finalizer c ar)
      as (λ b. Purged c ar t k (
        if b
        then delete_connected c ar t
            (open_dolt_connection c.engine ar.spec.town_ref ar.meta.namespace)
        else outcome done none (some ar) t [])) [
          | true ↦
              delete_connected-Purged c ar t k
                (open_dolt_connection c.engine ar.spec.town_ref ar.meta.namespace)
          | false ↦ inl refl
        ]

-- If the deletion handler of a role that held its finalizer stores the role without it, then the
-- custom role of that name has no row and no rig opts in to it any more, and the rows of every
-- other role are unchanged.
pub handle_deletion_released :
    (c : Client) (ar ar' : AgentRole) (t : Tables) (k : String)
    → has_finalizer c ar ≡ true
    → (handle_deletion c ar t).object ≡ some ar'
    → has_finalizer c ar' ≡ false
    → role_view k (handle_deletion c ar t).tables
      ≡ (if ar.meta.name == k then record { role = []; uses = [] } else role_view k t)
handle_deletion_released c ar ar' t k held object released =
    elim (handle_deletion-Purged c ar t k) [
      | inl kept ↦ absurd (ground (arith, kept))
      | inr purged ↦ purged
    ]
