-- ===== src/Operator/Rig/Lifecycle.antt =====
-- A rig from its creation on: reconciles, edits, a deletion, and other writers, in any order.
use landman.Base.{
  ◌≡◌, refl, sym, ap, ◌∙◌, subst, ◌⊎◌, inl, inr, true, false, some, List, [], arith, Bool-cases,
}
use landman.Operator.Types.{Rig, RigSpec, GasTown, Fetch, found}
use landman.Operator.Tables.{Tables, RigRow, rows_of}
use landman.Operator.Tables.Laws.{AllDisabled}
use landman.Operator.Machinery.{Machinery, Outcome}
use landman.Operator.Rig.{Client, rig_drain_finalizer}
use landman.Operator.Rig.Reconcile.{handle_deletion, reconcile, reconcile_in_town, has_finalizer}
use landman.Operator.Rig.Drain.{Drained, handle_deletion-Drained}

pub record World : Type 0 where
  pub rig : Rig
  pub tables : Tables

abbrev pub own_rows : Rig → Tables → List RigRow
own_rows rig t = rows_of (λ r. r.name) rig.meta.name t.rigs

pub data Step (m : Machinery) : World → World → Type 0 where
  -- any answers of the API server and of the database
  reconciled :
      (c : Client) (w : World) (rig : Rig)
      → c.machinery ≡ m
      → (reconcile c (found w.rig) w.tables).object ≡ some rig
      → Step m w (record { rig = rig; tables = (reconcile c (found w.rig) w.tables).tables })
  edited : (w : World) (spec : RigSpec) → Step m w (record w { rig = record w.rig { spec = spec } })
  deleted :
      (w : World)
      → Step m w (record w { rig = record w.rig { meta = record w.rig.meta { deleting = true } } })
  -- writers that leave the row of this rig alone
  others :
      (w : World) (t : Tables)
      → own_rows w.rig t ≡ own_rows w.rig w.tables
      → Step m w (record w { tables = t })

pub data Reach (m : Machinery) (first : World) : World → Type 0 where
  start : Reach m first first
  next : {w w' : World} → Reach m first w → Step m w w' → Reach m first w'

-- The finalizer is there, or no row of the rig is enabled.
abbrev pub IsGuarded : Machinery → Rig → Tables → Type 0
IsGuarded m rig t =
    (m.contains_finalizer rig.meta.finalizers rig_drain_finalizer ≡ true)
    ⊎ AllDisabled (own_rows rig t)

reconcile_in_town-meta :
    (c : Client) (rig rig' : Rig) (gt : Fetch GasTown) (t : Tables)
    → (reconcile_in_town c rig gt t).object ≡ some rig'
    → rig'.meta ≡ rig.meta
unfolding reconcile_in_town
reconcile_in_town-meta c rig rig' gt t h = ground arith

-- Without the finalizer a reconcile writes no table.
reconcile_unregistered :
    (c : Client) (rig rig' : Rig) (t : Tables)
    → has_finalizer c rig ≡ false
    → (reconcile c (found rig) t).object ≡ some rig'
    → ((reconcile c (found rig) t).tables ≡ t) × (rig'.meta.name ≡ rig.meta.name)
unfolding reconcile handle_deletion
reconcile_unregistered c rig rig' t no_finalizer h = ground arith

-- With the finalizer, it stays or the rig has been drained.
reconcile_registered :
    (c : Client) (rig rig' : Rig) (t : Tables)
    → has_finalizer c rig ≡ true
    → (reconcile c (found rig) t).object ≡ some rig'
    → (rig'.meta ≡ rig.meta)
      ⊎ ((rig'.meta.name ≡ rig.meta.name)
          × AllDisabled (own_rows rig (reconcile c (found rig) t).tables))
unfolding reconcile
reconcile_registered c rig rig' t finalizer h = elim (Bool-cases rig.meta.deleting) [
  | inl deleting ↦
      let same : handle_deletion c rig t ≡ reconcile c (found rig) t = ground (arith, deleting) in
      of_drain (reconcile c (found rig) t)
        (subst (Drained c rig) same (handle_deletion-Drained c rig t)) h
  | inr stays ↦ inl (
      reconcile_in_town-meta c rig rig' (c.engine.get_gas_town rig.spec.town_ref) t
        (ground (arith, stays)))
]
  where
    of_drain :
        (o : Outcome Rig)
        → Drained c rig o
        → o.object ≡ some rig'
        → (rig'.meta ≡ rig.meta)
          ⊎ ((rig'.meta.name ≡ rig.meta.name) × AllDisabled (own_rows rig o.tables))
    of_drain o (inl same) e = inl (ground arith)
    of_drain o (inr (gone, disabled, stopped)) e = inr (ground arith, disabled)

move-AllDisabled :
    (rig rig' : Rig) (t t' : Tables)
    → rig'.meta.name ≡ rig.meta.name
    → own_rows rig t' ≡ own_rows rig t
    → AllDisabled (own_rows rig t)
    → AllDisabled (own_rows rig' t')
move-AllDisabled rig rig' t t' name rows disabled =
    subst (λ n. AllDisabled (rows_of (λ r. r.name) n t'.rigs)) (sym name)
      (subst AllDisabled (sym rows) disabled)

reconcile-IsGuarded :
    (c : Client) (rig rig' : Rig) (t : Tables)
    → (reconcile c (found rig) t).object ≡ some rig'
    → IsGuarded c.machinery rig t
    → IsGuarded c.machinery rig' (reconcile c (found rig) t).tables
reconcile-IsGuarded c rig rig' t h guarded = elim (Bool-cases (has_finalizer c rig)) [
  | inl finalizer ↦ registered finalizer (reconcile_registered c rig rig' t finalizer h)
  | inr unregistered ↦
      let kept = reconcile_unregistered c rig rig' t unregistered h in
      elim guarded [
        | inl finalizer ↦ absurd (ground (arith, finalizer, unregistered))
        | inr disabled ↦ inr (
            move-AllDisabled rig rig' t (reconcile c (found rig) t).tables kept.1
              (ap (own_rows rig) kept.0) disabled)
      ]
]
  where
    registered :
        has_finalizer c rig ≡ true
        → (rig'.meta ≡ rig.meta)
          ⊎ ((rig'.meta.name ≡ rig.meta.name)
              × AllDisabled (own_rows rig (reconcile c (found rig) t).tables))
        → IsGuarded c.machinery rig' (reconcile c (found rig) t).tables
    registered finalizer (inl same) =
        inl (
          ap (λ m. c.machinery.contains_finalizer m.finalizers rig_drain_finalizer) same
          ∙ finalizer)
    registered finalizer (inr (name, disabled)) = inr (
        move-AllDisabled rig rig' (reconcile c (found rig) t).tables
          (reconcile c (found rig) t).tables name refl disabled)

Step-IsGuarded :
    (m : Machinery) {w w' : World}
    → Step m w w'
    → IsGuarded m w.rig w.tables
    → IsGuarded m w'.rig w'.tables
Step-IsGuarded m (reconciled c w rig same h) guarded =
    subst (λ m'. IsGuarded m' rig (reconcile c (found w.rig) w.tables).tables) same
      (reconcile-IsGuarded c w.rig rig w.tables h
        (subst (λ m'. IsGuarded m' w.rig w.tables) (sym same) guarded))
Step-IsGuarded m (edited w spec) guarded = guarded
Step-IsGuarded m (deleted w) guarded = guarded
Step-IsGuarded m (others w t rows) (inl finalizer) = inl finalizer
Step-IsGuarded m (others w t rows) (inr disabled) =
    inr (move-AllDisabled w.rig w.rig w.tables t refl rows disabled)

-- A rig that no table knows begins its life guarded.
pub Reach-IsGuarded :
    (m : Machinery) {first last : World}
    → own_rows first.rig first.tables ≡ []
    → Reach m first last
    → IsGuarded m last.rig last.tables
Reach-IsGuarded m empty start = inr (subst AllDisabled (sym empty) tt)
Reach-IsGuarded m empty (next before step) = Step-IsGuarded m step (Reach-IsGuarded m empty before)

-- Take a rig that has no row in desired_rigs when its history begins, and any sequence of
-- reconciles (with any answers of the API server, the clock and the database), edits of its spec,
-- a deletion mark, and writes of others that leave the rows of its name alone. If at its end the
-- resource does not carry the drain finalizer, so that Kubernetes may remove it, then every row of
-- the rig in desired_rigs is disabled.
pub removed-AllDisabled :
    (m : Machinery) {first last : World}
    → own_rows first.rig first.tables ≡ []
    → Reach m first last
    → m.contains_finalizer last.rig.meta.finalizers rig_drain_finalizer ≡ false
    → AllDisabled (own_rows last.rig last.tables)
removed-AllDisabled m empty reach free = elim (Reach-IsGuarded m empty reach) [
  | inl finalizer ↦ absurd (ground (arith, finalizer, free))
  | inr disabled ↦ disabled
]
