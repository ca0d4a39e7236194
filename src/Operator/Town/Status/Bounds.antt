-- ===== src/Operator/Town/Status/Bounds.antt =====
-- The size of a town's status.
use landman.Base.{
  String, ◌<>◌, ◌≡◌, refl, List, [], ◌∷◌, length, length-append, ℕ, zero, suc, ◌≤◌, ◌<◌, ◌-◌, arith,
  inl, inr, Result-cases, ok, err, ℤ, Option, none, some, Result,
}
use landman.Base.Decimal.{show_ℕ}
use landman.Base.Float.{FloatOps}
use landman.Surveyor.Config.{default_production_config}
use landman.Surveyor.Score.{compute_score}
use landman.Operator.Machinery.{Machinery}
use landman.Surveyor.Queries.{Queries}
use landman.Operator.Town.Status.{
  TownStatus, prefix, capped_slice, read_topology_for_status, status_from_actual,
  patch_status_from_actual,
}

length-prefix : (n : ℕ) (s : List String) → n ≤ length s → length (prefix n s) ≡ n
length-prefix zero [] h = refl
length-prefix (suc n) [] h = absurd (omega arith)
length-prefix zero (x ∷ s) h = refl
length-prefix (suc n) (x ∷ s) h = omega (arith, length-prefix n s)

pub length-capped_slice : (s : List String) (n : ℕ) → 0 < n → length (capped_slice s n) ≤ n
unfolding capped_slice
length-capped_slice s n positive = ground (
  arith,
  length-prefix (n - 1) s,
  length-append (prefix (n - 1) s) (("... and " <> (show_ℕ (length s - (n - 1)) <> " more")) ∷ []),
)

scored_bound :
    (ops : FloatOps) (m : Machinery) (generation now : ℤ) (seen : Option ℤ) (q : Queries)
    (status : TownStatus)
    → length status.non_converged ≤ 20
    → length (status_from_actual ops m generation now seen q status).non_converged ≤ 20
unfolding status_from_actual
scored_bound ops m generation now seen q status h =
    elim (Result-cases (read_topology_for_status q)) [
      | inl (x, e) ↦ rw e h
      | inr ((desired, actual), e) ↦ rw e (
          length-capped_slice
            (compute_score ops desired actual (default_production_config ops) now).non_converged 20
            (omega arith))
    ]

-- If a town's status lists at most 20 entries that have not converged, so does the status behind
-- patchStatusFromActual, whatever the database and the API server answer.
pub patch_status_from_actual_bound :
    (ops : FloatOps) (m : Machinery) (generation now : ℤ) (town : Result String (Option (Option ℤ)))
    (q : Queries) (update : Option String) (status : TownStatus)
    → length status.non_converged ≤ 20
    → length (patch_status_from_actual ops m generation now town q update status).1.non_converged
      ≤ 20
unfolding patch_status_from_actual
patch_status_from_actual_bound ops m generation now (err x) q update status h = h
patch_status_from_actual_bound ops m generation now (ok none) q update status h = h
patch_status_from_actual_bound ops m generation now (ok (some seen)) q update status h =
    ground (arith, scored_bound ops m generation now seen q status h)
