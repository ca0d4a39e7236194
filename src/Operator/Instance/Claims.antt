-- ===== src/Operator/Instance/Claims.antt =====
-- The volume claims behind a deletion.
use landman.Base.{String, ◌≡◌, refl, true, false, not, none, some, List, [], ◌∷◌, select, arith}
use landman.Operator.Types.{DoltInstance}
use landman.Operator.Instance.{Api, Cluster, dolt_labels}
use landman.Operator.Instance.Reconcile.{delete_claims, has_labels, handle_deletion, has_finalizer}

abbrev Claims : Type 0
Claims = List (String × List (String × String))

-- The claims that are not the instance's.
abbrev pub foreign : String → Claims → Claims
foreign name = select (λ c. not (has_labels (dolt_labels name) c.1))

delete_claims-foreign :
    (api : Api) (name : String) (claims : Claims)
    → (delete_claims api name claims).0 ≡ none
    → (delete_claims api name claims).1 ≡ foreign name claims
unfolding delete_claims
delete_claims-foreign api name [] h = refl
delete_claims-foreign api name ((claim, labels) ∷ claims) h =
    ground (arith, delete_claims-foreign api name claims)

-- If the deletion handler of an instance that held its finalizer stores it without the finalizer,
-- then of the volume claims exactly those remain that do not have the instance's labels.
pub handle_deletion_claims :
    (api : Api) (di di' : DoltInstance) (k : Cluster)
    → has_finalizer api di ≡ true
    → (handle_deletion api di k).stored ≡ some di'
    → has_finalizer api di' ≡ false
    → (handle_deletion api di k).cluster.claims ≡ foreign di.meta.name k.claims
unfolding handle_deletion
handle_deletion_claims api di di' k held h released =
    ground (arith, delete_claims-foreign api di.meta.name k.claims)
