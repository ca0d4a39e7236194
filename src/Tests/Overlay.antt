-- ===== src/Tests/Overlay.antt =====
-- An overlay with a rig that the base has and one that it does not have.
use landman.Base.{◌≡◌, refl, String, List, [], ◌∷◌, map, str_dec}
use landman.Manifest.Types.{TownManifest}
use landman.TownCtl.Diff.Laws.{Distinct}
use landman.TownCtl.Overlay.{apply_env_overlay, overlaid, override, put, rig_name, role_name}
use landman.TownCtl.Overlay.Laws.{named, or_else, IsIteration, apply_env_overlay_names}
use landman.Tests.Samples.{sample, town, rig, role, no_cost}

abbrev staging : TownManifest
staging =
    town (rig "gamma" no_cost [] ∷ rig "beta" no_cost ("deep" ∷ []) ∷ []) (role "other" "" ∷ [])

abbrev in_order {ℓ} : {A : Type ℓ} → List A → List A
in_order vs = vs

merged : TownManifest
unfolding apply_env_overlay overlaid override put rig_name role_name str_dec
merged = apply_env_overlay in_order in_order sample staging

rigs_in_place :
    map {B = String × List String} (λ r. (r.name, r.agents.roles)) merged.rigs
    ≡ ("alpha", "deep" ∷ []) ∷ ("beta", "deep" ∷ []) ∷ ("gamma", []) ∷ []
unfolding merged
rigs_in_place = refl

visited : {V : Type 0} (name : V → String) → IsIteration name in_order
visited name vs d k = refl

sample_rigs-Distinct : Distinct str_dec rig_name sample.rigs
unfolding str_dec rig_name
sample_rigs-Distinct = (refl, (refl, tt))

sample_roles-Distinct : Distinct str_dec role_name sample.roles
unfolding str_dec role_name
sample_roles-Distinct = (refl, (refl, (refl, tt)))

apply_env_overlay_names_example :
    let m = apply_env_overlay in_order in_order sample staging in
    (named rig_name "beta" m.rigs
      ≡ or_else (named rig_name "beta" staging.rigs) (named rig_name "beta" sample.rigs))
    × (named role_name "beta" m.roles
        ≡ or_else (named role_name "beta" staging.roles) (named role_name "beta" sample.roles))
apply_env_overlay_names_example =
    apply_env_overlay_names in_order in_order sample staging "beta" (visited rig_name)
      (visited role_name) sample_rigs-Distinct sample_roles-Distinct
