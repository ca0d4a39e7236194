-- ===== src/TownCtl/Overlay.antt =====
-- The overlay of an environment (pkg/townctl/includes.go, ApplyEnvOverlay). The file has been read
-- and parsed. The order in which Go goes through a map is a parameter.
pub mod Laws
use landman.Base.{
  String, not, ◌||◌, Option, none, some, List, [], ◌∷◌, ◌++◌, foldl, map, pos, eqb_ℤ, ◌==◌,
  if◌then◌else◌,
}
use landman.Base.Map.{Map, lookup, erase}
use landman.Manifest.Types.{TownManifest, TownConfig, RigDefaults, SecretsConfig, RigSpec, RoleSpec}

module _ {V : Type 0} (name : V → String) where
  -- `overlayRigByName[r.Name] = i`: the entry of a name is the last of that name.
  unfoldable pub put : Map V → V → Map V
  put m v = (name v, v) ∷ erase (name v) m

  -- The loop over the base: what it makes of each entry, and the entries of the overlay left.
  unfoldable pub override : Map V → List V → List V × Map V
  override m [] = ([], m)
  override m (v ∷ vs) = elim (lookup (name v) m) [
    | none ↦ let rest = override m vs in (v ∷ rest.0, rest.1)
    | some new ↦ let rest = override (erase (name v) m) vs in (new ∷ rest.0, rest.1)
  ]

  unfoldable pub overlaid : (List V → List V) → List V → List V → List V
  unfolding put override
  overlaid order base overlay =
      let rest = override (foldl put [] overlay) base in rest.0 ++ order (map (λ e. e.1) rest.1)

unfoldable pub rig_name : RigSpec → String
rig_name r = r.name

unfoldable pub role_name : RoleSpec → String
role_name r = r.name

unfoldable pub apply_env_overlay :
    (List RigSpec → List RigSpec)
    → (List RoleSpec → List RoleSpec)
    → TownManifest
    → TownManifest
    → TownManifest
unfolding overlaid rig_name role_name
apply_env_overlay rig_order role_order base overlay = record base {
  town = if not (overlay.town.name == "") then overlay.town else base.town;
  defaults =
      if not (overlay.defaults.mayor_model == "")
        || not (eqb_ℤ overlay.defaults.max_polecats (pos 0))
      then overlay.defaults
      else base.defaults;
  secrets =
      if not (overlay.secrets.anthropic_api_key == "") || not (overlay.secrets.file == "")
      then overlay.secrets
      else base.secrets;
  rigs = overlaid rig_name rig_order base.rigs overlay.rigs;
  roles = overlaid role_name role_order base.roles overlay.roles;
}
