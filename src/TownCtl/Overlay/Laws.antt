-- ===== src/TownCtl/Overlay/Laws.antt =====
-- What an overlay leaves under each name (pkg/townctl/includes.go, ApplyEnvOverlay).
use landman.Base.{
  String, ◌≡◌, refl, sym, ap, ◌∙◌, Bool, true, false, Option, none, some, List, [], ◌∷◌, ◌++◌,
  foldl, map, arith, ◌==◌, str_dec, if◌then◌else◌, Option-cases, inl, inr,
}
use landman.Base.Map.{Map, lookup, erase, lookup-erase}
use landman.TownCtl.Diff.{find, keeps}
use landman.TownCtl.Diff.Laws.{Distinct, find_of_absent}
use landman.Manifest.Types.{TownManifest, RigSpec, RoleSpec}
use landman.TownCtl.Overlay.{put, override, overlaid, rig_name, role_name, apply_env_overlay}

abbrev pub or_else : {V : Type 0} → Option V → Option V → Option V
or_else none o = o
or_else (some v) o = some v

or_else-none : {V : Type 0} (o : Option V) → or_else o none ≡ o
or_else-none none = refl
or_else-none (some v) = refl

module _ {V : Type 0} (name : V → String) where
  -- The entry of a name.
  abbrev pub named : String → List V → Option V
  named = find str_dec name

  -- The entries of a map as it is built: each under its own name, and no name twice.
  abbrev IsIndex : Map V → Type 0
  IsIndex [] = Unit
  IsIndex ((k, v) ∷ m) = (name v ≡ k) × (lookup k m ≡ none) × IsIndex m

  erase-IsIndex : (k : String) (m : Map V) → IsIndex m → IsIndex (erase k m)
  erase-IsIndex k [] i = tt
  erase-IsIndex k ((j, v) ∷ m) i = ground (arith, erase-IsIndex k m, lookup-erase k j m)

  put-IsIndex : (m : Map V) (v : V) → IsIndex m → IsIndex (put name m v)
  unfolding put
  put-IsIndex m v i =
      (refl, ground (arith, lookup-erase (name v) (name v) m), erase-IsIndex (name v) m i)

  foldl-put-IsIndex : (vs : List V) (m : Map V) → IsIndex m → IsIndex (foldl (put name) m vs)
  foldl-put-IsIndex [] m i = i
  foldl-put-IsIndex (v ∷ vs) m i = foldl-put-IsIndex vs (put name m v) (put-IsIndex m v i)

  lookup-put :
      (m : Map V) (v : V) (k : String)
      → lookup k (put name m v) ≡ (if name v == k then some v else lookup k m)
  unfolding put
  lookup-put m v k = ground (arith, lookup-erase (name v) k m)

  lookup-foldl-put :
      (vs : List V) (m : Map V) (k : String)
      → lookup k (foldl (put name) m vs) ≡ or_else (named k vs) (lookup k m)
  lookup-foldl-put [] m k = refl
  lookup-foldl-put (v ∷ vs) m k =
      ground (arith, lookup-foldl-put vs (put name m v) k, lookup-put m v k)

  IsIndex-name : (m : Map V) (k : String) (v : V) → IsIndex m → lookup k m ≡ some v → name v ≡ k
  IsIndex-name [] k v i h = cc
  IsIndex-name ((j, w) ∷ m) k v (n, _, i) h = ground (arith, IsIndex-name m k v i)

  -- The entries left are those of names that the base does not have.
  lookup-override :
      (m : Map V) (base : List V) (k : String)
      → lookup k (override name m base).1 ≡ (if keeps str_dec name base k then none else lookup k m)
  unfolding override
  lookup-override m [] k = refl
  lookup-override m (v ∷ base) k = elim (Option-cases (lookup (name v) m)) [
    | inl e ↦ ground (arith, lookup-override m base k)
    | inr (w, e) ↦
        ground (arith, lookup-override (erase (name v) m) base k, lookup-erase (name v) k m)
  ]

  override-IsIndex : (m : Map V) (base : List V) → IsIndex m → IsIndex (override name m base).1
  unfolding override
  override-IsIndex m [] i = i
  override-IsIndex m (v ∷ base) i = elim (Option-cases (lookup (name v) m)) [
    | inl e ↦ ground (arith, override-IsIndex m base i)
    | inr (w, e) ↦
        ground (arith, override-IsIndex (erase (name v) m) base (erase-IsIndex (name v) m i))
  ]

  -- The base's entries, those of the overlay in place of the base's of the same name.
  named-override :
      (m : Map V) (base : List V) (k : String)
      → IsIndex m
      → Distinct str_dec name base
      → named k (override name m base).0
        ≡ (if keeps str_dec name base k then or_else (lookup k m) (named k base) else none)
  unfolding override
  named-override m [] k i d = refl
  named-override m (v ∷ base) k i (fresh, d) = elim (Option-cases (lookup (name v) m)) [
    | inl e ↦
        ground (arith, named-override m base k i d, find_of_absent str_dec name (name v) base fresh)
    | inr (w, e) ↦ ground (
      arith,
      named-override (erase (name v) m) base k (erase-IsIndex (name v) m i) d,
      lookup-erase (name v) k m,
      IsIndex-name m (name v) w i e,
      find_of_absent str_dec name (name v) base fresh,
    )
  ]

  named-values : (m : Map V) (k : String) → IsIndex m → named k (map (λ e. e.1) m) ≡ lookup k m
  named-values [] k i = refl
  named-values ((j, v) ∷ m) k (n, fresh, i) = ground (arith, named-values m k i)

  keeps-named : (vs : List V) (k : String) → named k vs ≡ none → keeps str_dec name vs k ≡ false
  keeps-named [] k h = refl
  keeps-named (v ∷ vs) k h = ground (arith, keeps-named vs k)

  values-Distinct : (m : Map V) → IsIndex m → Distinct str_dec name (map (λ e. e.1) m)
  values-Distinct [] i = tt
  values-Distinct ((j, v) ∷ m) (n, fresh, i) = (
    keeps-named (map (λ e. e.1) m) (name v)
        (named-values m (name v) i ∙ ap (λ k. lookup k m) n ∙ fresh),
    values-Distinct m i,
  )

  named-append :
      (xs ys : List V) (k : String) → named k (xs ++ ys) ≡ or_else (named k ys) (named k xs)
  named-append [] ys k = sym (or_else-none (named k ys))
  named-append (x ∷ xs) ys k = ground (arith, named-append xs ys k)

  -- Going through a map comes to each of its entries: what a name has in the map, it has in the order
  -- that the entries come in.
  abbrev pub IsIteration : (List V → List V) → Type 0
  IsIteration order =
      (vs : List V) → Distinct str_dec name vs → (k : String) → named k (order vs) ≡ named k vs

  pub named-overlaid :
      (order : List V → List V) (base overlay : List V) (k : String)
      → IsIteration order
      → Distinct str_dec name base
      → named k (overlaid name order base overlay) ≡ or_else (named k overlay) (named k base)
  unfolding overlaid
  named-overlaid order base overlay k visits d =
      let index = foldl (put name) [] overlay in
      let i = foldl-put-IsIndex overlay [] tt in
      let left = override name index base in
      let j = override-IsIndex index base i in
      let values = map (λ e. e.1) left.1 in
      let appended : named k (overlaid name order base overlay)
          ≡ or_else (named k values) (named k left.0) =
        named-append left.0 (order values) k
        ∙ ap (λ o. or_else o (named k left.0)) (visits values (values-Distinct left.1 j) k) in
      appended
      ∙ settle (keeps str_dec name base k) (named k overlay) (named k base) _ _
          (named-values left.1 k j
            ∙ lookup-override index base k
            ∙ ap (λ o. if keeps str_dec name base k then none else o) known)
          (named-override index base k i d
            ∙ ap (λ o. if keeps str_dec name base k then or_else o (named k base) else none) known)
          (λ gone. find_of_absent str_dec name k base gone)
    where
      known : lookup k (foldl (put name) [] overlay) ≡ named k overlay
      known = lookup-foldl-put overlay [] k ∙ or_else-none (named k overlay)

      settle :
          (kept : Bool) (o b x y : Option V)
          → x ≡ (if kept then none else o)
          → y ≡ (if kept then or_else o b else none)
          → (kept ≡ false → b ≡ none)
          → or_else x y ≡ or_else o b
      settle true o b x y p q r = ground arith
      settle false o b x y p q r = ground (arith, r refl)

-- For a base that names each rig and each role once, and in whatever order the new entries are gone
-- through: under every name, the result of the overlay has the overlay's last rig or role of that
-- name, or else the base's, or else none.
pub apply_env_overlay_names :
    (rig_order : List RigSpec → List RigSpec) (role_order : List RoleSpec → List RoleSpec)
    (base overlay : TownManifest) (k : String)
    → IsIteration rig_name rig_order
    → IsIteration role_name role_order
    → Distinct str_dec rig_name base.rigs
    → Distinct str_dec role_name base.roles
    → let m = apply_env_overlay rig_order role_order base overlay in
      (named rig_name k m.rigs
        ≡ or_else (named rig_name k overlay.rigs) (named rig_name k base.rigs))
      × (named role_name k m.roles
          ≡ or_else (named role_name k overlay.roles) (named role_name k base.roles))
unfolding apply_env_overlay
apply_env_overlay_names rig_order role_order base overlay k rigs_visited roles_visited rigs roles =
    (
      named-overlaid rig_name rig_order base.rigs overlay.rigs k rigs_visited rigs,
      named-overlaid role_name role_order base.roles overlay.roles k roles_visited roles,
    )
