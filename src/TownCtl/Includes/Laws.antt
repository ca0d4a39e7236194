-- ===== src/TownCtl/Includes/Laws.antt =====
-- What a merge that returns no error has made (pkg/townctl/includes.go, MergeIncludes).
use mathlib.Core.List.{append-nil, append_assoc, map-append}
use landman.Base.{
  ok_inj, String, ◌≡◌, refl, sym, subst, ◌∙◌, ap, false, ◌||◌, List, [], ◌∷◌, ◌++◌, arith,
}
use landman.Base.{ok, >>=-ok, contains, ◌==◌}
use landman.Manifest.Types.{TownManifest, RigSpec, RoleSpec}
use landman.Manifest.Validate.Names.{Unique, names_of_rigs, names_of_roles}
use landman.TownCtl.Includes.{merge_rigs, merge_roles, merge_files, merge_includes}

abbrev pub all_rigs : List TownManifest → List RigSpec
all_rigs [] = []
all_rigs (m ∷ ms) = m.rigs ++ all_rigs ms

abbrev pub all_roles : List TownManifest → List RoleSpec
all_roles [] = []
all_roles (m ∷ ms) = m.roles ++ all_roles ms

merge_rigs-cons :
    (names : List String) (base : List RigSpec) (r : RigSpec) (rigs : List RigSpec)
    {out : List String × List RigSpec}
    → merge_rigs names base (r ∷ rigs) ≡ ok out
    → (contains names r.name ≡ false)
      × (merge_rigs (r.name ∷ names) (base ++ (r ∷ [])) rigs ≡ ok out)
unfolding merge_rigs
merge_rigs-cons names base r rigs h = ground arith

merge_rigs-append :
    (names : List String) (base rigs : List RigSpec) {out : List String × List RigSpec}
    → merge_rigs names base rigs ≡ ok out
    → out.1 ≡ base ++ rigs
unfolding merge_rigs
merge_rigs-append names base [] h = rw append-nil (ground arith)
merge_rigs-append names base (r ∷ rigs) h =
    merge_rigs-append (r.name ∷ names) (base ++ (r ∷ [])) rigs
      (merge_rigs-cons names base r rigs h).1
    ∙ append_assoc base (r ∷ []) rigs

merge_roles-cons :
    (names : List String) (base : List RoleSpec) (r : RoleSpec) (roles : List RoleSpec)
    {out : List String × List RoleSpec}
    → merge_roles names base (r ∷ roles) ≡ ok out
    → (contains names r.name ≡ false)
      × (merge_roles (r.name ∷ names) (base ++ (r ∷ [])) roles ≡ ok out)
unfolding merge_roles
merge_roles-cons names base r roles h = ground arith

merge_roles-append :
    (names : List String) (base roles : List RoleSpec) {out : List String × List RoleSpec}
    → merge_roles names base roles ≡ ok out
    → out.1 ≡ base ++ roles
unfolding merge_roles
merge_roles-append names base [] h = rw append-nil (ground arith)
merge_roles-append names base (r ∷ roles) h =
    merge_roles-append (r.name ∷ names) (base ++ (r ∷ [])) roles
      (merge_roles-cons names base r roles h).1
    ∙ append_assoc base (r ∷ []) roles

-- The names seen are those of the base's rigs, each once.
record IsSeen (names : List String) (known : List String) : Type 0 where
  same : (n : String) → contains names n ≡ contains known n
  unique : Unique known

contains-snoc :
    (ss : List String) (s n : String) → contains (ss ++ (s ∷ [])) n ≡ (s == n || contains ss n)
contains-snoc [] s n = refl
contains-snoc (t ∷ ss) s n = ground (arith, contains-snoc ss s n)

Unique-snoc :
    (ss : List String) (s : String) → contains ss s ≡ false → Unique ss → Unique (ss ++ (s ∷ []))
Unique-snoc [] s h u = (refl, tt)
Unique-snoc (t ∷ ss) s h (fresh, u) =
    (contains-snoc ss s t ∙ ground arith, Unique-snoc ss s (ground arith) u)

IsSeen-snoc :
    (names known : List String) (s : String)
    → IsSeen names known
    → contains names s ≡ false
    → IsSeen (s ∷ names) (known ++ (s ∷ []))
IsSeen-snoc names known s v h = record {
  same = λ n. ground (arith, contains-snoc known s n, v.same n);
  unique = Unique-snoc known s (sym (v.same s) ∙ h) v.unique;
}

merge_rigs-IsSeen :
    (names : List String) (base rigs : List RigSpec) {out : List String × List RigSpec}
    → IsSeen names (names_of_rigs base)
    → merge_rigs names base rigs ≡ ok out
    → IsSeen out.0 (names_of_rigs out.1)
unfolding merge_rigs
merge_rigs-IsSeen names base [] {out} v h =
    subst (λ (o : List String × List RigSpec). IsSeen o.0 (names_of_rigs o.1)) (ok_inj h) v
merge_rigs-IsSeen names base (r ∷ rigs) v h =
    let (new, rest) = merge_rigs-cons names base r rigs h in
    merge_rigs-IsSeen (r.name ∷ names) (base ++ (r ∷ [])) rigs
      (subst (IsSeen (r.name ∷ names)) (sym (map-append (λ r. r.name) base (r ∷ [])))
        (IsSeen-snoc names (names_of_rigs base) r.name v new))
      rest

merge_roles-IsSeen :
    (names : List String) (base roles : List RoleSpec) {out : List String × List RoleSpec}
    → IsSeen names (names_of_roles base)
    → merge_roles names base roles ≡ ok out
    → IsSeen out.0 (names_of_roles out.1)
unfolding merge_roles
merge_roles-IsSeen names base [] {out} v h =
    subst (λ (o : List String × List RoleSpec). IsSeen o.0 (names_of_roles o.1)) (ok_inj h) v
merge_roles-IsSeen names base (r ∷ roles) v h =
    let (new, rest) = merge_roles-cons names base r roles h in
    merge_roles-IsSeen (r.name ∷ names) (base ++ (r ∷ [])) roles
      (subst (IsSeen (r.name ∷ names)) (sym (map-append (λ r. r.name) base (r ∷ [])))
        (IsSeen-snoc names (names_of_roles base) r.name v new))
      rest

joined :
    {A : Type 0} (xs ys : List A) {out : List A}
    → out ≡ xs ++ ys
    → (zs : List A) → out ++ zs ≡ xs ++ (ys ++ zs)
joined xs ys e zs = ap (λ l. l ++ zs) e ∙ append_assoc xs ys zs

merge_files-Unique :
    (rn ron : List String) (base : TownManifest) (included : List TownManifest) {m : TownManifest}
    → IsSeen rn (names_of_rigs base.rigs)
    → IsSeen ron (names_of_roles base.roles)
    → merge_files rn ron base included ≡ ok m
    → (m ≡ record base {
      rigs = base.rigs ++ all_rigs included;
      roles = base.roles ++ all_roles included;
    })
      × Unique (names_of_rigs m.rigs)
      × Unique (names_of_roles m.roles)
unfolding merge_files
merge_files-Unique rn ron base [] {m} v w h =
    subst
      (λ (o : TownManifest).
        (o ≡ record base { rigs = base.rigs ++ []; roles = base.roles ++ [] })
        × Unique (names_of_rigs o.rigs)
        × Unique (names_of_roles o.roles))
      (ok_inj h) (rw (append-nil, append-nil) refl, v.unique, w.unique)
merge_files-Unique rn ron base (inc ∷ included) {m} v w h =
    let ((rn', rigs), e, h') = >>=-ok (merge_rigs rn base.rigs inc.rigs) _ h in
    let ((ron', roles), f, h'') = >>=-ok (merge_roles ron base.roles inc.roles) _ h' in
    let (shape, unique_rigs, unique_roles) =
      merge_files-Unique rn' ron' (record base { rigs = rigs; roles = roles }) included
        (merge_rigs-IsSeen rn base.rigs inc.rigs v e)
        (merge_roles-IsSeen ron base.roles inc.roles w f) h'' in
    (
      shape ∙ (λ i. record base {
        rigs =
            joined base.rigs inc.rigs (merge_rigs-append rn base.rigs inc.rigs e)
              (all_rigs included) i;
        roles =
            joined base.roles inc.roles (merge_roles-append ron base.roles inc.roles f)
              (all_roles included) i;
      }),
      unique_rigs,
      unique_roles,
    )

-- For a base that names each rig and each role once: a merge without an error has put the included
-- rigs and roles behind the base's, in order, has changed nothing else, and leaves every rig and
-- role with a name of its own.
pub merge_includes-Unique :
    (base : TownManifest) (included : List TownManifest) {m : TownManifest}
    → Unique (names_of_rigs base.rigs)
    → Unique (names_of_roles base.roles)
    → merge_includes base included ≡ ok m
    → (m ≡ record base {
      rigs = base.rigs ++ all_rigs included;
      roles = base.roles ++ all_roles included;
    })
      × Unique (names_of_rigs m.rigs)
      × Unique (names_of_roles m.roles)
unfolding merge_includes
merge_includes-Unique base included u w h =
    merge_files-Unique (names_of_rigs base.rigs) (names_of_roles base.roles) base included
      (record { same = λ n. refl; unique = u }) (record { same = λ n. refl; unique = w }) h
