-- ===== src/TownCtl/Merged/Laws.antt =====
-- Which roles an apply points to merged files (pkg/townctl/customroles.go).
use mathlib.Core.List.{append-nil, append_assoc, map}
use landman.Base.{ok_inj, String, ◌<>◌, ◌≡◌, sym, ◌∙◌, ap, List, [], ◌∷◌, ◌++◌, arith}
use landman.Base.{ok, >>=-ok, ◌==◌, if◌then◌else◌, Bool-cases, inl, inr}
use landman.Manifest.Types.{TownManifest, RoleSpec}
use landman.TownCtl.Merged.{
  Host, Files, redirect, write_merged, merge_loop, merge_and_write_extends_chains,
}

-- A role that extends another names its own file, `<name>.md`, in a directory.
abbrev pub redirected : Host → String → RoleSpec → RoleSpec
redirected h dir role = if role.identity.extends == "" then role else record role {
  identity = record role.identity { claude_md = h.join dir (role.name <> ".md") };
}

merge_loop-redirected :
    (h : Host) (dir : String) (fs : Files) (passed roles : List RoleSpec)
    {out : Files × List RoleSpec}
    → merge_loop h dir fs passed roles ≡ ok out
    → out.1 ≡ passed ++ map (redirected h dir) roles
unfolding merge_loop redirect
merge_loop-redirected h dir fs passed [] e = rw append-nil (ground arith)
merge_loop-redirected h dir fs passed (role ∷ roles) e =
    elim (Bool-cases (role.identity.extends == "")) [
      | inl plain ↦ rw plain (
          merge_loop-redirected h dir fs (passed ++ (role ∷ [])) roles (rw plain at e)
          ∙ append_assoc passed (role ∷ []) _)
      | inr extends ↦
          let (fs', _, rest) =
            >>=-ok (write_merged h dir fs (passed ++ (role ∷ roles)) role) _ (rw extends at e) in
          rw extends (
            merge_loop-redirected h dir fs' (passed ++ (redirect h dir role ∷ [])) roles rest
            ∙ append_assoc passed (redirect h dir role ∷ []) _)
    ]

-- When an apply's merge succeeds, the manifest is as before but for its roles: each role that
-- extends another points to its own file `<name>.md` in `$GT_HOME/roles/merged`, and the others are unchanged,
-- in the same order.
pub merge_and_write_extends_chains-redirected :
    (h : Host) (m : TownManifest) (gt_home : String) (fs : Files) {out : Files × TownManifest}
    → merge_and_write_extends_chains h m gt_home fs ≡ ok out
    → out.1 ≡ record m {
      roles = map (redirected h (h.join (h.join (h.expand gt_home) "roles") "merged")) m.roles;
    }
unfolding merge_and_write_extends_chains
merge_and_write_extends_chains-redirected h m gt_home fs e =
    let dir = h.join (h.join (h.expand gt_home) "roles") "merged" in
    let (made, looped, done) = >>=-ok (merge_loop h dir fs [] m.roles) _ e in
    let same = merge_loop-redirected h dir fs [] m.roles looped in
    ap (λ o. o.1) (sym (ok_inj done)) ∙ ap (λ rs. record m { roles = rs }) same
