-- ===== src/Tests/Manifest.antt =====
-- Validation and the merge of CLAUDE.md files on the sample manifest.
use landman.Base.{
  ◌≡◌, refl, String, ◌==◌, if◌then◌else◌, str_dec, Option, none, some, List, [], ◌∷◌, ◌++◌, Result,
  ok, err, ◌>>=◌,
}
use landman.Base.Map.{lookup}
use landman.Manifest.Types.{TownManifest, is_empty}
use landman.Manifest.Validate.{
  cross_validate, ManifestError, extends_unknown, bad_chain, check_surveyor, check_rigs,
  check_costs, collect_roles, check_roles, check_role, check_refs, check_ref, check_extends,
  check_trigger, is_known, is_builtin, extends_targets, town_scoped,
}
use landman.Manifest.Extends.{circular, detect_extends_cycle}
use landman.Manifest.Cost.{validate_cost_policy}
use landman.Manifest.Merge.{
  by_name, resolve_extends_chain, merge_extends_chain, merge_claude_md_files, base_unreadable,
  override_unreadable,
}
use landman.Manifest.Merge.Laws.{joined, read_all, merge_extends_chain-joined}
use landman.Manifest.Chains.{resolve_of_cross_validate}
use landman.Base.{Bool, true, false, arith}
use landman.Manifest.ApplyTime.{
  validate_apply_time_fs, add_path, check_role_path, check_base_path, role_missing,
}
use landman.Manifest.ApplyTime.Laws.{merge_of_validated}
use landman.Tests.Samples.{sample_ops, as_is, sample, town, role, rig, base, deep, no_cost}

validate : TownManifest → Result ManifestError (Unit {0})
unfolding cross_validate check_surveyor check_rigs check_costs collect_roles check_roles check_role
    check_refs check_ref check_extends check_trigger is_known is_builtin extends_targets
    detect_extends_cycle validate_cost_policy is_empty str_dec
validate = cross_validate sample_ops

pub sample_valid : cross_validate sample_ops sample ≡ ok tt
unfolding validate
sample_valid = refl

unknown_base :
    cross_validate sample_ops (town [] (role "a" "b" ∷ [])) ≡ err (extends_unknown "a" "b")
unfolding validate
unknown_base = refl

chain_in_a_circle :
    cross_validate sample_ops (town [] (role "a" "b" ∷ role "b" "a" ∷ []))
    ≡ err (bad_chain (circular "a"))
unfolding validate
chain_in_a_circle = refl

deep_found : lookup "deep" (by_name sample.roles) ≡ some deep
unfolding by_name str_dec
deep_found = refl

deep_chain : resolve_extends_chain as_is "deep" sample.roles ≡ ok ("/base" ∷ "/mid" ∷ "/deep" ∷ [])
unfolding resolve_extends_chain by_name str_dec
deep_chain = refl

abbrev disk : String → Option String
disk path = if path == "/base" then some "B" else if path == "/mid" then some "M" else none

resolve_of_cross_validate_example :
    (paths : List String) × (resolve_extends_chain as_is "deep" sample.roles
      ≡ ok (paths ++ ("/deep" ∷ [])))
resolve_of_cross_validate_example =
    resolve_of_cross_validate sample_ops as_is sample "deep" deep sample_valid deep_found

merge_extends_chain-joined_example :
    merge_extends_chain disk ("/base" ∷ "/mid" ∷ [])
    ≡ (read_all disk ("/base" ∷ "/mid" ∷ []) >>= λ texts. ok (joined texts))
merge_extends_chain-joined_example = merge_extends_chain-joined disk "/base" ("/mid" ∷ [])

-- The two reads of a merge of two files have an error each.
two_files :
    (merge_claude_md_files disk "/base" "/mid" ≡ ok "B\n\n---\n<!-- extends override -->\n\nM")
    × (merge_claude_md_files disk "/none" "/mid" ≡ err (base_unreadable "/none"))
    × (merge_claude_md_files disk "/base" "/none" ≡ err (override_unreadable "/none"))
unfolding merge_claude_md_files str_dec
two_files = (refl, refl, refl)

town_role_of_a_rig :
    cross_validate sample_ops
      (town (rig "alpha" no_cost ("base" ∷ []) ∷ []) (record base { scope = "town" } ∷ []))
    ≡ err (town_scoped "alpha" "base")
unfolding validate
town_role_of_a_rig = refl

abbrev files : String → Option String
files path = if path == "/deep" then some "D" else disk path

abbrev exists : String → Bool
exists path = elim (files path) [ none ↦ false | some text ↦ true ]

files_there : validate_apply_time_fs as_is exists sample ≡ ok tt
unfolding validate_apply_time_fs add_path check_role_path check_base_path str_dec
files_there = refl

file_missing :
    validate_apply_time_fs as_is exists (town [] (role "other" "" ∷ []))
    ≡ err (role_missing "other" "/other")
unfolding validate_apply_time_fs add_path check_role_path check_base_path str_dec
file_missing = refl

exists-readable : (p : String) → exists p ≡ true → (text : String) × (files p ≡ some text)
exists-readable p h = ground arith

merge_of_validated_example :
    (before : List String) × (texts : List String) × (resolve_extends_chain as_is "deep"
        sample.roles
      ≡ ok (before ++ ("/deep" ∷ [])))
    × (read_all files (before ++ ("/deep" ∷ [])) ≡ ok texts)
    × (merge_extends_chain files (before ++ ("/deep" ∷ [])) ≡ ok (joined texts))
merge_of_validated_example =
    merge_of_validated sample_ops as_is exists files sample "deep" deep sample_valid files_there
      exists-readable deep_found
