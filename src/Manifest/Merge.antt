-- ===== src/Manifest/Merge.antt =====
-- The merge of CLAUDE.md files (pkg/manifest/claudemd_merge.go). `os.ExpandEnv` reads the
-- environment and `os.ReadFile` the file system: both are parameters.
pub mod Laws
use landman.Base.{String, ◌<>◌, Option, none, some, List, [], ◌∷◌, ◌++◌, foldl, ℕ, zero, suc}
use landman.Base.{Result, ok, err, ◌>>=◌, length, ◌==◌, if◌then◌else◌}
use landman.Base.Map.{Map, lookup, insert}
use landman.Manifest.Types.{RoleSpec}

pub data MergeError : Type 0 where
  too_deep : String → MergeError
  not_found : String → MergeError
  empty_chain : MergeError
  unreadable : String → MergeError
  base_unreadable : String → MergeError
  override_unreadable : String → MergeError

abbrev pub separator : String
separator = "\n\n---\n<!-- extends override -->\n\n"

-- A file's content, or `none` for an error of the read.
unfoldable pub read_file : (String → Option String) → String → Result MergeError String
read_file fs path = elim (fs path) [ none ↦ err (unreadable path) | some text ↦ ok text ]

unfoldable pub merge_claude_md_files :
    (String → Option String) → String → String → Result MergeError String
merge_claude_md_files fs base override = elim (fs base) [
  | none ↦ err (base_unreadable base)
  | some b ↦ elim (fs override) [
    | none ↦ err (override_unreadable override)
    | some o ↦ ok (b <> separator <> o)
  ]
]

unfoldable pub add_role : Map RoleSpec → RoleSpec → Map RoleSpec
add_role m role = insert role.name role m

unfoldable pub by_name : List RoleSpec → Map RoleSpec
unfolding add_role
by_name = foldl add_role []

-- `maxDepth` falls by one with each hop.
unfoldable pub resolve_chain :
    (String → String) → Map RoleSpec → ℕ → String → Result MergeError (List String)
resolve_chain expand roles zero name = err (too_deep name)
resolve_chain expand roles (suc depth) name = elim (lookup name roles) [
  | none ↦ err (not_found name)
  | some role ↦
      let base = resolve_chain expand roles depth role.identity.extends in
      if role.identity.extends == ""
      then ok (expand role.identity.claude_md ∷ [])
      else (base >>= λ paths. ok (paths ++ (expand role.identity.claude_md ∷ [])))
]

unfoldable pub resolve_extends_chain :
    (String → String) → String → List RoleSpec → Result MergeError (List String)
unfolding by_name resolve_chain
resolve_extends_chain expand name roles =
    resolve_chain expand (by_name roles) (suc (length roles)) name

-- The loop over `chain[1:]`, with the text merged so far.
append_files : (String → Option String) → String → List String → Result MergeError String
append_files fs result [] = ok result
append_files fs result (path ∷ paths) = do
  content ← read_file fs path
  append_files fs (result <> (separator <> content)) paths

unfoldable pub merge_extends_chain :
    (String → Option String) → List String → Result MergeError String
unfolding read_file append_files
merge_extends_chain fs [] = err empty_chain
merge_extends_chain fs (path ∷ paths) = do first ← read_file fs path; append_files fs first paths
