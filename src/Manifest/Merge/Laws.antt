-- ===== src/Manifest/Merge/Laws.antt =====
-- The merge of CLAUDE.md files: one hop of a chain, and the text that a chain gives.
use text.Mathlib.TextLemmas
use landman.Base.{
  String, ◌<>◌, ◌≡◌, refl, ◌∙◌, ap, ◌≢◌, Option, none, some, List, [], ◌∷◌, ◌++◌, ℕ, suc, arith,
}
use landman.Base.{Result, ok, err, ◌>>=◌, Option-cases, All, inl, inr}
use landman.Base.Map.{Map, lookup}
use landman.Manifest.Types.{RoleSpec}
use landman.Manifest.Merge.{
  MergeError, unreadable, separator, read_file, resolve_chain, append_files, merge_extends_chain,
}

module _ (expand : String → String) (roles : Map RoleSpec) (depth : ℕ) (name : String)
    (r : RoleSpec) where
  pub resolve_root :
      lookup name roles ≡ some r
      → r.identity.extends ≡ ""
      → resolve_chain expand roles (suc depth) name ≡ ok (expand r.identity.claude_md ∷ [])
  unfolding resolve_chain
  resolve_root found plain = ground arith

  pub resolve_hop :
      lookup name roles ≡ some r
      → r.identity.extends ≢ ""
      → (paths : List String) → resolve_chain expand roles depth r.identity.extends ≡ ok paths
      → resolve_chain expand roles (suc depth) name
        ≡ ok (paths ++ (expand r.identity.claude_md ∷ []))
  unfolding resolve_chain
  resolve_hop found hop paths base = ground arith

-- The contents of all files, or the first path that cannot be read.
pub read_all : (String → Option String) → List String → Result MergeError (List String)
read_all fs [] = ok []
read_all fs (path ∷ paths) = elim (fs path) [
  | none ↦ err (unreadable path)
  | some text ↦ read_all fs paths >>= λ texts. ok (text ∷ texts)
]

-- Files that can each be read can all be read.
pub read_all-ok :
    (fs : String → Option String) (paths : List String)
    → All (λ p. (text : String) × (fs p ≡ some text)) paths
    → (texts : List String) × (read_all fs paths ≡ ok texts)
unfolding read_all
read_all-ok fs [] all = ([], refl)
read_all-ok fs (p ∷ paths) ((text, e), all) =
    let (texts, rest) = read_all-ok fs paths all in (text ∷ texts, ground arith)

-- Texts with the separator between each two.
abbrev pub separated : String → List String → String
separated first [] = first
separated first (text ∷ texts) = first <> (separator <> separated text texts)

abbrev pub joined : List String → String
joined [] = ""
joined (first ∷ texts) = separated first texts

separated-append :
    (a b : String) (texts : List String) → separated (a <> b) texts ≡ a <> separated b texts
separated-append a b [] = refl
separated-append a b (t ∷ texts) = TextLemmas.append_assoc a b (separator <> separated t texts)

separated-cons :
    (a b : String) (texts : List String)
    → separated (a <> (separator <> b)) texts ≡ separated a (b ∷ texts)
separated-cons a b texts =
    separated-append a (separator <> b) texts
    ∙ ap (λ t. a <> t) (separated-append separator b texts)

append_files-separated :
    (fs : String → Option String) (paths : List String) (result : String)
    → append_files fs result paths ≡ (read_all fs paths >>= λ texts. ok (separated result texts))
unfolding append_files read_file read_all
append_files-separated fs [] result = refl
append_files-separated fs (path ∷ paths) result = elim (Option-cases (fs path)) [
  | inl e ↦ ground arith
  | inr (content, e) ↦
      rw (e, read_file, read_all)
        (append_files-separated fs paths (result <> (separator <> content))
          ∙ shift (read_all fs paths) content)
]
  where
    shift :
        (m : Result MergeError (List String)) (content : String)
        → (m >>= λ texts. ok (separated (result <> (separator <> content)) texts))
          ≡ (m >>= (λ texts. ok (content ∷ texts)) >>= λ texts. ok (separated result texts))
    shift (ok texts) content = ap ok (separated-cons result content texts)
    shift (err e) content = refl

-- The merged text of a chain: the contents of its files in order, with the separator between each
-- two; and where a file cannot be read, the error of the first such file.
pub merge_extends_chain-joined :
    (fs : String → Option String) (path : String) (paths : List String)
    → merge_extends_chain fs (path ∷ paths)
      ≡ (read_all fs (path ∷ paths) >>= λ texts. ok (joined texts))
unfolding merge_extends_chain read_file read_all
merge_extends_chain-joined fs path paths = elim (Option-cases (fs path)) [
  | inl e ↦ ground arith
  | inr (first, e) ↦
      rw (e, read_file, read_all)
        (append_files-separated fs paths first ∙ regroup (read_all fs paths) first)
]
  where
    regroup :
        (m : Result MergeError (List String)) (first : String)
        → (m >>= λ texts. ok (separated first texts))
          ≡ (m >>= (λ texts. ok (first ∷ texts)) >>= λ texts. ok (joined texts))
    regroup (ok texts) first = refl
    regroup (err e) first = refl
