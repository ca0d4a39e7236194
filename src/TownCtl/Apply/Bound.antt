-- ===== src/TownCtl/Apply/Bound.antt =====
-- The placeholders and the arguments of the statements of an apply (pkg/townctl/apply.go).
use landman.Base.{
  String, ◌<>◌, ◌≡◌, refl, ap, ◌∙◌, List, [], ◌∷◌, ◌++◌, map, ℕ, suc, ◌+◌, ◌*◌, arith,
}
use landman.Base.{length, length-append, length-map, All}
use landman.Base.Float.{FloatOps}
use landman.Manifest.Types.{TownManifest}
use landman.TownCtl.Stmt.{Stmt, str, marks, placeholders, pair_placeholders}
use landman.TownCtl.Stmt.Marks.{IsBound, marks-append, marks-placeholders, marks-pair_placeholders}
use landman.TownCtl.Version.{TableSchemaVersion, topology_versions_upsert, join, version_args}
use landman.TownCtl.Topology
use landman.TownCtl.Topology.{pair_args, topology_apply_sql}
use landman.TownCtl.Roles
use landman.TownCtl.Roles.{custom_roles_apply_sql}
use landman.TownCtl.Costs
use landman.TownCtl.Costs.{apply_sql}
use landman.TownCtl.Apply.{full_apply_sql, transaction, message_stmt, topology_lock_upsert_sql}

marks-wrap : (a s c : String) → marks (a <> (s <> c)) ≡ marks a + (marks s + marks c)
marks-wrap a s c = marks-append a (s <> c) ∙ ap (λ k. marks a + k) (marks-append s c)

-- A text with one list of keys between two fixed texts.
marks-one :
    (a : String) (n : ℕ) (c : String)
    → marks (a <> (placeholders (suc n) <> c)) ≡ marks a + (suc n + marks c)
marks-one a n c = marks-wrap a (placeholders (suc n)) c ∙ omega (arith, marks-placeholders n)

marks-pairs :
    (a : String) (n : ℕ) (c : String)
    → marks (a <> (pair_placeholders (suc n) <> c)) ≡ marks a + (2 * suc n + marks c)
marks-pairs a n c =
    marks-wrap a (pair_placeholders (suc n)) c ∙ omega (arith, marks-pair_placeholders n)

-- A text with a list of keys and a list of pairs.
marks-both :
    (a : String) (n : ℕ) (b : String) (k : ℕ) (c : String)
    → marks (a <> (placeholders (suc n) <> (b <> (pair_placeholders (suc k) <> c))))
      ≡ marks a + (suc n + (marks b + (2 * suc k + marks c)))
marks-both a n b k c =
    marks-one a n (b <> (pair_placeholders (suc k) <> c)) ∙ omega (arith, marks-pairs b k c)

length-pair_args : (ks : List (String × String)) → length (pair_args ks) ≡ 2 * length ks
length-pair_args [] = refl
length-pair_args ((a, b) ∷ ks) = omega (arith, length-pair_args ks)

delete_removed_rigs-IsBound : (names : List String) → IsBound (Topology.delete_removed_rigs names)
unfolding Topology.delete_removed_rigs marks
delete_removed_rigs-IsBound [] = refl
delete_removed_rigs-IsBound (n ∷ names) =
    marks-one "DELETE FROM desired_rigs WHERE name NOT IN (" (length names) ");"
    ∙ omega (arith, length-map str names)

delete_removed_agent_config-IsBound :
    (keys : List (String × String)) (rigs : List String)
    → IsBound (Topology.delete_removed_agent_config keys rigs)
unfolding Topology.delete_removed_agent_config marks
delete_removed_agent_config-IsBound [] rigs = refl
delete_removed_agent_config-IsBound (k ∷ keys) [] = refl
delete_removed_agent_config-IsBound (k ∷ keys) (n ∷ rigs) =
    marks-both "DELETE FROM desired_agent_config WHERE rig_name IN (" (length rigs)
      ") AND (rig_name, role) NOT IN (" (length keys) ");"
    ∙ omega (
      arith,
      length-append (map str (n ∷ rigs)) (pair_args (k ∷ keys)),
      length-map str rigs,
      length-pair_args (k ∷ keys),
    )

delete_removed_formulas-IsBound :
    (keys : List (String × String)) (rigs : List String)
    → IsBound (Topology.delete_removed_formulas keys rigs)
unfolding Topology.delete_removed_formulas marks
delete_removed_formulas-IsBound [] [] = refl
delete_removed_formulas-IsBound (k ∷ keys) [] = refl
delete_removed_formulas-IsBound [] (n ∷ rigs) =
    marks-one "DELETE FROM desired_formulas WHERE rig_name IN (" (length rigs) ");"
    ∙ omega (arith, length-map str rigs)
delete_removed_formulas-IsBound (k ∷ keys) (n ∷ rigs) =
    marks-both "DELETE FROM desired_formulas WHERE rig_name IN (" (length rigs)
      ") AND (rig_name, name) NOT IN (" (length keys) ");"
    ∙ omega (
      arith,
      length-append (map str (n ∷ rigs)) (pair_args (k ∷ keys)),
      length-map str rigs,
      length-pair_args (k ∷ keys),
    )

delete_removed_custom_roles-IsBound :
    (rows : List Roles.CustomRoleRow) → IsBound (Roles.delete_removed_custom_roles rows)
unfolding Roles.delete_removed_custom_roles marks
delete_removed_custom_roles-IsBound [] = refl
delete_removed_custom_roles-IsBound (r ∷ rows) =
    marks-one "DELETE FROM desired_custom_roles WHERE name NOT IN (" (length rows) ");"
    ∙ omega (arith, length-map (λ (row : Roles.CustomRoleRow). str row.name) rows)

delete_removed_rig_custom_roles-IsBound :
    (rows : List Roles.RigCustomRoleRow) → IsBound (Roles.delete_removed_rig_custom_roles rows)
unfolding Roles.delete_removed_rig_custom_roles marks
delete_removed_rig_custom_roles-IsBound [] = refl
delete_removed_rig_custom_roles-IsBound (r ∷ rows) =
    marks-pairs "DELETE FROM desired_rig_custom_roles WHERE (rig_name, role_name) NOT IN ("
      (length rows) ");"
    ∙ omega (
      arith,
      length-pair_args (map (λ (row : Roles.RigCustomRoleRow). (row.rig_name, row.role_name)) rows),
      length-map {B = String × String}
          (λ (row : Roles.RigCustomRoleRow). (row.rig_name, row.role_name)) rows,
    )

cleanup_rows-IsBound : (rows : List Costs.CostPolicyRow) → IsBound (Costs.cleanup_rows rows)
unfolding Costs.cleanup_rows marks
cleanup_rows-IsBound [] = refl
cleanup_rows-IsBound (r ∷ rows) =
    marks-one "DELETE FROM desired_cost_policy WHERE rig_name NOT IN (" (length rows) ");"
    ∙ omega (arith, length-map (λ (row : Costs.CostPolicyRow). str row.rig_name) rows)

marks-join :
    (tables : List TableSchemaVersion)
    → marks (join ", " (map (λ _. "(?, ?, ?)") tables)) ≡ 3 * length tables
unfolding join marks
marks-join [] = refl
marks-join (t ∷ []) = refl
marks-join (t ∷ u ∷ tables) =
    marks-append "(?, ?, ?)" _
    ∙ ap (λ k. 3 + k) (marks-append ", " (join ", " (map (λ _. "(?, ?, ?)") (u ∷ tables))))
    ∙ omega (arith, marks-join (u ∷ tables))

length-version_args :
    (binary : String) (tables : List TableSchemaVersion)
    → length (version_args binary tables) ≡ 3 * length tables
length-version_args binary [] = refl
length-version_args binary (t ∷ tables) = omega (arith, length-version_args binary tables)

topology_versions_upsert-IsBound :
    (binary : String) (tables : List TableSchemaVersion)
    → IsBound (topology_versions_upsert binary tables)
unfolding topology_versions_upsert marks
topology_versions_upsert-IsBound binary tables =
    marks-wrap
      "INSERT INTO desired_topology_versions (table_name, schema_version, written_by) VALUES "
      (join ", " (map (λ _. "(?, ?, ?)") tables)) _
    ∙ omega (arith, marks-join tables, length-version_args binary tables)

All-append : (P : Stmt → Type 0) (xs ys : List Stmt) → All P xs → All P ys → All P (xs ++ ys)
All-append P [] ys px py = py
All-append P (x ∷ xs) ys (p, px) py = (p, All-append P xs ys px py)

All-map :
    {R : Type 0} (P : Stmt → Type 0) (f : R → Stmt) (rows : List R)
    → ((r : R) → P (f r))
    → All P (map f rows)
All-map P f [] h = tt
All-map P f (r ∷ rows) h = (h r, All-map P f rows h)

-- Upserts, one deletion, and what follows: the shape of every table's statements.
section-IsBound :
    {R : Type 0} (f : R → Stmt) (rows : List R) (delete : Stmt) (rest : List Stmt)
    → ((r : R) → IsBound (f r))
    → IsBound delete
    → All IsBound rest
    → All IsBound (map f rows ++ (delete ∷ rest))
section-IsBound f rows delete rest each_bound bound later =
    All-append IsBound (map f rows) (delete ∷ rest) (All-map IsBound f rows each_bound)
      (bound, later)

topology-IsBound :
    (expand : String → String) (binary : String) (m : TownManifest)
    → All IsBound (topology_apply_sql expand binary m)
unfolding topology_apply_sql Topology.upsert_rig_row Topology.upsert_agent_config_row
    Topology.upsert_formula_row marks
topology-IsBound expand binary m = (
  topology_versions_upsert-IsBound binary _,
  section-IsBound Topology.upsert_rig_row m.rigs _ _ (λ r. refl) (delete_removed_rigs-IsBound _)
      (section-IsBound Topology.upsert_agent_config_row _ _ _ (λ r. refl)
        (delete_removed_agent_config-IsBound _ _)
        (section-IsBound Topology.upsert_formula_row _ _ _ (λ r. refl)
          (delete_removed_formulas-IsBound _ _) tt)),
)

roles-IsBound :
    (expand : String → String) (binary : String) (m : TownManifest)
    → All IsBound (custom_roles_apply_sql expand binary m)
unfolding custom_roles_apply_sql Roles.upsert_custom_role_row Roles.upsert_rig_custom_role_row marks
roles-IsBound expand binary m = (
  topology_versions_upsert-IsBound binary _,
  section-IsBound Roles.upsert_custom_role_row _ _ _ (λ r. refl)
      (delete_removed_custom_roles-IsBound _)
      (section-IsBound Roles.upsert_rig_custom_role_row _ _ _ (λ r. refl)
        (delete_removed_rig_custom_roles-IsBound _) tt),
)

costs-IsBound :
    (ops : FloatOps) (binary : String) (m : TownManifest) → All IsBound (apply_sql ops binary m)
unfolding apply_sql Costs.upsert_row marks
costs-IsBound ops binary m = (
  topology_versions_upsert-IsBound binary _,
  section-IsBound Costs.upsert_row _ _ _ (λ r. refl) (cleanup_rows-IsBound _) tt,
)

-- For every manifest, each statement of the apply transaction has as many arguments as its text
-- has placeholders, the commit message and the lock included.
pub transaction-IsBound :
    (ops : FloatOps) (expand : String → String) (binary path : String) (m : TownManifest)
    → All IsBound (transaction ops expand binary path m)
unfolding transaction message_stmt full_apply_sql topology_lock_upsert_sql marks
transaction-IsBound ops expand binary path m = (
  refl,
  All-append IsBound (full_apply_sql ops expand binary m) _
      (All-append IsBound (topology_apply_sql expand binary m) _ (topology-IsBound expand binary m)
        (All-append IsBound (custom_roles_apply_sql expand binary m) _
          (roles-IsBound expand binary m) (costs-IsBound ops binary m)))
      (refl, tt),
)
