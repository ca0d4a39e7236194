-- ===== src/TownCtl/Apply.antt =====
-- The statements of one apply (pkg/townctl/diff.go, FullApplySQL, and apply.go, applyTransaction).
pub mod Bound
use landman.Base.{String, ◌<>◌, List, [], ◌∷◌, ◌++◌, length}
use landman.Base.{pos}
use landman.Base.Decimal.{show_ℕ}
use landman.Base.Float.{FloatOps}
use landman.Manifest.Types.{TownManifest}
use landman.TownCtl.Stmt.{Stmt, str}
use landman.TownCtl.Topology.{topology_apply_sql}
use landman.TownCtl.Roles.{custom_roles_apply_sql}
use landman.TownCtl.Costs.{apply_sql}

unfoldable pub full_apply_sql : FloatOps → (String → String) → String → TownManifest → List Stmt
full_apply_sql ops expand binary m =
    topology_apply_sql expand binary m
    ++ (custom_roles_apply_sql expand binary m ++ apply_sql ops binary m)

-- The lock row of `desired_topology_lock` (pkg/townctl/dolt.go).
unfoldable pub topology_lock_upsert_sql : String → Stmt
topology_lock_upsert_sql holder = record {
  query =
      "INSERT INTO desired_topology_lock (singleton, holder, acquired_at) VALUES ('X', ?, NOW()) ON DUPLICATE KEY UPDATE holder = VALUES(holder), acquired_at = VALUES(acquired_at);";
  args = str holder ∷ [];
}

-- `SET @dolt_transaction_commit_message`, with the number of statements in the message.
unfoldable pub message_stmt : String → TownManifest → List Stmt → Stmt
message_stmt path m stmts = record {
  query = "SET @dolt_transaction_commit_message = ?;";
  args =
      str (
        "town-ctl apply: "
        <> (path <> (" v" <> (m.version <> (" [" <> (show_ℕ (length stmts) <> " stmts]"))))))
      ∷ [];
}

-- What `applyTransaction` hands to `ExecTransaction`.
unfoldable pub transaction :
    FloatOps → (String → String) → String → String → TownManifest → List Stmt
transaction ops expand binary path m =
    let stmts = full_apply_sql ops expand binary m in
    message_stmt path m stmts ∷ (stmts ++ (topology_lock_upsert_sql binary ∷ []))
