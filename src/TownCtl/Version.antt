-- ===== src/TownCtl/Version.antt =====
-- The `desired_topology_versions` upsert (pkg/townctl/version.go). `BinaryVersion` is set by the
-- linker, and so it is a parameter.
use landman.Base.{String, ◌<>◌, List, [], ◌∷◌, map, ℕ, pos}
use landman.TownCtl.Stmt.{Stmt, Value, str, number}

pub record TableSchemaVersion : Type 0 where
  pub table : String
  pub version : ℕ

-- `strings.Join(values, sep)`
unfoldable pub join : String → List String → String
join sep [] = ""
join sep (s ∷ []) = s
join sep (s ∷ t ∷ rest) = s <> (sep <> join sep (t ∷ rest))

abbrev pub version_args : String → List TableSchemaVersion → List Value
version_args binary [] = []
version_args binary (tv ∷ tables) =
    str tv.table ∷ number (pos tv.version) ∷ str binary ∷ version_args binary tables

unfoldable pub topology_versions_upsert : String → List TableSchemaVersion → Stmt
unfolding join
topology_versions_upsert binary tables = record {
  query =
      "INSERT INTO desired_topology_versions (table_name, schema_version, written_by) VALUES "
      <> (join ", " (map (λ _. "(?, ?, ?)") tables)
          <> " ON DUPLICATE KEY UPDATE schema_version = VALUES(schema_version), written_by = VALUES(written_by), written_at = CURRENT_TIMESTAMP;");
  args = version_args binary tables;
}
