-- ===== src/Lib.antt =====
-- The core of landman: the declarative topology of a Gas Town, from the manifest `town.toml` or the
-- Kubernetes resources to the rows of the Dolt database, and the Surveyor that scores how far the
-- town has converged to them.
--
-- The parts, and how they interact:
-- - pkg/manifest holds the structures of town.toml, validates them, and merges the CLAUDE.md files
--   of roles that extend one another. Everything below takes a validated manifest.
-- - pkg/townctl turns a manifest into the statements of one transaction (FullApplySQL,
--   applyTransaction), plans a dry run against the rows of the database (DryRunPlan,
--   DiffCustomRoles), merges included manifests, writes merged CLAUDE.md files, and computes the
--   beads of the cost patrol.
-- - pkg/surveyor compares a desired with an actual topology (ComputeScore) and runs the verify loop
--   over the scores (RunVerifyLoop).
-- - pkg/k8s/operator is the other writer of the same tables: webhooks admit the resources (GasTown,
--   Rig, AgentRole, DoltInstance), and a controller for each reconciles them: it writes rows (the
--   syncs of a Rig and of a GasTown under the advisory lock that town-ctl takes too), makes the
--   objects of the cluster, and reads the score of pkg/surveyor back into a town's status.
--
-- The files, and the code that each models:
-- - Base and its children: what all share. Results is Go's `(value, error)`, Map a Go map as an
--   association list, Float a `float64` by its bits, Numbers Go's `int` as an integer.
-- - Manifest/Types: pkg/manifest/manifest.go. Manifest/Validate: crossValidate of
--   pkg/manifest/validate.go, with Manifest/Extends (detectExtendsCycle) and Manifest/Cost
--   (validateCostPolicy). Manifest/Merge: pkg/manifest/claudemd_merge.go. Manifest/Chains: the two
--   together. Manifest/Rules: the rules of validation, said of the manifest. Manifest/ApplyTime:
--   ValidateApplyTimeFS of validate.go.
-- - TownCtl/Stmt, Version, Topology, Costs, Roles: the statements of pkg/townctl/dolt.go,
--   version.go, topology.go, costpolicy.go and customroles.go; Apply puts them together as diff.go
--   and apply.go do. TownCtl/Diff is the plan that costpolicy.go and customroles.go both write out.
--   Merged is MergeAndWriteExtendsChains of customroles.go, Includes and Overlay are includes.go,
--   Patrol is patrol.go. Status is statusFromDB of status.go; Surveyor/Queries holds the rows that
--   it and the operator read. Lock is CheckTopologyLock of dolt.go, and the applies that check the
--   lock and then take it.
-- - Surveyor/Config, Topology, Rules, Score, Verify: pkg/surveyor/score.go.
-- - Operator/Types: the resources of pkg/k8s/operator/v1alpha1/types.go. Operator/Webhooks,
--   Admission and Semver: pkg/k8s/operator/webhooks. The controllers of
--   pkg/k8s/operator/controllers: Operator/Dolt is dolt.go, Rig (with Rig/Reconcile)
--   rig_controller.go, Role agentrole_controller.go, Town (with Town/Reconcile and Town/Status)
--   gastown_controller.go, and Instance (with Instance/Steps and Instance/Reconcile)
--   doltinstance_controller.go. Operator/Tables holds the desired tables and what each SQL statement
--   does to them, and Operator/Machinery what the reconcilers take from controller-runtime.
-- - A child named Laws, Names, Chains, Bound, Marks, Presence, Meaning, Maps, Checks, Counts,
--   Histories, RoundTrip, Sync, View, Drain, Lifecycle, Progress, Defaults, Witness, Agreement,
--   Bounds, Claims, Digits or (under Score) Roles holds proofs. Tests holds runs on sample data.
-- Names are the source's, in snake case: `crossValidate` is `cross_validate`.
--
-- How the code is read. A struct is a record, a pointer an option, an error a value that names the
-- check that failed with what its message prints. A loop with an early return is a recursion on the
-- list; a loop that appends to a result, or counts in one, is a fold. A map built by a loop holds
-- the last entry of a key. A time or a duration is a number of nanoseconds, and the difference of
-- two times saturates as in Go. Counters are natural numbers, and an `int` is an integer without
-- overflow; where a text is parsed (Semver), a number that does not fit in 64 bits is an error. A
-- reconcile is a function from the answers of the API server and of the database (the records
-- `Client`, `Engine`, `Api`: each call may fail at any place), the object and the tables to the
-- result, the stored object, the tables and the events. A transaction changes the tables when all
-- its statements and its commit go through, and leaves them as they were otherwise.
--
-- Fuel: `walk` has the `len(roles) + 1` rounds of the source's loop, and `resolve_chain` counts down
-- the source's `maxDepth`, which starts at `len(roles) + 1`; the error for a chain that is too deep
-- is the source's own. Nothing in Operator needs fuel.
--
-- Parameters, for what the code calls: the operations on floats (`FloatOps`), `os.ExpandEnv`,
-- `filepath.Join`, `stat`, the order in which Go goes through a map, the files and which of them can
-- be written (`Host`), the formats of `fmt` for floats, BinaryVersion, which the build sets, the API
-- server, the SQL driver, the clock, conditions and finalizers of controller-runtime (`Machinery`),
-- the embedded SQL files, the regular expression of a cron schedule, and `int64(d.Seconds())`.
-- Facts of IEEE 754 that a theorem needs are a record that it takes (`IsDivision`, `IsConversion`,
-- `IsOrdered`).
--
-- Not modelled: the toml decoder, the struct validator and the warnings of pkg/manifest; the
-- database and its driver; the search, reading and parsing of included files; export, secrets,
-- processes and the text of a status of pkg/townctl; metrics and logging; pkg/observer; the commands
-- under cmd. Of pkg/k8s the generated code, the manager's set-up, the ticker loops that call
-- patchStatusFromActual, and of the cluster's objects the owner references and namespaces, which no
-- step reads. Database constraints are not in the tables: a statement that violates one is a
-- statement that fails. A run of MergeAndWriteExtendsChains that fails is only its error: the files
-- and the roles that it changed before are not kept.
pub mod Base
pub mod Manifest
pub mod TownCtl
pub mod Surveyor
pub mod Operator
pub mod Tests
