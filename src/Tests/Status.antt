-- ===== src/Tests/Status.antt =====
-- The status of `town-ctl` on samples.
use landman.Base.{
  ◌≡◌, refl, none, List, [], ◌∷◌, ◌/◌, true, false, pos, ok, err, String, str_dec, map, ℤ,
}
use landman.Surveyor.Topology.{DesiredTopology, ActualTopology}
use landman.Surveyor.Queries.{Queries}
use landman.Surveyor.Config.{default_production_config, config_at, sub_time}
use landman.TownCtl.Status.{StatusReads, StatusResult, rig_result, report}
use landman.Tests.Samples.{sample_ops}

abbrev queries : Queries
queries = record {
  desired_rigs = ok (record {
    scans =
        ok (record { name = "alpha"; enabled = true; max_polecats = pos 3 })
        ∷ ok (record { name = "beta"; enabled = false; max_polecats = pos 0 })
        ∷ [];
    last = none;
  });
  desired_agents = ok (record { scans = ok ("alpha", "witness") ∷ []; last = none });
  desired_custom_roles = err "no table";
  desired_formulas = ok (record { scans = []; last = none });
  actual_rigs = ok (record {
    scans =
        ok (record { name = "alpha"; enabled = true; status = "running"; last_seen = pos 0 }) ∷ [];
    last = none;
  });
  actual_agents = ok (record {
    scans =
        ok (record { rig_name = "alpha"; role = "mayor"; status = "running"; last_seen = pos 0 })
        ∷ [];
    last = none;
  });
  actual_worktrees = err "no table";
  actual_custom_roles = ok (record {
    scans =
        ok (record {
          rig_name = "__town__";
          role_name = "scribe";
          instance_index = pos 0;
          status = "running";
          last_seen = pos 0;
        })
        ∷ [];
    last = none;
  });
}

abbrev reads : StatusReads
reads = record { topology = queries; town_name = ok "gt"; open_beads = err ""; cost = err "" }

abbrev desired : DesiredTopology
desired = record {
  rigs =
      record { name = "alpha"; enabled = true; max_polecats = pos 3; witness_enabled = true }
      ∷ record { name = "beta"; enabled = false; max_polecats = pos 0; witness_enabled = false }
      ∷ [];
  custom_roles = [];
  formulas = [];
}

abbrev actual : ActualTopology
actual = record {
  rigs = record { name = "alpha"; enabled = true; status = "running"; last_seen = pos 0 } ∷ [];
  agents =
      record { rig_name = "alpha"; role = "mayor"; status = "running"; last_seen = pos 0 } ∷ [];
  worktrees = [];
  custom_roles =
      record {
        rig_name = "__town__";
        role_name = "scribe";
        instance_index = pos 0;
        status = "running";
        last_seen = pos 0;
      }
      ∷ [];
}

-- 61 seconds after the last signs of life.
abbrev now : ℤ
now = pos 61000000000

abbrev seconds : ℤ → ℤ
seconds (pos n) = pos (n / 1000000000)
seconds d = pos 0

abbrev status : List String → StatusResult
status filter = report sample_ops seconds reads filter now (desired, actual)

-- Only the rig that is asked for, and the role of the town.
filtered :
    (map (λ r. r.name) (status ("alpha" ∷ [])).rigs ≡ "alpha" ∷ [])
    × (map (λ r. r.mayor_stale_seconds) (status ("alpha" ∷ [])).rigs ≡ pos 61 ∷ [])
    × (map (λ r. r.rig) (status ("alpha" ∷ [])).custom_roles ≡ "gt" ∷ [])
unfolding rig_result default_production_config config_at sub_time str_dec
filtered = (refl, refl, refl)
