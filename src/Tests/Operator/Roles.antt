-- ===== src/Tests/Operator/Roles.antt =====
-- The AgentRole controller on samples.
use landman.Base.{◌≡◌, refl, none, [], ◌∷◌, false, true, pos, ok, inl, if◌then◌else◌, ◌==◌, str_dec}
use landman.Operator.Tables.{Tables, run, upsert}
use landman.Operator.Dolt.{
  transaction, exec_all, open_dolt_connection, open_dolt_connection_from_spec, condition_true,
}
use landman.Operator.Webhooks.Laws.{IsAdmissible, apart}
use landman.Operator.Role.{
  Client, role_row, sync_to_dolt, delete_from_dolt, handle_deletion, without_finalizer,
}
use landman.Operator.Role.Laws.{
  IsStorable, role_row-IsStorable, role_view, handle_deletion_released,
}
use landman.Tests.Operator.{role, empty, engine, machinery}
use landman.Tests.Operator.Admission.{server}

abbrev client : Client
client = record {
  engine = engine;
  machinery = machinery;
  update = none;
  status_update = none;
  actual_instances = λ name. ok (pos 1, none);
}

-- The role in the tables, and a rig that has opted into it and into another.
abbrev in_use : Tables
in_use = record (sync_to_dolt engine (role false) empty).1 {
  rig_roles =
      record { rig_name = "alpha"; role_name = "scout"; enabled = true }
      ∷ record { rig_name = "alpha"; role_name = "scribe"; enabled = true }
      ∷ [];
}

handle_deletion_released_example :
    role_view "scout" (handle_deletion client (role true) in_use).tables
    ≡ (if "scout" == "scout" then record { role = []; uses = [] } else role_view "scout" in_use)
unfolding handle_deletion delete_from_dolt transaction exec_all run upsert str_dec
    open_dolt_connection open_dolt_connection_from_spec condition_true
handle_deletion_released_example =
    handle_deletion_released client (role true) (without_finalizer client (role true)) in_use
      "scout" refl refl refl

admissible : IsAdmissible server (role false)
unfolding str_dec
admissible = (
  refl,
  apart "mayor" "" refl,
  apart "mayor" "scout" refl,
  inl (refl, apart "0 * * * *" "" refl, refl),
  refl,
)

role_row-IsStorable_example : IsStorable (role_row (role false))
role_row-IsStorable_example = role_row-IsStorable server (role false) admissible
