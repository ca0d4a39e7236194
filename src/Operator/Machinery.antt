-- ===== src/Operator/Machinery.antt =====
-- What the reconcilers use of `controllerutil` and `meta` (conditions and finalizers), and what a
-- reconcile returns.
use landman.Base.{String, Bool, true, false, Option, none, some, List, ℕ, ◌*◌, ℤ, pos}
use landman.Surveyor.Config.{second}
use landman.Operator.Types.{Condition}
use landman.Operator.Tables.{Tables}

pub record Machinery : Type 0 where
  pub set_status_condition : List Condition → Condition → List Condition
  pub remove_status_condition : List Condition → String → List Condition
  pub contains_finalizer : List String → String → Bool
  pub add_finalizer : List String → String → List String
  pub remove_finalizer : List String → String → List String

-- `ctrl.Result`
pub record CtrlResult : Type 0 where
  pub requeue : Bool
  pub requeue_after : ℤ

abbrev pub done : CtrlResult
done = record { requeue = false; requeue_after = pos 0 }

abbrev pub again : CtrlResult
again = record { requeue = true; requeue_after = pos 0 }

abbrev pub after_seconds : ℕ → CtrlResult
after_seconds n = record { requeue = false; requeue_after = pos (n * second) }

pub record Event : Type 0 where
  pub event_type : String
  pub reason : String
  pub message : String

abbrev pub event : String → String → String → Event
event event_type reason message = record {
  event_type = event_type;
  reason = reason;
  message = message;
}

-- What a reconcile leaves: its result and error, the object as the API server has it, the tables,
-- and the events it emits.
pub record Outcome (A : Type 0) : Type 0 where
  pub result : CtrlResult
  pub error : Option String
  pub object : Option A
  pub tables : Tables
  pub events : List Event

abbrev pub outcome :
    {A : Type 0} → CtrlResult → Option String → Option A → Tables → List Event → Outcome A
outcome result error object tables events = record {
  result = result;
  error = error;
  object = object;
  tables = tables;
  events = events;
}

-- The object after a write to the API server: the new one, or on an error the old one.
abbrev pub written : {A : Type 0} → Option String → A → A → A
written none old new = new
written (some e) old new = old
