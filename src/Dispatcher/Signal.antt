-- ===== src/Dispatcher/Signal.antt =====
-- src/dispatcher.rs: the dispatch of a hippocampus action, and of a sensor signal.
pub mod Events
use satan_attrd.Prelude.{
  String, Bool, not, ◌&&◌, Option, none, some, List, [], ◌∷◌, map, unwrap_or, if◌then◌else◌,
}
use satan_attrd.Prelude.Int.{ℤ, pos, neg}
use satan_attrd.F64.{F64, add, sub, eq, lt, nought}
use satan_attrd.Extern.{Extern}
use satan_attrd.Types.Attribute.{AttributeName}
use satan_attrd.Types.Scopes.{global}
use satan_attrd.Types.Sources
use satan_attrd.Types.Outcome
use satan_attrd.Types.Outcome.{OutcomeReason}
use satan_attrd.Types.Hippocampus
use satan_attrd.Types.Sensor
use satan_attrd.Types.Maintenance
use satan_attrd.Types.Caps.{Cap, range_clamp}
use satan_attrd.Tuning.{
  attr_order, outcome_base_deltas, hippocampus_base_deltas, sensor_base_deltas,
}
use satan_attrd.Store.Counter
use satan_attrd.Store.Counter.{Counter}
use satan_attrd.Store.Event.{EventInsert}
use satan_attrd.Dispatcher.Weight
use satan_attrd.Dispatcher.Weight.{weight_delta}
use satan_attrd.Dispatcher.Plan.{AttributePlan, plan_for}
use satan_attrd.Dispatcher.Input.{
  Projection, OutcomeInput, RevisionInput, HippocampusInput, SensorInput, MaintenanceInput,
}
use satan_attrd.Dispatcher.Emit.{Panics, emit}
use satan_attrd.Dispatcher.Tables.{base_deltas, zip, value_at, zero_base, zero_bases}

module _ {X : Extern} where
  -- The body of the loop of `dispatch_hippocampus`.
  unfoldable pub hippocampus_event : HippocampusInput X → AttributeName × F64 → ℤ → EventInsert X
  unfolding Sources.as_str Hippocampus.as_str
  hippocampus_event input (name, base) seq =
      let plan = plan_for name base (value_at input.projection name) input.snapshot in
      record {
        run_id = input.run_id;
        seq = seq;
        ts = input.ts;
        scope = global;
        name = name;
        old_value = plan.old_value;
        new_value = plan.new_value;
        source = Sources.as_str Sources.hippocampus;
        reason = Hippocampus.as_str input.reason;
        evidence_json =
            X.object
              (("tool_name", X.text input.tool_name) ∷ ("filename", X.text input.filename) ∷ []);
        caps_applied = plan.caps_applied;
        disabled = not input.enabled;
      }

  unfoldable pub dispatch_hippocampus : HippocampusInput X → Counter → Panics (List (EventInsert X))
  dispatch_hippocampus input =
      emit zero_base (hippocampus_event input)
        (zip attr_order (hippocampus_base_deltas input.reason))

  -- The body of the loop of `dispatch_sensor`.
  unfoldable pub sensor_event : SensorInput X → AttributeName × F64 → ℤ → EventInsert X
  unfolding Sources.as_str Sensor.as_str
  sensor_event input (name, base) seq =
      let plan = plan_for name base (value_at input.projection name) input.snapshot in
      record {
        run_id = input.run_id;
        seq = seq;
        ts = input.ts;
        scope = global;
        name = name;
        old_value = plan.old_value;
        new_value = plan.new_value;
        source = Sources.as_str Sources.sensor;
        reason = Sensor.as_str input.reason;
        evidence_json = X.object (
            ("sensor_type", X.text input.sensor_type)
            ∷ ("metric_value", X.number input.metric_value)
            ∷ ("metric_unit", X.text input.metric_unit)
            ∷ []);
        caps_applied = plan.caps_applied;
        disabled = not input.enabled;
      }

  unfoldable pub dispatch_sensor : SensorInput X → Counter → Panics (List (EventInsert X))
  dispatch_sensor input =
      emit zero_base (sensor_event input) (zip attr_order (sensor_base_deltas input.reason))
