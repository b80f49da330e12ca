-- ===== src/Tests/Dispatch.antt =====
-- The dispatchers and the plan at concrete inputs.
use satan_attrd.Prelude.{All, ◌≡◌, false, true, refl, some, [], ◌∷◌, inl, arith}
use satan_attrd.Prelude.Int.{pos, neg, ◌≤ℤ◌}
use satan_attrd.F64.{F64, add, one, epsilon, round_magnitude}
use satan_attrd.Error.{ok, err, value_out_of_range}
use satan_attrd.Types.Attribute.{doubt, friction, shame}
use satan_attrd.Types.Outcome.{contradicted, harmful}
use satan_attrd.Types.Scopes.{global}
use satan_attrd.Tuning
use satan_attrd.Tuning.{small}
use satan_attrd.Store.Event.{EventInsert, validate}
use satan_attrd.Dispatcher.Weight.{weight_delta, high}
use satan_attrd.Dispatcher.Plan.{Snapshot, is_friction, friction_bound, plan_for}
use satan_attrd.Dispatcher.Plan.Bounds.{NearRange, plan_for-NearRange, plan_gap_refused}
use satan_attrd.Dispatcher.Plan.Friction.{friction_restrained}
use satan_attrd.F64.{round}
use satan_attrd.Types.Outcome.{worked}
use satan_attrd.Types.Hippocampus.{overwritten}
use satan_attrd.Types.Sensor.{segment_backlog}
use satan_attrd.Types.Maintenance.{idle_decay}
use satan_attrd.Tuning.{
  confidence_magnitude_cap, attr_order, outcome_base_deltas, hippocampus_base_deltas,
  sensor_base_deltas,
}
use satan_attrd.Dispatcher.Plan.Friction.{IsInhibiting}
use satan_attrd.Dispatcher.Weight.Bounds.{IsWeighed, table_weights}
use satan_attrd.Dispatcher.Input.{RevisionInput, HippocampusInput, SensorInput, MaintenanceInput}
use satan_attrd.Dispatcher.Tables.{base_deltas, base_of, affected, nonzero_names, zip}
use satan_attrd.Dispatcher.Emit.Laws.{Emitted}
use satan_attrd.Dispatcher.Outcome.{dispatch_outcome, dispatch_revision}
use satan_attrd.Dispatcher.Outcome.Events.{IsPlanned, dispatch_outcome-Emitted}
use satan_attrd.Dispatcher.Outcome.Revision.{IsRevised, dispatch_revision-Emitted}
use satan_attrd.Dispatcher.Outcome.Caps.{IsUnrestrained, outcome-IsUnrestrained}
use satan_attrd.Dispatcher.Signal.{dispatch_hippocampus, dispatch_sensor}
use satan_attrd.Dispatcher.Signal.Events.{
  IsAction, dispatch_hippocampus-Emitted, IsSignal, dispatch_sensor-Emitted,
}
use satan_attrd.Dispatcher.Maintenance.{dispatch_maintenance}
use satan_attrd.Dispatcher.Maintenance.Range.{dispatch_maintenance_valid}
use satan_attrd.RunLoop.Union.{union_affected}
use satan_attrd.Tests.Fixtures.{json, Json, calm, at_rest, outcome_input}

-- 0.15 less 0.05 twice, as the program computes it: slightly less than 0.05.
abbrev doubt_left : F64
unfolding add small Tuning.medium neg
doubt_left = add (add Tuning.medium (neg small)) (neg small)

-- The event that would take the remaining doubt away.
abbrev gap_event : EventInsert json
unfolding add small neg plan_for Tuning.medium
gap_event = record {
  run_id = "run-1";
  seq = pos 1;
  ts = 0;
  scope = global;
  name = doubt;
  old_value = doubt_left;
  new_value = (plan_for doubt (neg small) doubt_left calm).new_value;
  source = "outcome";
  reason = "worked";
  evidence_json = Json.j_null;
  caps_applied = [];
  disabled = false;
}

plan_gap_refused_example :
    ((plan_for doubt (neg small) doubt_left calm).caps_applied ≡ [])
    × (validate gap_event ≡ err (value_out_of_range (add doubt_left (neg small))))
unfolding is_friction plan_for add small Tuning.medium neg epsilon one
plan_gap_refused_example =
    plan_gap_refused doubt (neg small) doubt_left calm gap_event refl
      (inl (omega arith, omega arith)) refl refl refl

-- Much doubt and some shame.
abbrev troubled : Snapshot
troubled = record { doubt = Tuning.medium; shame = small }

plan_for-NearRange_example : NearRange (plan_for shame Tuning.high one troubled).new_value
plan_for-NearRange_example = plan_for-NearRange shame Tuning.high one troubled

troubled-IsInhibiting : IsInhibiting troubled
unfolding Tuning.medium small
troubled-IsInhibiting = record { doubt = omega arith; shame = omega arith }

friction_restrained_example :
    (plan_for friction Tuning.high one troubled).new_value ≤ℤ friction_bound troubled
unfolding Tuning.high
friction_restrained_example =
    friction_restrained Tuning.high one troubled troubled-IsInhibiting refl

outcome-IsUnrestrained_example :
    IsUnrestrained
      (plan_for friction
        (weight_delta (base_of (base_deltas harmful) friction) high)
        one
        troubled).caps_applied
    × (plan_for friction (weight_delta (base_of (base_deltas harmful) friction) high) one troubled
        ≡ plan_for friction (weight_delta (base_of (base_deltas harmful) friction) high) one calm)
outcome-IsUnrestrained_example = outcome-IsUnrestrained harmful high friction one troubled calm

table_weights_example : All IsWeighed (base_deltas contradicted)
table_weights_example = table_weights contradicted

dispatch_outcome-Emitted_example :
    Emitted
      (λ e. e.name)
      (λ e. e.seq)
      (IsPlanned outcome_input)
      6
      (affected contradicted)
      (dispatch_outcome outcome_input (record { inner = pos 6 }))
unfolding affected outcome_base_deltas
dispatch_outcome-Emitted_example = dispatch_outcome-Emitted outcome_input 6 (omega arith)

abbrev revision : RevisionInput json
revision = record {
  base = outcome_input;
  prior_classification = worked;
  prior_actuals = at_rest;
  revises = "att_evt_run-1_001";
}

dispatch_revision-Emitted_example :
    Emitted
      (λ e. e.name)
      (λ e. e.seq)
      (IsRevised revision)
      6
      (union_affected worked contradicted)
      (dispatch_revision revision (record { inner = pos 6 }))
unfolding union_affected outcome_base_deltas
dispatch_revision-Emitted_example = dispatch_revision-Emitted revision 6 (omega arith)

abbrev action : HippocampusInput json
action = record {
  run_id = "run-1";
  ts = 0;
  reason = overwritten;
  tool_name = "write";
  filename = "notes.md";
  enabled = true;
  snapshot = calm;
  projection = at_rest;
}

dispatch_hippocampus-Emitted_example :
    Emitted
      (λ e. e.name)
      (λ e. e.seq)
      (IsAction action)
      0
      (nonzero_names (zip attr_order (hippocampus_base_deltas overwritten)))
      (dispatch_hippocampus action (record { inner = pos 0 }))
unfolding nonzero_names hippocampus_base_deltas
dispatch_hippocampus-Emitted_example = dispatch_hippocampus-Emitted action 0 (omega arith)

abbrev signal : SensorInput json
unfolding small
signal = record {
  run_id = "run-1";
  ts = 0;
  reason = segment_backlog;
  sensor_type = "segments";
  metric_value = small;
  metric_unit = "count";
  enabled = true;
  snapshot = calm;
  projection = at_rest;
}

dispatch_sensor-Emitted_example :
    Emitted
      (λ e. e.name)
      (λ e. e.seq)
      (IsSignal signal)
      0
      (nonzero_names (zip attr_order (sensor_base_deltas segment_backlog)))
      (dispatch_sensor signal (record { inner = pos 0 }))
unfolding nonzero_names sensor_base_deltas
dispatch_sensor-Emitted_example = dispatch_sensor-Emitted signal 0 (omega arith)

abbrev tick : MaintenanceInput json
unfolding small
tick = record {
  run_id = "decay-2026-01-02";
  ts = 1;
  reason = idle_decay;
  target = doubt;
  days_since_last = pos 1;
  enabled = true;
  snapshot = calm;
  projection = λ name. some small;
}

dispatch_maintenance_valid_example :
    (ev : EventInsert json) × (dispatch_maintenance tick (record { inner = pos 4 })
      ≡ some (ev ∷ [], record { inner = pos 5 }))
    × (ev.seq ≡ pos 5)
    × (ev.name ≡ doubt)
    × (ev.old_value ≡ small)
    × (ev.new_value ≤ℤ small)
    × (validate ev ≡ ok tt)
unfolding small one round round_magnitude
dispatch_maintenance_valid_example =
    dispatch_maintenance_valid tick 4 small refl refl refl (omega arith)
