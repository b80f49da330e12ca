-- ===== src/Dispatcher/Signal/Events.antt =====
-- The events of `dispatch_hippocampus` and `dispatch_sensor`.
use satan_attrd.Prelude.{ℕ, ◌+◌, not, ◌≡◌, refl, [], ◌∷◌, All-map, length}
use satan_attrd.Prelude.Int.{ℤ, pos, ◌≤ℤ◌}
use satan_attrd.F64.{F64}
use satan_attrd.Extern.{Extern}
use satan_attrd.Types.Attribute.{AttributeName}
use satan_attrd.Types.Hippocampus
use satan_attrd.Types.Sensor
use satan_attrd.Tuning.{attr_order, hippocampus_base_deltas, sensor_base_deltas}
use satan_attrd.Store.Counter
use satan_attrd.Store.Counter.{Counter}
use satan_attrd.Store.Event.{EventInsert}
use satan_attrd.Dispatcher.Plan.{plan_for}
use satan_attrd.Dispatcher.Evidence.{HasPlan}
use satan_attrd.Dispatcher.Input.{HippocampusInput, SensorInput}
use satan_attrd.Dispatcher.Tables.{
  zip, nonzero_names, value_at, zero_base, base_of, InColumn, hippocampus_columns, sensor_columns,
}
use satan_attrd.Dispatcher.Emit.Laws.{Emitted, emit-Emitted}
use satan_attrd.Dispatcher.Signal.{
  hippocampus_event, dispatch_hippocampus, sensor_event, dispatch_sensor,
}
use satan_attrd.Dispatcher.Outcome.Events.{names-kept}

-- The event carries the input and has the plan of the table entry of its name, which no
-- confidence weighs, from the value and the snapshot before.
pub record IsAction {X : Extern} (input : HippocampusInput X) (ev : EventInsert X) : Type 0 where
  pub run_id : ev.run_id ≡ input.run_id
  pub ts : ev.ts ≡ input.ts
  pub source : ev.source ≡ "hippocampus"
  pub reason : ev.reason ≡ Hippocampus.as_str input.reason
  pub disabled : ev.disabled ≡ not input.enabled
  pub evidence :
      ev.evidence_json
      ≡ X.object (("tool_name", X.text input.tool_name) ∷ ("filename", X.text input.filename) ∷ [])
  pub planned : HasPlan ev (
      plan_for ev.name
        (base_of (hippocampus_base_deltas input.reason) ev.name)
        (value_at input.projection ev.name)
        input.snapshot)

module _ {X : Extern} (input : HippocampusInput X) where
  hippocampus_event-IsAction :
      (x : AttributeName × F64)
      → InColumn (hippocampus_base_deltas input.reason) x
      → (s : ℤ) → IsAction input (hippocampus_event input x s)
  unfolding hippocampus_event plan_for
  hippocampus_event-IsAction (name, base) column s = record {
    run_id = refl;
    ts = refl;
    source = refl;
    reason = refl;
    disabled = refl;
    evidence = refl;
    planned = rw (← column) (record { old_value = refl; new_value = refl; caps_applied = refl });
  }

  -- With room in the counter, the dispatch of a hippocampus action does not panic. It returns
  -- exactly one event for each attribute whose base is not zero, in table order and numbered from
  -- the next number on, each with the plan of its unweighted base.
  pub dispatch_hippocampus-Emitted :
      (n : ℕ)
      → pos (n + length (nonzero_names (zip attr_order (hippocampus_base_deltas input.reason))))
        ≤ℤ Counter.i32_max
      → Emitted
          (λ e. e.name)
          (λ e. e.seq)
          (IsAction input)
          n
          (nonzero_names (zip attr_order (hippocampus_base_deltas input.reason)))
          (dispatch_hippocampus input (record { inner = pos n }))
  unfolding dispatch_hippocampus hippocampus_event
  dispatch_hippocampus-Emitted n room =
      let row = zip attr_order (hippocampus_base_deltas input.reason) in
      rw (← names-kept row) (
        emit-Emitted zero_base (hippocampus_event input) (λ e. e.name) (λ e. e.seq) (λ x. x.0)
          (IsAction input) n row (λ x s. refl) (λ x s. refl)
          (All-map (InColumn (hippocampus_base_deltas input.reason))
            (λ x. (s : ℤ) → IsAction input (hippocampus_event input x s)) hippocampus_event-IsAction
            row (hippocampus_columns input.reason))
          (rw names-kept room))

-- The event carries the input and has the plan of the table entry of its name, which no
-- confidence weighs, from the value and the snapshot before.
pub record IsSignal {X : Extern} (input : SensorInput X) (ev : EventInsert X) : Type 0 where
  pub run_id : ev.run_id ≡ input.run_id
  pub ts : ev.ts ≡ input.ts
  pub source : ev.source ≡ "sensor"
  pub reason : ev.reason ≡ Sensor.as_str input.reason
  pub disabled : ev.disabled ≡ not input.enabled
  pub evidence :
      ev.evidence_json
      ≡ X.object (
          ("sensor_type", X.text input.sensor_type)
          ∷ ("metric_value", X.number input.metric_value)
          ∷ ("metric_unit", X.text input.metric_unit)
          ∷ [])
  pub planned : HasPlan ev (
      plan_for ev.name
        (base_of (sensor_base_deltas input.reason) ev.name)
        (value_at input.projection ev.name)
        input.snapshot)

module _ {X : Extern} (input : SensorInput X) where
  sensor_event-IsSignal :
      (x : AttributeName × F64)
      → InColumn (sensor_base_deltas input.reason) x
      → (s : ℤ) → IsSignal input (sensor_event input x s)
  unfolding sensor_event plan_for
  sensor_event-IsSignal (name, base) column s = record {
    run_id = refl;
    ts = refl;
    source = refl;
    reason = refl;
    disabled = refl;
    evidence = refl;
    planned = rw (← column) (record { old_value = refl; new_value = refl; caps_applied = refl });
  }

  -- With room in the counter, the dispatch of a sensor signal does not panic. It returns
  -- exactly one event for each attribute whose base is not zero, in table order and numbered from
  -- the next number on, each with the plan of its unweighted base.
  pub dispatch_sensor-Emitted :
      (n : ℕ)
      → pos (n + length (nonzero_names (zip attr_order (sensor_base_deltas input.reason))))
        ≤ℤ Counter.i32_max
      → Emitted
          (λ e. e.name)
          (λ e. e.seq)
          (IsSignal input)
          n
          (nonzero_names (zip attr_order (sensor_base_deltas input.reason)))
          (dispatch_sensor input (record { inner = pos n }))
  unfolding dispatch_sensor sensor_event
  dispatch_sensor-Emitted n room =
      let row = zip attr_order (sensor_base_deltas input.reason) in
      rw (← names-kept row) (
        emit-Emitted zero_base (sensor_event input) (λ e. e.name) (λ e. e.seq) (λ x. x.0)
          (IsSignal input) n row (λ x s. refl) (λ x s. refl)
          (All-map (InColumn (sensor_base_deltas input.reason))
            (λ x. (s : ℤ) → IsSignal input (sensor_event input x s)) sensor_event-IsSignal row
            (sensor_columns input.reason))
          (rw names-kept room))
