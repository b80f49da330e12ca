-- ===== src/Dispatcher/Outcome.antt =====
-- src/dispatcher.rs: the dispatch of an outcome, and of its revision.
pub mod Events
pub mod Revision
pub mod Caps
use satan_attrd.Prelude.{
  String, Bool, not, ◌&&◌, Option, none, some, List, [], ◌∷◌, map, unwrap_or, if◌then◌else◌,
}
use satan_attrd.Prelude.Int.{ℤ, pos, neg}
use satan_attrd.F64.{F64, add, sub, eq, lt, nought}
use satan_attrd.Extern.{Extern}
use satan_attrd.Types.Attribute.{AttributeName}
use satan_attrd.Types.Scopes.{global}
use satan_attrd.Types.Sources
use satan_attrd.Types.Outcome
use satan_attrd.Types.Outcome.{OutcomeReason}
use satan_attrd.Types.Hippocampus
use satan_attrd.Types.Sensor
use satan_attrd.Types.Maintenance
use satan_attrd.Types.Caps.{Cap, range_clamp}
use satan_attrd.Tuning.{
  attr_order, outcome_base_deltas, hippocampus_base_deltas, sensor_base_deltas,
}
use satan_attrd.Store.Counter
use satan_attrd.Store.Counter.{Counter}
use satan_attrd.Store.Event.{EventInsert}
use satan_attrd.Dispatcher.Weight
use satan_attrd.Dispatcher.Weight.{weight_delta}
use satan_attrd.Dispatcher.Plan.{AttributePlan, plan_for}
use satan_attrd.Dispatcher.Input.{
  Projection, OutcomeInput, RevisionInput, HippocampusInput, SensorInput, MaintenanceInput,
}
use satan_attrd.Dispatcher.Emit.{Panics, emit}
use satan_attrd.Dispatcher.Tables.{base_deltas, zip, value_at, zero_base, zero_bases}
use satan_attrd.Dispatcher.Evidence.{RevisionEvidence, outcome_evidence, event_insert_from_plan}

module _ {X : Extern} where
  -- The body of the loop of `dispatch_outcome`.
  unfoldable pub outcome_event : OutcomeInput X → AttributeName × F64 → ℤ → EventInsert X
  unfolding event_insert_from_plan
  outcome_event input (name, base) seq =
      let weighted = weight_delta base input.confidence in
      let plan = plan_for name weighted (value_at input.projection name) input.snapshot in
      event_insert_from_plan input name plan input.classification (outcome_evidence input none) seq

  unfoldable pub dispatch_outcome : OutcomeInput X → Counter → Panics (List (EventInsert X))
  dispatch_outcome input =
      emit zero_base (outcome_event input) (zip attr_order (base_deltas input.classification))

  -- The body of the loop of `dispatch_revision`.
  unfoldable pub revision_event : RevisionInput X → AttributeName × (F64 × F64) → ℤ → EventInsert X
  unfolding event_insert_from_plan
  revision_event input (name, (new_base, prior_base)) seq =
      let new_theoretical = weight_delta new_base input.base.confidence in
      let prior_actual = value_at input.prior_actuals name in
      let revision_delta = sub new_theoretical prior_actual in
      let plan =
        plan_for name revision_delta (value_at input.base.projection name) input.base.snapshot in
      let evidence =
        outcome_evidence input.base
          (some (record { revises = input.revises; prior_actual = prior_actual })) in
      event_insert_from_plan input.base name plan input.base.classification evidence seq

  unfoldable pub dispatch_revision : RevisionInput X → Counter → Panics (List (EventInsert X))
  dispatch_revision input = emit zero_bases (revision_event input) (
      zip attr_order
        (zip (base_deltas input.base.classification) (base_deltas input.prior_classification)))
