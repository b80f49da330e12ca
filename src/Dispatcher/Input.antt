-- ===== src/Dispatcher/Input.antt =====
-- src/dispatcher.rs: the inputs of the dispatchers. The `HashMap` of values is a function, since
-- it is only looked up.
use satan_attrd.Prelude.{String, Bool, Option, List}
use satan_attrd.Prelude.Int.{ℤ}
use satan_attrd.F64.{F64}
use satan_attrd.Extern.{Extern}
use satan_attrd.Types.Attribute.{AttributeName}
use satan_attrd.Types.Outcome.{OutcomeReason}
use satan_attrd.Types.Hippocampus.{HippocampusReason}
use satan_attrd.Types.Sensor.{SensorReason}
use satan_attrd.Types.Maintenance.{MaintenanceReason}
use satan_attrd.Dispatcher.Weight.{Confidence}
use satan_attrd.Dispatcher.Plan.{Snapshot}

abbrev pub Projection : Type 0
Projection = AttributeName → Option F64

pub record CueDimensions : Type 0 where
  pub intervention_kind : Option String
  pub related_motive_id : Option String
  pub cue_handles : List String
  pub related_trace_ids : List String

pub record OutcomeInput (X : Extern) : Type 0 where
  pub run_id : String
  pub ts : X.DateTime
  pub intervention_id : String
  pub classification : OutcomeReason
  pub confidence : Confidence
  pub cue : CueDimensions
  pub enabled : Bool
  pub snapshot : Snapshot
  pub projection : Projection

pub record RevisionInput (X : Extern) : Type 0 where
  pub base : OutcomeInput X
  pub prior_classification : OutcomeReason
  pub prior_actuals : Projection
  pub revises : String

pub record HippocampusInput (X : Extern) : Type 0 where
  pub run_id : String
  pub ts : X.DateTime
  pub reason : HippocampusReason
  pub tool_name : String
  pub filename : String
  pub enabled : Bool
  pub snapshot : Snapshot
  pub projection : Projection

pub record SensorInput (X : Extern) : Type 0 where
  pub run_id : String
  pub ts : X.DateTime
  pub reason : SensorReason
  pub sensor_type : String
  pub metric_value : F64
  pub metric_unit : String
  pub enabled : Bool
  pub snapshot : Snapshot
  pub projection : Projection

pub record MaintenanceInput (X : Extern) : Type 0 where
  pub run_id : String
  pub ts : X.DateTime
  pub reason : MaintenanceReason
  pub target : AttributeName
  pub days_since_last : ℤ
  pub enabled : Bool
  pub snapshot : Snapshot
  pub projection : Projection
