-- ===== src/RunLoop/Parse.antt =====
-- src/run_loop.rs: the parsers.
pub mod Cue
pub mod Fields
use satan_attrd.Prelude.{
  String, Bool, not, ◌&&◌, Option, none, some, List, [], str_eq, unwrap_or, if◌then◌else◌,
}
use satan_attrd.Extern.{Extern}
use satan_attrd.Types.Outcome
use satan_attrd.Types.Hippocampus
use satan_attrd.Types.Sensor
use satan_attrd.Dispatcher.Weight
use satan_attrd.Dispatcher.Input.{CueDimensions}
use satan_attrd.RunLoop.Payload.{
  unknown_source, not_object, missing_string, bad_ts, bad_classification, bad_confidence,
  bad_reason, missing_evidence, evidence_not_object, missing_bool, missing_number,
  revision_without_revises, Parsed, accept, reject, ◌>>=◌, ◌>>◌, ok_or, map_err, and_then, is_none,
  guard, filter_map, OutcomePayload, HippocampusPayload, SensorPayload, InboxPayload,
}

module _ (X : Extern) where
  -- The closure `get_str`.
  abbrev pub get_str : X.Value → String → Parsed String
  get_str v key = ok_or (and_then (X.get v key) X.as_str) (missing_string key)

  abbrev pub get_bool : X.Value → String → Parsed Bool
  get_bool v key = ok_or (and_then (X.get v key) X.as_bool) (missing_bool key)

  abbrev pub get_ts : X.Value → Parsed X.DateTime
  get_ts v = do text ← get_str v "ts"; ok_or (X.parse_ts text) (bad_ts text)

  -- A string, where null, an absent field and any other value are none.
  abbrev pub text_unless_null : X.Value → String → Option String
  text_unless_null v key = and_then (X.get v key) (λ x. if X.is_null x then none else X.as_str x)

  -- The strings of an array, or none of them where the field is no array.
  abbrev pub text_array : X.Value → String → List String
  text_array v key = elim (and_then (X.get v key) X.as_array) [
    | none ↦ []
    | some l ↦ filter_map X.as_str l
  ]

  unfoldable pub parse_cue : X.Value → Parsed CueDimensions
  parse_cue evidence = do
    guard (X.is_object evidence) evidence_not_object
    accept (record {
      intervention_kind = text_unless_null evidence "intervention_kind";
      related_motive_id = text_unless_null evidence "related_motive_id";
      cue_handles = text_array evidence "cue_handles";
      related_trace_ids = text_array evidence "related_trace_ids";
    })

  unfoldable pub parse_outcome_payload : X.Value → Parsed (OutcomePayload X)
  parse_outcome_payload v = do
    guard (X.is_object v) not_object
    run_id ← get_str v "run_id"
    ts ← get_ts v
    intervention_id ← get_str v "intervention_id"
    classification_str ← get_str v "classification"
    classification ← map_err (Outcome.from_str classification_str) bad_classification
    confidence_str ← get_str v "confidence"
    confidence ← map_err (Weight.parse confidence_str) bad_confidence
    evidence ← ok_or (X.get v "evidence") missing_evidence
    cue ← parse_cue evidence
    is_revision ← get_bool v "is_revision"
    let revises = text_unless_null v "revises"
    enabled ← get_bool v "enabled"
    guard (not (is_revision && is_none revises)) revision_without_revises
    accept (record {
      run_id = run_id;
      ts = ts;
      intervention_id = intervention_id;
      classification = classification;
      confidence = confidence;
      cue = cue;
      is_revision = is_revision;
      revises = revises;
      enabled = enabled;
    })

  unfoldable pub parse_hippocampus_payload : X.Value → Parsed (HippocampusPayload X)
  parse_hippocampus_payload v = do
    guard (X.is_object v) not_object
    run_id ← get_str v "run_id"
    ts ← get_ts v
    reason_str ← get_str v "reason"
    reason ← map_err (Hippocampus.from_str reason_str) bad_reason
    tool_name ← get_str v "tool_name"
    filename ← get_str v "filename"
    enabled ← get_bool v "enabled"
    accept (record {
      run_id = run_id;
      ts = ts;
      reason = reason;
      tool_name = tool_name;
      filename = filename;
      enabled = enabled;
    })

  unfoldable pub parse_sensor_payload : X.Value → Parsed (SensorPayload X)
  parse_sensor_payload v = do
    guard (X.is_object v) not_object
    run_id ← get_str v "run_id"
    ts ← get_ts v
    reason_str ← get_str v "reason"
    reason ← map_err (Sensor.from_str reason_str) bad_reason
    sensor_type ← get_str v "sensor_type"
    metric_value ←
        ok_or (and_then (X.get v "metric_value") X.as_f64) (missing_number "metric_value")
    metric_unit ← get_str v "metric_unit"
    enabled ← get_bool v "enabled"
    accept (record {
      run_id = run_id;
      ts = ts;
      reason = reason;
      sensor_type = sensor_type;
      metric_value = metric_value;
      metric_unit = metric_unit;
      enabled = enabled;
    })

  -- A payload with no source, or with a source that is no string, is an outcome.
  unfoldable pub parse_inbox_payload : X.Value → Parsed (InboxPayload X)
  parse_inbox_payload v =
      let source = unwrap_or (and_then (X.get v "source") X.as_str) "outcome" in
      if str_eq source "outcome"
      then (do p ← parse_outcome_payload v; accept (InboxPayload.outcome p))
      else if str_eq source "hippocampus"
      then (do p ← parse_hippocampus_payload v; accept (InboxPayload.hippocampus p))
      else if str_eq source "sensor"
      then (do p ← parse_sensor_payload v; accept (InboxPayload.sensor p))
      else reject (unknown_source source)
