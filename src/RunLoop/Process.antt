-- ===== src/RunLoop/Process.antt =====
-- src/run_loop.rs: the handler of one inbox row.
pub mod Views
pub mod Reads
pub mod Disabled
pub mod Stuck
use satan_attrd.Prelude.{
  String, Bool, true, false, not, ◌&&◌, Option, none, some, List, [], ◌∷◌, map, if◌then◌else◌,
}
use satan_attrd.Prelude.Int.{ℤ, eqb_ℤ}
use satan_attrd.Error.{Error, Result, ok, err, invalid_argument}
use satan_attrd.Extern.{Extern}
use satan_attrd.Store.Event.{EventInsert}
use satan_attrd.Store.Database.{InboxRow, Database, Db, pure, statement}
use satan_attrd.Store.Operations.{select, first, insert_event, upsert_attribute}
use satan_attrd.Rpc.{Checked, accepted, refused, check_schema_major, enqueue_audit_event}
use satan_attrd.Dispatcher.Plan.{Snapshot}
use satan_attrd.Dispatcher.Input.{
  Projection, OutcomeInput, RevisionInput, HippocampusInput, SensorInput,
}
use satan_attrd.Dispatcher.Outcome.{dispatch_outcome, dispatch_revision}
use satan_attrd.Dispatcher.Signal.{dispatch_hippocampus, dispatch_sensor}
use satan_attrd.Dispatcher.Prior.{gather_prior_actuals}
use satan_attrd.RunLoop.Union.{union_affected}
use satan_attrd.RunLoop.Payload.{
  Parsed, accept, reject, OutcomePayload, HippocampusPayload, SensorPayload, InboxPayload,
}
use satan_attrd.RunLoop.Payload
use satan_attrd.RunLoop.Parse.{parse_inbox_payload}
use satan_attrd.RunLoop.Write.{store_events}
use satan_attrd.Steps.{Step, return, fail, ◌>>=◌, ◌>>◌}
use satan_attrd.RunLoop.Loop.{RunLoop, store, with_counter}
use satan_attrd.RunLoop.Read.{read_projection, derive_prior_classification}

module _ {X : Extern} where
  abbrev pub is_unclaimed : ℤ → InboxRow X → Bool
  is_unclaimed id r = eqb_ℤ r.id id && not r.claimed

  -- UPDATE … SET claimed_at … WHERE id = $1 AND claimed_at IS NULL RETURNING payload_json
  unfoldable pub claim : ℤ → Database X → Result (Option X.Value) × Database X
  claim id db = (
    ok (first (map (λ r. r.payload_json) (select (is_unclaimed id) db.outcome_inbox))),
    record db {
      outcome_inbox =
          map (λ r. if is_unclaimed id r then record r { claimed = true } else r) db.outcome_inbox;
    },
  )

  unfoldable pub delete_row : ℤ → Database X → Result (Unit {0}) × Database X
  delete_row id db =
      (ok tt, record db { outcome_inbox = select (λ r. not (eqb_ℤ r.id id)) db.outcome_inbox })

  unfoldable pub delete_outcome_row : ℤ → Db X (Unit {0})
  delete_outcome_row id = statement (delete_row id)

  abbrev pub outcome_input : OutcomePayload X → Snapshot → Projection → OutcomeInput X
  outcome_input p snapshot projection = record {
    run_id = p.run_id;
    ts = p.ts;
    intervention_id = p.intervention_id;
    classification = p.classification;
    confidence = p.confidence;
    cue = p.cue;
    enabled = p.enabled;
    snapshot = snapshot;
    projection = projection;
  }

  -- `build_revision_events`, once the payload is known to point to what it revises.
  unfoldable pub revise :
      OutcomePayload X → String → Snapshot → Projection → Step (RunLoop X) (List (EventInsert X))
  revise p revises snapshot projection = do
    prior_classification ← store (derive_prior_classification p.intervention_id)
    let names = union_affected prior_classification p.classification
    prior_actuals ← store (gather_prior_actuals p.intervention_id names)
    with_counter p.run_id (
        dispatch_revision (record {
          base = outcome_input p snapshot projection;
          prior_classification = prior_classification;
          prior_actuals = prior_actuals;
          revises = revises;
        }))

  abbrev pub revise_known :
      OutcomePayload X
      → Option String
      → Snapshot
      → Projection
      → Step (RunLoop X) (List (EventInsert X))
  revise_known p none snapshot projection = fail (invalid_argument "is_revision but no revises")
  revise_known p (some revises) snapshot projection = revise p revises snapshot projection

  unfoldable pub build_revision_events :
      OutcomePayload X → Snapshot → Projection → Step (RunLoop X) (List (EventInsert X))
  build_revision_events p snapshot projection = revise_known p p.revises snapshot projection

  unfoldable pub build_events :
      InboxPayload X → Snapshot → Projection → Step (RunLoop X) (List (EventInsert X))
  build_events (InboxPayload.outcome p) snapshot projection =
      if p.is_revision
      then build_revision_events p snapshot projection
      else with_counter p.run_id (dispatch_outcome (outcome_input p snapshot projection))
  build_events (InboxPayload.hippocampus p) snapshot projection = with_counter p.run_id (
      dispatch_hippocampus (record {
        run_id = p.run_id;
        ts = p.ts;
        reason = p.reason;
        tool_name = p.tool_name;
        filename = p.filename;
        enabled = p.enabled;
        snapshot = snapshot;
        projection = projection;
      }))
  build_events (InboxPayload.sensor p) snapshot projection = with_counter p.run_id (
      dispatch_sensor (record {
        run_id = p.run_id;
        ts = p.ts;
        reason = p.reason;
        sensor_type = p.sensor_type;
        metric_value = p.metric_value;
        metric_unit = p.metric_unit;
        enabled = p.enabled;
        snapshot = snapshot;
        projection = projection;
      }))

  -- A payload that was parsed.
  unfoldable pub apply : ℤ → InboxPayload X → Step (RunLoop X) (Unit {0})
  apply id payload = do
    (snapshot, projection) ← store read_projection
    events ← build_events payload snapshot projection
    store (store_events events)
    store (delete_outcome_row id)

  -- A payload that is rejected is dropped.
  abbrev pub handle_parsed : ℤ → Parsed (InboxPayload X) → Step (RunLoop X) (Unit {0})
  handle_parsed id (reject r) = store (delete_outcome_row id)
  handle_parsed id (accept payload) = apply id payload

  -- So is one with a version that is refused.
  abbrev pub handle_checked : ℤ → Checked → Parsed (InboxPayload X) → Step (RunLoop X) (Unit {0})
  handle_checked id (refused r) parsed = store (delete_outcome_row id)
  handle_checked id accepted parsed = handle_parsed id parsed

  -- A payload that was claimed.
  unfoldable pub handle : ℤ → X.Value → Step (RunLoop X) (Unit {0})
  handle id payload =
      handle_checked id (check_schema_major X payload) (parse_inbox_payload X payload)

  -- A row that is gone, or claimed already, is passed over.
  abbrev pub handle_claimed : ℤ → Option X.Value → Step (RunLoop X) (Unit {0})
  handle_claimed id none = return tt
  handle_claimed id (some payload) = handle id payload

  unfoldable pub process_outcome_row : ℤ → Step (RunLoop X) (Unit {0})
  process_outcome_row id = do row ← store (statement (claim id)); handle_claimed id row
