-- ===== src/Tests/Tables.antt =====
-- The tables, the handler and the decay tick at concrete inputs.
use satan_attrd.Prelude.{Bool, true, false, some, [], ◌∷◌, All, length, ◌≡◌, ap, sym, ◌∙◌, refl}
use satan_attrd.Prelude.Int.{ℤ, pos}
use satan_attrd.F64.{F64, nought, one}
use satan_attrd.Error.{ok}
use satan_attrd.Steps.Keeps.{KeptUnlessDone, ReturnsIn}
use satan_attrd.Store.Database.{AttributeRow, EventRow, Database, World}
use satan_attrd.Store.Database.Calm.{calm}
use satan_attrd.Store.Operations.{select, order_by, insert_ordered}
use satan_attrd.Store.Operations.Values.{AllInRange}
use satan_attrd.Store.Settings.{setting, bool_setting}
use satan_attrd.Store.Rebuild.{rebuild_projection, replayed}
use satan_attrd.Store.Rebuild.Content.{content_at}
use satan_attrd.Store.Rebuild.Laws.{IsStorable, rebuilt, last_event, rebuild_lookup}
use satan_attrd.RunLoop.Payload.{Parsed, accept, reject, InboxPayload}
use satan_attrd.RunLoop.Parse.{parse_inbox_payload, parse_hippocampus_payload}
use satan_attrd.Types.Hippocampus
use satan_attrd.RunLoop.Loop
use satan_attrd.RunLoop.Loop.{RunLoop}
use satan_attrd.RunLoop.Process.{handle, process_outcome_row}
use satan_attrd.RunLoop.Process.Views.{seen}
use satan_attrd.RunLoop.Process.Disabled.{enabled_of, handle_disabled}
use satan_attrd.RunLoop.Process.Stuck.{ids_of, process_unfinished}
use satan_attrd.Decay.{maintenance_run_id}
use satan_attrd.Decay.Tick
use satan_attrd.Decay.Tick.{DecayScheduler, acquire_day_counter, tick}
use satan_attrd.Decay.Resume.{IsPast, acquire_day_counter-IsPast}
use satan_attrd.Decay.Disabled.{IsOff, tick_disabled}
use satan_attrd.Tests.Fixtures.{find, json, Json, j_null, j_bool, j_text, j_object, field, empty}

abbrev pub doubt_row : AttributeRow json
doubt_row = record {
  scope = "global";
  name = "doubt";
  value = one;
  updated_at = 0;
  evidence_json = j_null;
  last_decay_at = some 0;
}

abbrev pub logged : ℤ → F64 → Bool → EventRow json
logged seq v disabled = record {
  id = "e";
  ts = 0;
  run_id = "maintenance:2026-01-02";
  seq = seq;
  scope = "global";
  name = "doubt";
  old_value = nought;
  new_value = v;
  delta = v;
  source = "maintenance";
  reason = "idle_decay";
  evidence_json = j_null;
  caps_applied = j_null;
  disabled = disabled;
}

-- A hippocampus action with updates disabled.
abbrev pub quiet : Json
quiet = j_object (
    field "schema_version" (j_text "1.0") (
      field "source" (j_text "hippocampus") (
        field "run_id" (j_text "run-1") (
          field "ts" (j_text "2026-01-01T00:00:00Z") (
            field "reason" (j_text "deleted") (
              field "tool_name" (j_text "rm")
                (field "filename" (j_text "notes.md") (field "enabled" (j_bool false) empty))))))))

abbrev pub tables : Database json
tables = record {
  attributes = doubt_row ∷ [];
  events = logged (pos 2) one true ∷ logged (pos 1) nought false ∷ [];
  settings = ("attribute_updates_enabled", j_bool false) ∷ [];
  outcome_inbox = record { id = pos 1; payload_json = quiet; claimed = false } ∷ [];
  audit_inbox = [];
  audit_replies = [];
  notifications = [];
  next_audit_id = pos 1;
  now = 1;
}

tables-IsStorable : All IsStorable (replayed false tables)
unfolding replayed select order_by insert_ordered one
tables-IsStorable = (refl, tt)

rebuild_lookup_example :
    ((rebuild_projection false (calm tables)).0 ≡ ok (length (replayed false tables)))
    × (content_at "global" "doubt" (rebuild_projection false (calm tables)).1.db.attributes
        ≡ rebuilt 1
            (last_event "global" "doubt" (replayed false tables))
            (content_at "global" "doubt" tables.attributes))
rebuild_lookup_example = rebuild_lookup false tables "global" "doubt" tables-IsStorable

pub tables-AllInRange : AllInRange tables
unfolding one
tables-AllInRange = (refl, tt)

-- The third statement of a rebuild fails.
abbrev pub shaky : World json
shaky = record { db = tables; faults = false ∷ false ∷ true ∷ [] }

abbrev flag : Parsed (InboxPayload json) → Bool
flag (accept p) = enabled_of p
flag (reject r) = false

quiet-flag : flag (parse_inbox_payload json quiet) ≡ false
unfolding parse_inbox_payload parse_hippocampus_payload Hippocampus.from_str find
quiet-flag = refl

quiet_disabled :
    (p : InboxPayload json) → parse_inbox_payload json quiet ≡ accept p → enabled_of p ≡ false
quiet_disabled p h = sym (ap flag h) ∙ quiet-flag

handle_disabled_example :
    (handle (pos 1) quiet (Loop.new (calm tables))).1.world.db.attributes ≡ tables.attributes
handle_disabled_example = handle_disabled (pos 1) quiet (Loop.new (calm tables)) quiet_disabled

process_unfinished_example :
    KeptUnlessDone (seen ids_of) (Loop.new shaky) (process_outcome_row (pos 1) (Loop.new shaky))
process_unfinished_example = process_unfinished (pos 1) (Loop.new shaky)

acquire_day_counter-IsPast_example :
    ReturnsIn
      (λ _ t.
        IsPast (maintenance_run_id "2026-01-02") t.day_counter_state.counter t.world.db.events)
      (acquire_day_counter "2026-01-02" (Tick.new (calm tables)))
acquire_day_counter-IsPast_example =
    acquire_day_counter-IsPast "2026-01-02" (Tick.new (calm tables)) refl

tables-IsOff : IsOff tables
unfolding bool_setting setting
tables-IsOff = refl

tick_disabled_example :
    (tick "global" 1 1 (Tick.new (calm tables))).1.world.db.attributes ≡ tables.attributes
tick_disabled_example = tick_disabled "global" 1 1 (Tick.new (calm tables)) tables-IsOff
