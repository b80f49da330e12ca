-- ===== src/Tests/Ends.antt =====
-- The handler of an inbox row from the claim to the end, at concrete inputs.
use satan_attrd.Prelude.{true, false, some, List, [], ◌∷◌, ◌≡◌, refl, inl}
use satan_attrd.Prelude.Int.{pos}
use satan_attrd.F64.{nought, one}
use satan_attrd.Error.{ok}
use satan_attrd.Steps.{Ended, done, failed, panicked}
use satan_attrd.Store.Event.{EventInsert}
use satan_attrd.Store.Database.{Database}
use satan_attrd.Store.Database.Calm.{calm}
use satan_attrd.Dispatcher.Plan.{Snapshot}
use satan_attrd.Dispatcher.Input.{Projection}
use satan_attrd.Dispatcher.Prior.{empty_projection, insert}
use satan_attrd.Types.Attribute.{doubt}
use satan_attrd.Types.Hippocampus.{searched}
use satan_attrd.RunLoop.Payload.{InboxPayload, HippocampusPayload}
use satan_attrd.RunLoop.Lru as Lru
use satan_attrd.RunLoop.Lru.{counter_lru_cap, LruCounterMap}
use satan_attrd.RunLoop.Write.Stored.{IsStorable, stored}
use satan_attrd.RunLoop.Loop.{RunLoop}
use satan_attrd.RunLoop.Process.{build_events, claim, process_outcome_row}
use satan_attrd.Daemon.Ends.{at, without, IsRefused, process_refused, process_accepted}
use satan_attrd.Daemon.Ends.{payload_of}
use satan_attrd.Rpc.{Refusal, accepted, check_schema_major, check_text}
use satan_attrd.RunLoop.Payload.{accept}
use satan_attrd.RunLoop.Parse.{parse_inbox_payload, parse_hippocampus_payload}
use satan_attrd.RunLoop.Read.{read_projection, collect, set_inhibitor}
use satan_attrd.RunLoop.Loop.{with_counter}
use satan_attrd.RunLoop.Lru.{get_or_create, order_for, or_default, position}
use satan_attrd.Store.Database.{statement}
use satan_attrd.Store.Event.{validate}
use satan_attrd.Store.Counter
use satan_attrd.Store.Operations.{select}
use satan_attrd.Types.Hippocampus
use satan_attrd.Types.Attribute
use satan_attrd.Tuning.{tiny, hippocampus_base_deltas}
use satan_attrd.Dispatcher.Signal.{dispatch_hippocampus, hippocampus_event}
use satan_attrd.Dispatcher.Emit.{emit, kept, numbered}
use satan_attrd.Dispatcher.Plan.{plan_for, clamp_range, cap_friction, is_friction}
use satan_attrd.F64.{add, sub, abs, clamp, epsilon}
use satan_attrd.Tests.Fixtures.{find}
use satan_attrd.Tests.Fixtures.{json, Json, j_bool, j_text, j_object, field, empty}
use satan_attrd.Tests.Tables.{tables}

-- A search in memory, with updates enabled.
abbrev search_payload : Json
search_payload = j_object (
    field "schema_version" (j_text "1.0") (
      field "source" (j_text "hippocampus") (
        field "run_id" (j_text "run-1") (
          field "ts" (j_text "2026-01-01T00:00:00Z") (
            field "reason" (j_text "searched") (
              field "tool_name" (j_text "grep")
                (field "filename" (j_text "notes.md") (field "enabled" (j_bool true) empty))))))))

abbrev searching : Database json
searching = record tables {
  events = [];
  outcome_inbox = record { id = pos 7; payload_json = search_payload; claimed = false } ∷ [];
}

abbrev counters : LruCounterMap
counters = Lru.new counter_lru_cap

abbrev parsed : HippocampusPayload json
parsed = record {
  run_id = "run-1";
  ts = 0;
  reason = searched;
  tool_name = "grep";
  filename = "notes.md";
  enabled = true;
}

abbrev snapshot : Snapshot
snapshot = record { doubt = one; shame = nought }

abbrev projection : Projection
projection = insert doubt one empty_projection

abbrev events_of : Ended (List (EventInsert json)) × RunLoop json → List (EventInsert json)
events_of (done evs, s) = evs
events_of (failed e, s) = []
events_of (panicked, s) = []

abbrev dispatched : Ended (List (EventInsert json)) × RunLoop json
dispatched =
    build_events (InboxPayload.hippocampus parsed) snapshot projection
      (at (claim (pos 7) searching).1 counters)

searching-ends : dispatched ≡ (done (events_of dispatched), dispatched.1)
unfolding build_events with_counter dispatch_hippocampus emit get_or_create order_for or_default
    position kept Counter.next hippocampus_base_deltas tiny Lru.lookup Lru.evict
searching-ends = refl

searching-IsStorable : IsStorable (events_of dispatched) searching
unfolding build_events with_counter dispatch_hippocampus emit get_or_create order_for or_default
    position kept Counter.next hippocampus_base_deltas tiny numbered hippocampus_event plan_for add
    validate one Lru.lookup Lru.evict insert clamp_range epsilon abs sub clamp cap_friction
    is_friction
searching-IsStorable = record { valid = (refl, tt); new = (tt, tt); ids = (refl, tt) }

-- A payload with no version.
abbrev bare : Database json
bare = record searching {
  outcome_inbox = record { id = pos 7; payload_json = j_object empty; claimed = false } ∷ [];
}

searching-payload : payload_of (pos 7) searching ≡ some search_payload
unfolding select
searching-payload = refl

search-accepted : check_schema_major json search_payload ≡ accepted
unfolding check_schema_major check_text find
search-accepted = refl

search-parsed : parse_inbox_payload json search_payload ≡ accept (InboxPayload.hippocampus parsed)
unfolding parse_inbox_payload parse_hippocampus_payload Hippocampus.from_str find
search-parsed = refl

searching-read : (read_projection (calm searching)).0 ≡ ok (snapshot, projection)
unfolding read_projection statement select collect set_inhibitor Attribute.from_str
searching-read = refl

bare-payload : payload_of (pos 7) bare ≡ some (j_object empty)
unfolding select
bare-payload = refl

bare-IsRefused : IsRefused json (j_object empty)
unfolding check_schema_major find
bare-IsRefused = inl (Refusal.missing_version, refl)

process_accepted_example : process_outcome_row (pos 7) (at searching counters) ≡ (
  done tt,
  at (stored (events_of dispatched) (without (pos 7) searching)) dispatched.1.counters,
)
process_accepted_example =
    process_accepted (pos 7) searching counters search_payload (InboxPayload.hippocampus parsed)
      snapshot projection (events_of dispatched) dispatched.1 searching-payload search-accepted
      search-parsed searching-read searching-ends searching-IsStorable

process_refused_example :
    process_outcome_row (pos 7) (at bare counters) ≡ (done tt, at (without (pos 7) bare) counters)
process_refused_example =
    process_refused (pos 7) bare counters (j_object empty) bare-payload bare-IsRefused
