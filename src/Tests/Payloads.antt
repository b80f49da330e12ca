-- ===== src/Tests/Payloads.antt =====
-- Payloads at concrete inputs, and that the test's JSON type is one.
use satan_attrd.Prelude.{String, true, false, ◌≡◌, refl, some, [], ◌∷◌, arith, eq_iff}
use satan_attrd.Prelude.Int.{pos}
use satan_attrd.F64.{nought}
use satan_attrd.Types.Attribute.{doubt}
use satan_attrd.Types.Scopes.{global}
use satan_attrd.Store.Event.{EventInsert}
use satan_attrd.Rpc.{accepted, check_schema_major}
use satan_attrd.Rpc.Version.{IsJson}
use satan_attrd.RunLoop.Audit.{build_audit_payload}
use satan_attrd.RunLoop.Audit.Version.{build_audit_payload-accepted}
use satan_attrd.RunLoop.Parse.{parse_outcome_payload}
use satan_attrd.RunLoop.Parse.Fields.{Accepts, IsReadOf, parse_outcome_payload-IsReadOf}
use satan_attrd.Tests.Fixtures.{
  json, Json, Fields, j_null, j_bool, j_int, j_number, j_array, j_text, j_object, field, empty,
  find, insert,
}

find-insert : (k : String) (x : Json) (fs : Fields) → find (insert k x fs) k ≡ some x
unfolding find insert
find-insert k x empty = ground (arith, eq_iff k k)
find-insert k x (field j y fs) = ground (arith, find-insert k x fs, eq_iff j k, eq_iff k k)

get_set :
    (k : String) (x v : Json) → json.is_object v ≡ true → json.get (json.set_field k x v) k ≡ some x
get_set k x j_null h = ground arith
get_set k x (j_bool b) h = ground arith
get_set k x (j_int n) h = ground arith
get_set k x (j_number y) h = ground arith
get_set k x (j_text t) h = ground arith
get_set k x (j_array l) h = ground arith
get_set k x (j_object fs) h = find-insert k x fs

json-IsJson : IsJson json
json-IsJson = record { get_set = get_set; as_str_text = λ s. refl; object_is = λ l. refl }

-- A kind that is null, and a list of handles that are not all texts.
abbrev evidence : Json
evidence = j_object (
    field "intervention_kind" j_null (
      field "related_motive_id" (j_text "motive-1")
        (field "cue_handles" (json.array (j_text "a" ∷ j_bool true ∷ j_text "b" ∷ [])) empty)))

-- A revision of an outcome.
abbrev revision : Json
revision = j_object (
    field "schema_version" (j_text "1.7") (
      field "run_id" (j_text "run-1") (
        field "ts" (j_text "2026-01-02T00:00:00Z") (
          field "intervention_id" (j_text "int-1") (
            field "classification" (j_text "worked") (
              field "confidence" (j_text "high") (
                field "evidence" evidence (
                  field "is_revision" (j_bool true) (
                    field "revises" (j_text "run-0.attr001")
                      (field "enabled" (j_bool true) empty))))))))))

parse_outcome_payload-IsReadOf_example :
    Accepts (IsReadOf json revision) (parse_outcome_payload json revision)
parse_outcome_payload-IsReadOf_example = parse_outcome_payload-IsReadOf json revision

abbrev event : EventInsert json
event = record {
  run_id = "run-1";
  seq = pos 1;
  ts = 0;
  scope = global;
  name = doubt;
  old_value = nought;
  new_value = nought;
  source = "outcome";
  reason = "worked";
  evidence_json = j_null;
  caps_applied = [];
  disabled = false;
}

build_audit_payload-accepted_example :
    check_schema_major json (build_audit_payload event) ≡ accepted
build_audit_payload-accepted_example = build_audit_payload-accepted json json-IsJson event
