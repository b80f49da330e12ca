-- ===== src/Tests/Fixtures.antt =====
-- A concrete JSON value type and clock for the tests, and some inputs.
use satan_attrd.Prelude.{
  ℕ, String, Bool, true, false, Option, none, some, List, [], ◌∷◌, str_eq, if◌then◌else◌,
}
use satan_attrd.Prelude.{leb, ◌*◌}
use satan_attrd.Prelude.Int.{◌-ℤ◌, ℤ, pos}
use satan_attrd.F64.{F64, nought}
use satan_attrd.Extern.{Extern}
use satan_attrd.Types.Outcome.{OutcomeReason}
use satan_attrd.Dispatcher.Weight.{Confidence}
use satan_attrd.Dispatcher.Plan.{Snapshot}
use satan_attrd.Dispatcher.Input.{CueDimensions, OutcomeInput, Projection}
use satan_attrd.Tests.Texts.{text_le}

mutual
  pub data Json : Type 0 where
    j_null : Json
    j_bool : Bool → Json
    j_int : ℤ → Json
    j_number : F64 → Json
    j_text : String → Json
    j_array : Jsons → Json
    j_object : Fields → Json

  pub data Jsons : Type 0 where
    end : Jsons
    item : Json → Jsons → Jsons

  pub data Fields : Type 0 where
    empty : Fields
    field : String → Json → Fields → Fields

abbrev to_array : List Json → Jsons
to_array [] = end
to_array (x ∷ xs) = item x (to_array xs)

abbrev of_array : Jsons → List Json
of_array end = []
of_array (item x xs) = x ∷ of_array xs

abbrev to_fields : List (String × Json) → Fields
to_fields [] = empty
to_fields ((k, x) ∷ xs) = field k x (to_fields xs)

unfoldable pub find : Fields → String → Option Json
find empty k = none
find (field j x xs) k = if str_eq j k then some x else find xs k

unfoldable pub insert : String → Json → Fields → Fields
insert k v empty = field k v empty
insert k v (field j x xs) =
    let rest = insert k v xs in if str_eq j k then field k v xs else field j x rest

abbrev set : String → Json → Json → Json
set k v (j_object fs) = j_object (insert k v fs)
set k v x = x

abbrev get_of : Json → String → Option Json
get_of (j_object fs) k = find fs k
get_of _ k = none

abbrev null_of : Json → Bool
null_of j_null = true
null_of _ = false

abbrev object_of : Json → Bool
object_of (j_object fs) = true
object_of _ = false

abbrev str_of : Json → Option String
str_of (j_text s) = some s
str_of _ = none

abbrev bool_of : Json → Option Bool
bool_of (j_bool b) = some b
bool_of _ = none

abbrev number_of : Json → Option F64
number_of (j_number x) = some x
number_of _ = none

abbrev array_of : Json → Option (List Json)
array_of (j_array xs) = some (of_array xs)
array_of _ = none

abbrev show_of : Json → String
show_of _ = "json"

abbrev field_text_of : Json → String → Option String
field_text_of v k = elim (get_of v k) [ none ↦ none | some x ↦ str_of x ]

-- A clock that knows two days.
abbrev parse_day : String → Option ℕ
parse_day s =
    if str_eq s "2026-01-01T00:00:00Z"
    then some 0
    else if str_eq s "2026-01-02T00:00:00Z"
    then some 1
    else none

abbrev nanoseconds : ℕ → ℤ
nanoseconds day = pos (day * 86400000000000)

abbrev day_text : ℕ → String
day_text ℕ.zero = "2026-01-01"
day_text _ = "2026-01-02"

abbrev pub json : Extern
json = record {
  DateTime = ℕ;
  parse_ts = parse_day;
  utc_day = day_text;
  rfc3339 = day_text;
  Value = Json;
  null = j_null;
  boolean = j_bool;
  integer = j_int;
  number = j_number;
  text = j_text;
  array = λ xs. j_array (to_array xs);
  object = λ fs. j_object (to_fields fs);
  set_field = set;
  get = get_of;
  is_null = null_of;
  is_object = object_of;
  as_str = str_of;
  as_bool = bool_of;
  as_f64 = number_of;
  as_array = array_of;
  show = show_of;
  field_text = field_text_of;
  ts_le = leb;
  text_le = text_le;
  elapsed = λ a b. nanoseconds a -ℤ nanoseconds b;
}

-- Every attribute at 0.
abbrev pub at_rest : Projection
at_rest name = some nought

abbrev pub calm : Snapshot
calm = record { doubt = nought; shame = nought }

abbrev pub no_cue : CueDimensions
no_cue = record {
  intervention_kind = none;
  related_motive_id = none;
  cue_handles = [];
  related_trace_ids = [];
}

abbrev pub outcome_input : OutcomeInput json
outcome_input = record {
  run_id = "run-1";
  ts = 0;
  intervention_id = "int-1";
  classification = OutcomeReason.contradicted;
  confidence = Confidence.high;
  cue = no_cue;
  enabled = true;
  snapshot = calm;
  projection = at_rest;
}
