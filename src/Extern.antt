-- ===== src/Extern.antt =====
-- What the program uses of its libraries: `chrono` timestamps and `serde_json` values. They are
-- parameters of every definition that handles them.
use satan_attrd.Prelude.{String, Bool, Option, List}
use satan_attrd.Prelude.Int.{ℤ}
use satan_attrd.F64.{F64}

pub record Extern : Type 1 where
  -- `chrono::DateTime<Utc>`
  pub DateTime : Type 0
  -- `str::parse::<DateTime<Utc>>`; the error's text is not kept
  pub parse_ts : String → Option DateTime
  -- `date_naive().format("%Y-%m-%d")`
  pub utc_day : DateTime → String
  -- `to_rfc3339`
  pub rfc3339 : DateTime → String
  -- `serde_json::Value`, and the literals of `json!`
  pub Value : Type 0
  pub null : Value
  pub boolean : Bool → Value
  pub integer : ℤ → Value
  pub number : F64 → Value
  pub text : String → Value
  pub array : List Value → Value
  pub object : List (String × Value) → Value
  -- `if let Value::Object(map) = v { map.insert(key, x) }`
  pub set_field : String → Value → Value → Value
  -- `Value::get(key)`, `Value::is_object`, and the typed views
  pub get : Value → String → Option Value
  pub is_null : Value → Bool
  pub is_object : Value → Bool
  pub as_str : Value → Option String
  pub as_bool : Value → Option Bool
  pub as_f64 : Value → Option F64
  pub as_array : Value → Option (List Value)
  -- `Display` of a value
  pub show : Value → String
  -- the operator `->>` of PostgreSQL: the text of a field
  pub field_text : Value → String → Option String
  -- the orders of PostgreSQL on TIMESTAMPTZ and, by the collation of the database, on TEXT
  pub ts_le : DateTime → DateTime → Bool
  pub text_le : String → String → Bool
  -- the difference of two times, in nanoseconds
  pub elapsed : DateTime → DateTime → ℤ
