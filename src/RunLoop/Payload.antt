-- ===== src/RunLoop/Payload.antt =====
-- src/run_loop.rs: the payloads of the broker and their parsers. A rejected payload is logged and
-- dropped; the reason is a value here, and its text is not kept.
use satan_attrd.Prelude.{String, Bool, true, false, Option, none, some, List, [], ◌∷◌}
use satan_attrd.F64.{F64}
use satan_attrd.Error.{Error, Result, ok, err}
use satan_attrd.Extern.{Extern}
use satan_attrd.Types.Outcome.{OutcomeReason}
use satan_attrd.Types.Hippocampus.{HippocampusReason}
use satan_attrd.Types.Sensor.{SensorReason}
use satan_attrd.Dispatcher.Weight.{Confidence}
use satan_attrd.Dispatcher.Input.{CueDimensions}

pub data Rejection : Type 0 where
  unknown_source : String → Rejection
  not_object : Rejection
  missing_string : String → Rejection
  bad_ts : String → Rejection
  bad_classification bad_confidence bad_reason : Error → Rejection
  missing_evidence evidence_not_object : Rejection
  missing_bool : String → Rejection
  missing_number : String → Rejection
  revision_without_revises : Rejection

-- `std::result::Result<A, String>`
pub data Parsed (A : Type 0) : Type 0 where
  accept : A → Parsed A
  reject : Rejection → Parsed A

infixl 5 ◌>>=◌ ◌>>◌
abbrev pub ◌>>=◌ : {A B : Type 0} → Parsed A → (A → Parsed B) → Parsed B
accept a >>= f = f a
reject r >>= f = reject r

abbrev pub ◌>>◌ : {B : Type 0} → Parsed (Unit {0}) → Parsed B → Parsed B
m >> k = m >>= λ _. k

-- `ok_or_else`
abbrev pub ok_or : {A : Type 0} → Option A → Rejection → Parsed A
ok_or none r = reject r
ok_or (some a) r = accept a

-- `map_err`
abbrev pub map_err : {A : Type 0} → Result A → (Error → Rejection) → Parsed A
map_err (ok a) f = accept a
map_err (err e) f = reject (f e)

-- `Option::and_then`
abbrev pub and_then : {A B : Type 0} → Option A → (A → Option B) → Option B
and_then none f = none
and_then (some a) f = f a

abbrev pub is_none : {A : Type 0} → Option A → Bool
is_none none = true
is_none (some a) = false

abbrev pub guard : Bool → Rejection → Parsed (Unit {0})
guard true r = accept tt
guard false r = reject r

-- `filter_map`
abbrev pub filter_map : {A B : Type 0} → (A → Option B) → List A → List B
filter_map f [] = []
filter_map f (x ∷ xs) = let rest = filter_map f xs in elim (f x) [ none ↦ rest | some y ↦ y ∷ rest ]

pub record OutcomePayload (X : Extern) : Type 0 where
  pub run_id : String
  pub ts : X.DateTime
  pub intervention_id : String
  pub classification : OutcomeReason
  pub confidence : Confidence
  pub cue : CueDimensions
  pub is_revision : Bool
  pub revises : Option String
  pub enabled : Bool

pub record HippocampusPayload (X : Extern) : Type 0 where
  pub run_id : String
  pub ts : X.DateTime
  pub reason : HippocampusReason
  pub tool_name : String
  pub filename : String
  pub enabled : Bool

pub record SensorPayload (X : Extern) : Type 0 where
  pub run_id : String
  pub ts : X.DateTime
  pub reason : SensorReason
  pub sensor_type : String
  pub metric_value : F64
  pub metric_unit : String
  pub enabled : Bool

pub data InboxPayload (X : Extern) : Type 0 where
  outcome : OutcomePayload X → InboxPayload X
  hippocampus : HippocampusPayload X → InboxPayload X
  sensor : SensorPayload X → InboxPayload X
