-- ===== src/Decay.antt =====
-- src/decay.rs: the rows that are due, and the values that a tick reads.
pub mod Tick
pub mod Resume
pub mod Views
pub mod Disabled
pub mod Returns
pub mod Stamps
pub mod Stamping
pub mod Rows
pub mod Covers
pub mod Settled
use satan_attrd.Prelude.{
  ℕ, ◌*◌, ◌/◌, String, Bool, true, not, ◌&&◌, Option, none, some, List, [], ◌∷◌, length, map,
  str_eq, str_append, unwrap_or, if◌then◌else◌,
}
use satan_attrd.Prelude.Int.{ℤ, pos, negsuc, neg_ℕ, leb_ℤ, ltb_ℤ}
use satan_attrd.F64.{F64, nought}
use satan_attrd.Error.{Error, Result, ok, err, sqlx, SqlxError, decay_seq_collision}
use satan_attrd.Extern.{Extern}
use satan_attrd.Types.Attribute
use satan_attrd.Types.Attribute.{AttributeName, shame, doubt, brooding, metamorphosis}
use satan_attrd.Types.Maintenance.{idle_decay}
use satan_attrd.Store.Counter
use satan_attrd.Store.Counter.{Counter}
use satan_attrd.Store.Event.{EventInsert}
use satan_attrd.Store.Database.{
  AttributeRow, Database, World, Db, pure, lift, raise, ◌>>=◌, ◌>>◌, statement,
}
use satan_attrd.Store.Operations.{select, any, insert_event, bump_last_decay_at, max_seq_for_run}
use satan_attrd.Store.Settings.{get_setting_bool}
use satan_attrd.Rpc.{enqueue_audit_event}
use satan_attrd.Dispatcher.Input.{Projection, MaintenanceInput}
use satan_attrd.Dispatcher.Plan.{Snapshot}
use satan_attrd.Dispatcher.Tables.{value_at}
use satan_attrd.Dispatcher.Maintenance.{dispatch_maintenance}
use satan_attrd.Dispatcher.Prior.{insert, empty_projection}
use satan_attrd.Dispatcher.Emit.{Panics}
use satan_attrd.RunLoop.Audit.{build_audit_payload}
use satan_attrd.RunLoop.Write.{project}

-- The two constraints that a repeated number trips.
unfoldable pub is_run_seq_collision : Error → Bool
is_run_seq_collision (sqlx (SqlxError.database (some constraint))) =
    if str_eq constraint "satan_attribute_events_pkey"
    then true
    else str_eq constraint "satan_attribute_events_run_id_seq_key"
is_run_seq_collision _ = Bool.false

abbrev pub decay_targets : List AttributeName
decay_targets = shame ∷ doubt ∷ brooding ∷ metamorphosis ∷ []

-- `run_id`, from the text of the day.
abbrev pub maintenance_run_id : String → String
maintenance_run_id day = str_append "maintenance:" day

abbrev day_nanoseconds : ℕ
day_nanoseconds = 24 * 3600 * 1000000000

abbrev pub decay_threshold : ℤ
decay_threshold = pos day_nanoseconds

-- `num_days`, which rounds to zero.
unfoldable pub num_days : ℤ → ℤ
num_days (pos n) = pos (n / day_nanoseconds)
num_days (negsuc n) = neg_ℕ (ℕ.suc n / day_nanoseconds)

pub record DueRow (X : Extern) : Type 0 where
  pub name : AttributeName
  pub value : F64
  pub last_decay_at : Option X.DateTime
  pub days_since_last : Option ℤ

-- The day is its text; `NaiveDate::MIN`, the day before the first tick, is none.
pub record DayCounterState : Type 0 where
  pub day : Option String
  pub counter : Counter

-- `name = ANY($2)`
abbrev is_target : String → Bool
is_target name = any (λ n. str_eq name (Attribute.as_str n)) decay_targets

-- A row whose last decay is unknown, or at least 24 hours back.
abbrev due_now : (X : Extern) → X.DateTime → Option X.DateTime → Bool
due_now X now none = true
due_now X now (some t) = leb_ℤ decay_threshold (X.elapsed now t)

abbrev days_since : (X : Extern) → X.DateTime → Option X.DateTime → Option ℤ
days_since X now none = none
days_since X now (some t) = some (num_days (X.elapsed now t))

module _ {X : Extern} where
  -- The loop of `check_due`; a name that does not parse is passed over.
  unfoldable pub due_rows : X.DateTime → List (AttributeRow X) → List (DueRow X)
  due_rows now [] = []
  due_rows now (r ∷ rows) =
      let rest = due_rows now rows in
      elim (Attribute.from_str r.name) [
        | err e ↦ rest
        | ok name ↦
            if due_now X now r.last_decay_at
            then record {
              name = name;
              value = r.value;
              last_decay_at = r.last_decay_at;
              days_since_last = days_since X now r.last_decay_at;
            }
              ∷ rest
            else rest
      ]

  -- `WHERE scope = $1 AND name = ANY($2)`
  abbrev pub targets : String → Database X → List (AttributeRow X)
  targets scope db = select (λ r. str_eq r.scope scope && is_target r.name) db.attributes

  unfoldable pub check_due : String → X.DateTime → Db X (List (DueRow X))
  check_due scope now = do
    rows ← statement λ db. (ok (targets scope db), db)
    pure (due_rows now rows)

  -- The loop of `read_target_values`.
  unfoldable pub values_of : List (AttributeRow X) → Projection → Projection
  values_of [] out = out
  values_of (r ∷ rows) out = elim (Attribute.from_str r.name) [
    | err e ↦ values_of rows out
    | ok name ↦ values_of rows (insert name r.value out)
  ]

  unfoldable pub read_target_values : String → Db X Projection
  read_target_values scope = do
    rows ← statement λ db. (ok (targets scope db), db)
    pure (values_of rows empty_projection)
