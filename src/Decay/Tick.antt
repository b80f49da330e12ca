-- ===== src/Decay/Tick.antt =====
-- src/decay.rs: the counter of the day, and one tick of the scheduler.
use satan_attrd.Prelude.{
  ℕ, String, Bool, true, Option, none, some, List, [], ◌∷◌, length, str_eq, unwrap_or,
  if◌then◌else◌,
}
use satan_attrd.Prelude.Int.{ℤ, pos, ltb_ℤ}
use satan_attrd.Error.{Error, Result, ok, err, decay_seq_collision}
use satan_attrd.Extern.{Extern}
use satan_attrd.Steps.{Ended, Step, ended, done, panicked, return, ◌>>=◌, ◌>>◌}
use satan_attrd.Types.Attribute.{doubt, shame}
use satan_attrd.Types.Maintenance.{idle_decay}
use satan_attrd.Store.Counter
use satan_attrd.Store.Counter.{Counter}
use satan_attrd.Store.Event.{EventInsert}
use satan_attrd.Store.Database.{World, Db, pure}
use satan_attrd.Store.Operations.{insert_event, bump_last_decay_at, max_seq_for_run}
use satan_attrd.Store.Settings.{get_setting_bool}
use satan_attrd.Rpc.{enqueue_audit_event}
use satan_attrd.Dispatcher.Input.{Projection, MaintenanceInput}
use satan_attrd.Dispatcher.Tables.{value_at}
use satan_attrd.Dispatcher.Emit.{Panics}
use satan_attrd.Dispatcher.Maintenance.{dispatch_maintenance}
use satan_attrd.RunLoop.Audit.{build_audit_payload}
use satan_attrd.RunLoop.Write.{project}
use satan_attrd.Decay.{
  DayCounterState, DueRow, check_due, read_target_values, maintenance_run_id, is_run_seq_collision,
}

-- The scheduler's own state, and the tables. The scope is an argument.
pub record DecayScheduler (X : Extern) : Type 0 where
  pub world : World X
  pub day_counter_state : DayCounterState

-- `guard.day == today`
abbrev pub is_day : String → Option String → Bool
is_day today none = Bool.false
is_day today (some day) = str_eq day today

abbrev pub resume : String → Option ℤ → DayCounterState
resume today prior_max = record {
  day = some today;
  counter = Counter.resuming_from (unwrap_or prior_max (pos 0));
}

-- A repeated number is an error of its own.
unfoldable pub explain : String → ℤ → Error → Error
explain run_id seq e = if is_run_seq_collision e then decay_seq_collision run_id seq else e

-- `days_since_last.unwrap_or(0).max(0)`
abbrev gap : Option ℤ → ℤ
gap days = let n = unwrap_or days (pos 0) in if ltb_ℤ n (pos 0) then pos 0 else n

module _ {X : Extern} where
  -- `DecayScheduler::new`
  abbrev pub new : World X → DecayScheduler X
  new world = record {
    world = world;
    day_counter_state = record { day = none; counter = Counter.new };
  }

  -- An operation of the store.
  unfoldable pub store : {A : Type 0} → Db X A → Step (DecayScheduler X) A
  store m s = let (r, w) = m s.world in (ended r, record s { world = w })

  -- On a date roll the counter resumes from the highest number of the day's run.
  unfoldable pub roll : String → Step (DecayScheduler X) (Unit {0})
  roll today = do
    prior_max ← store (max_seq_for_run (maintenance_run_id today))
    λ t. (done tt, record t { day_counter_state = resume today prior_max })

  unfoldable pub acquire_day_counter : String → Step (DecayScheduler X) (Unit {0})
  acquire_day_counter today s =
      if is_day today s.day_counter_state.day then (done tt, s) else roll today s

  abbrev pub explained : {A : Type 0} → String → ℤ → Result A × World X → Result A × World X
  explained run_id seq (ok id, w) = (ok id, w)
  explained run_id seq (err e, w) = (err (explain run_id seq e), w)

  unfoldable pub insert_decay : String → EventInsert X → Db X String
  insert_decay run_id ev w = explained run_id ev.seq (insert_event ev w)

  unfoldable pub bump : EventInsert X → Db X (Unit {0})
  bump ev = if ev.disabled then pure tt else bump_last_decay_at ev.scope ev.name ev.ts

  -- The body of the loop over the events of one row.
  unfoldable pub apply_event : String → EventInsert X → Step (DecayScheduler X) (Unit {0})
  apply_event run_id ev = do
    store (insert_decay run_id ev)
    store (project ev)
    store (enqueue_audit_event (build_audit_payload ev))
    store (bump ev)

  unfoldable pub apply_events : String → List (EventInsert X) → Step (DecayScheduler X) (Unit {0})
  apply_events run_id [] = return tt
  apply_events run_id (ev ∷ evs) = do apply_event run_id ev; apply_events run_id evs

  abbrev pub decay_input : String → X.DateTime → Bool → Projection → DueRow X → MaintenanceInput X
  decay_input run_id now enabled projection row = record {
    run_id = run_id;
    ts = now;
    reason = idle_decay;
    target = row.name;
    days_since_last = gap row.days_since_last;
    enabled = enabled;
    snapshot = record { doubt = value_at projection doubt; shame = value_at projection shame };
    projection = projection;
  }

  abbrev pub dispatched : {E : Type 0} → DecayScheduler X → Panics E → Ended E × DecayScheduler X
  dispatched s none = (panicked, s)
  dispatched s (some (es, c)) =
      (done es, record s { day_counter_state = record s.day_counter_state { counter = c } })

  -- The dispatch of one row takes its number from the counter of the day.
  unfoldable pub dispatch_row : MaintenanceInput X → Step (DecayScheduler X) (List (EventInsert X))
  dispatch_row input s = dispatched s (dispatch_maintenance input s.day_counter_state.counter)

  -- The loop over the rows that are due.
  unfoldable pub apply_rows :
      String → X.DateTime → Bool → Projection → List (DueRow X) → Step (DecayScheduler X) (Unit {0})
  apply_rows run_id now enabled projection [] = return tt
  apply_rows run_id now enabled projection (row ∷ rows) = do
    events ← dispatch_row (decay_input run_id now enabled projection row)
    apply_events run_id events
    apply_rows run_id now enabled projection rows

  -- A tick with rows that are due.
  unfoldable pub fire : String → X.DateTime → List (DueRow X) → Step (DecayScheduler X) ℕ
  fire scope now due = do
    let run_id = maintenance_run_id (X.utc_day now)
    enabled ← store (get_setting_bool "attribute_updates_enabled" true)
    projection ← store (read_target_values scope)
    acquire_day_counter (X.utc_day now)
    apply_rows run_id now enabled projection due
    return (length due)

  -- The clock is read twice: by `check_due`, and after it.
  abbrev pub fire_if : String → X.DateTime → List (DueRow X) → Step (DecayScheduler X) ℕ
  fire_if scope now [] = return 0
  fire_if scope now (row ∷ rows) = fire scope now (row ∷ rows)

  unfoldable pub tick : String → X.DateTime → X.DateTime → Step (DecayScheduler X) ℕ
  tick scope checked_at now = do due ← store (check_due scope checked_at); fire_if scope now due
