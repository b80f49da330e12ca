-- ===== src/Daemon/Ticks.antt =====
-- The tick of the scheduler as a sequence of writes: src/decay.rs.
use satan_attrd.Prelude.{String, Bool, true, false, none, some, List, [], ◌∷◌, if◌then◌else◌}
use satan_attrd.Prelude.Int.{ℤ}
use satan_attrd.Error.{Result, ok, err}
use satan_attrd.Extern.{Extern}
use satan_attrd.Steps.{done}
use satan_attrd.Store.Event.{EventInsert}
use satan_attrd.Store.Database.{World, Db, statement}
use satan_attrd.Store.Operations.{insert_event, max_seq_for_run}
use satan_attrd.Store.Settings.{get_setting_bool}
use satan_attrd.Rpc.{enqueue_audit_event}
use satan_attrd.Dispatcher.Emit.{Panics}
use satan_attrd.Dispatcher.Input.{Projection, MaintenanceInput}
use satan_attrd.Dispatcher.Maintenance.{dispatch_maintenance}
use satan_attrd.RunLoop.Audit.{build_audit_payload}
use satan_attrd.RunLoop.Write.{project}
use satan_attrd.Decay.{DueRow, check_due, read_target_values, maintenance_run_id}
use satan_attrd.Decay.Tick.{
  DecayScheduler, store, is_day, roll, acquire_day_counter, explained, insert_decay, bump,
  apply_event, apply_events, decay_input, dispatched, dispatch_row, apply_rows, fire, fire_if, tick,
}
use satan_attrd.Daemon.Writes.{here}
use satan_attrd.Daemon.Runs.{Moved, Moved-refl, Runs, bind-Runs, statement-Runs, if-Runs}
use satan_attrd.Daemon.Performs.{Performs, bind-Performs}
use satan_attrd.Daemon.Operations.{
  insert_event-Runs, project-Runs, enqueue_audit_event-Runs, bump_last_decay_at-Runs,
  max_seq_for_run-Runs, get_setting_bool-Runs,
}

abbrev pub world_of : {X : Extern} → DecayScheduler X → World X
world_of s = s.world

module _ {X : Extern} where
  store-Performs : {A : Type 0} (m : Db X A) → Runs m → Performs world_of (store m)
  unfolding store
  store-Performs m h s = h s.world

  roll-Performs : (today : String) → Performs (world_of {X = X}) (roll today)
  unfolding roll
  roll-Performs today =
      bind-Performs world_of (store (max_seq_for_run (maintenance_run_id today))) _
        (store-Performs _ (max_seq_for_run-Runs (maintenance_run_id today)))
        λ prior_max s. Moved-refl s.world

  acquire-Performs : (today : String) → Performs (world_of {X = X}) (acquire_day_counter today)
  unfolding acquire_day_counter
  acquire-Performs today s = same (is_day today s.day_counter_state.day)
    where
      same : (b : Bool) → Moved s.world (world_of (if b then (done tt, s) else roll today s).1)
      same true = Moved-refl s.world
      same false = roll-Performs today s

  explained-Moved :
      {A : Type 0} (run_id : String) (seq : ℤ) (before : World X) (r : Result A × World X)
      → Moved before r.1
      → Moved before (explained run_id seq r).1
  explained-Moved run_id seq before (ok a, w) h = h
  explained-Moved run_id seq before (err e, w) h = h

  insert_decay-Runs : (run_id : String) (ev : EventInsert X) → Runs (insert_decay run_id ev)
  unfolding insert_decay
  insert_decay-Runs run_id ev w =
      explained-Moved run_id ev.seq w (insert_event ev w) (insert_event-Runs ev w)

  bump-Runs : (ev : EventInsert X) → Runs (bump ev)
  unfolding bump
  bump-Runs ev = if-Runs ev.disabled _ _ Moved-refl (bump_last_decay_at-Runs ev.scope ev.name ev.ts)

  apply_event-Performs :
      (run_id : String) (ev : EventInsert X) → Performs world_of (apply_event run_id ev)
  unfolding apply_event
  apply_event-Performs run_id ev =
      let audit = build_audit_payload ev in
      bind-Performs world_of (store (insert_decay run_id ev)) _
        (store-Performs _ (insert_decay-Runs run_id ev))
        λ _. bind-Performs world_of (store (project ev)) _ (store-Performs _ (project-Runs ev)) λ _.
          bind-Performs world_of (store (enqueue_audit_event audit)) _
            (store-Performs _ (enqueue_audit_event-Runs audit))
            λ _. store-Performs (bump ev) (bump-Runs ev)

  apply_events-Performs :
      (run_id : String) (evs : List (EventInsert X)) → Performs world_of (apply_events run_id evs)
  unfolding apply_events
  apply_events-Performs run_id [] = λ s. Moved-refl s.world
  apply_events-Performs run_id (ev ∷ evs) =
      bind-Performs world_of (apply_event run_id ev) _ (apply_event-Performs run_id ev)
        λ _. apply_events-Performs run_id evs

  dispatched-Moved :
      {E : Type 0} (s : DecayScheduler X) (r : Panics E)
      → Moved s.world (world_of (dispatched s r).1)
  dispatched-Moved s none = Moved-refl s.world
  dispatched-Moved s (some (es, c)) = Moved-refl s.world

  dispatch_row-Performs : (input : MaintenanceInput X) → Performs world_of (dispatch_row input)
  unfolding dispatch_row
  dispatch_row-Performs input s =
      dispatched-Moved s (dispatch_maintenance input s.day_counter_state.counter)

  apply_rows-Performs :
      (run_id : String) (now : X.DateTime) (enabled : Bool) (proj : Projection)
      (rows : List (DueRow X))
      → Performs world_of (apply_rows run_id now enabled proj rows)
  unfolding apply_rows
  apply_rows-Performs run_id now enabled proj [] = λ s. Moved-refl s.world
  apply_rows-Performs run_id now enabled proj (row ∷ rows) =
      let input = decay_input run_id now enabled proj row in
      bind-Performs world_of (dispatch_row input) _ (dispatch_row-Performs input) λ evs.
        bind-Performs world_of (apply_events run_id evs) _ (apply_events-Performs run_id evs)
          λ _. apply_rows-Performs run_id now enabled proj rows

  check_due-Runs : (scope : String) (now : X.DateTime) → Runs (check_due {X = X} scope now)
  unfolding check_due
  check_due-Runs scope now =
      bind-Runs (statement _) _ (statement-Runs _ (λ db. here)) (λ rows. Moved-refl)

  read_target_values-Runs : (scope : String) → Runs (read_target_values {X = X} scope)
  unfolding read_target_values
  read_target_values-Runs scope =
      bind-Runs (statement _) _ (statement-Runs _ (λ db. here)) (λ rows. Moved-refl)

  fire_if-Performs :
      (scope : String) (now : X.DateTime) (due : List (DueRow X))
      → Performs world_of (fire_if scope now due)
  unfolding fire
  fire_if-Performs scope now [] = λ s. Moved-refl s.world
  fire_if-Performs scope now (row ∷ rows) =
      let today = X.utc_day now in
      let run_id = maintenance_run_id today in
      bind-Performs world_of (store (get_setting_bool "attribute_updates_enabled" true)) _
        (store-Performs _ (get_setting_bool-Runs "attribute_updates_enabled" true))
        λ enabled.
          bind-Performs world_of (store (read_target_values scope)) _
            (store-Performs _ (read_target_values-Runs scope))
            λ proj.
              bind-Performs world_of (acquire_day_counter today) _ (acquire-Performs today) λ _.
                bind-Performs world_of (apply_rows run_id now enabled proj (row ∷ rows)) _
                  (apply_rows-Performs run_id now enabled proj (row ∷ rows))
                  λ _ s. Moved-refl s.world

  pub tick-Performs :
      (scope : String) (checked_at now : X.DateTime)
      → Performs (world_of {X = X}) (tick scope checked_at now)
  unfolding tick
  tick-Performs scope checked_at now =
      bind-Performs world_of (store (check_due scope checked_at)) _
        (store-Performs _ (check_due-Runs scope checked_at)) (fire_if-Performs scope now)
