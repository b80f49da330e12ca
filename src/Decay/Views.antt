-- ===== src/Decay/Views.antt =====
-- The steps of the scheduler that leave a view of the tables as it is.
use satan_attrd.Prelude.{String, Bool, true, false, ◌≡◌, none, some, refl, if◌then◌else◌}
use satan_attrd.Extern.{Extern}
use satan_attrd.Steps.{done}
use satan_attrd.Steps.Keeps.{Keeps, bind-Keeps}
use satan_attrd.Store.Database.{Database, Db, statement}
use satan_attrd.Store.Database.Preserves.{Preserves, bind-Preserves, statement-Preserves}
use satan_attrd.Store.Operations.{max_seq_for_run}
use satan_attrd.Store.Settings.{get_setting_bool}
use satan_attrd.Dispatcher.Emit.{Panics}
use satan_attrd.Dispatcher.Input.{MaintenanceInput}
use satan_attrd.Dispatcher.Maintenance.{dispatch_maintenance}
use satan_attrd.Decay.{check_due, read_target_values, maintenance_run_id}
use satan_attrd.Decay.Tick.{
  DecayScheduler, store, is_day, roll, acquire_day_counter, dispatched, dispatch_row,
}

module _ {X : Extern} {V : Type 0} (view : Database X → V) where
  -- The view, of the state of the scheduler.
  abbrev pub seen : DecayScheduler X → V
  seen s = view s.world.db

  pub store-Keeps : {A : Type 0} (m : Db X A) → Preserves view m → Keeps seen (store m)
  unfolding store
  store-Keeps m h s = h s.world

  dispatched_keeps :
      {E : Type 0} (s : DecayScheduler X) (r : Panics E) → seen (dispatched s r).1 ≡ seen s
  dispatched_keeps s none = refl
  dispatched_keeps s (some (es, c)) = refl

  pub dispatch_row-Keeps : (input : MaintenanceInput X) → Keeps seen (dispatch_row input)
  unfolding dispatch_row
  dispatch_row-Keeps input s =
      dispatched_keeps s (dispatch_maintenance input s.day_counter_state.counter)

  roll-Keeps : (today : String) → Keeps seen (roll today)
  unfolding roll max_seq_for_run
  roll-Keeps today =
      bind-Keeps seen (store (max_seq_for_run (maintenance_run_id today))) _
        (store-Keeps _ (statement-Preserves view _ (λ db. refl))) (λ prior t. refl)

  same_day_keeps :
      (b : Bool) (today : String) (s : DecayScheduler X)
      → seen (if b then (done tt, s) else roll today s).1 ≡ seen s
  same_day_keeps true today s = refl
  same_day_keeps false today s = roll-Keeps today s

  pub acquire-Keeps : (today : String) → Keeps seen (acquire_day_counter today)
  unfolding acquire_day_counter
  acquire-Keeps today s = same_day_keeps (is_day today s.day_counter_state.day) today s

  pub check_due-Preserves :
      (scope : String) (now : X.DateTime) → Preserves view (check_due scope now)
  unfolding check_due
  check_due-Preserves scope now =
      bind-Preserves view (statement _) _ (statement-Preserves view _ (λ db. refl)) (λ rows w. refl)

  pub read_target_values-Preserves : (scope : String) → Preserves view (read_target_values scope)
  unfolding read_target_values
  read_target_values-Preserves scope =
      bind-Preserves view (statement _) _ (statement-Preserves view _ (λ db. refl)) (λ rows w. refl)

  pub get_setting-Preserves :
      (name : String) (default : Bool) → Preserves view (get_setting_bool name default)
  unfolding get_setting_bool
  get_setting-Preserves name default =
      bind-Preserves view (statement _) _ (statement-Preserves view _ (λ db. refl)) (λ row w. refl)
