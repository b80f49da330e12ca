-- ===== src/Decay/Disabled.antt =====
-- A tick with updates disabled leaves the values and the decay stamps as they are.
use satan_attrd.Prelude.{
  String, Bool, true, false, not, ◌≡◌, ◌∙◌, ap, none, some, Option, List, [], ◌∷◌, All, refl,
}
use satan_attrd.Prelude.Int.{ℤ}
use satan_attrd.Error.{Result, ok, err}
use satan_attrd.Extern.{Extern}
use satan_attrd.Prelude.{arith}
use satan_attrd.Steps.{ended}
use satan_attrd.Steps.Keeps.{
  Keeps, Returns, ReturnsIn, bind-Keeps, bind-Keeps_if, bind-Keeps_in, kept_in,
}
use satan_attrd.Store.Counter
use satan_attrd.Store.Counter.{Counter}
use satan_attrd.Store.Event.{EventInsert}
use satan_attrd.Store.Database.{Database, World, statement}
use satan_attrd.Store.Database.Preserves.{Preserves}
use satan_attrd.Store.Operations.{insert_event}
use satan_attrd.Store.Operations.Preserves.{insert_event-Preserves, enqueue_audit_event-Preserves}
use satan_attrd.Store.Settings.{setting, bool_setting, get_setting_bool}
use satan_attrd.Rpc.{enqueue_audit_event}
use satan_attrd.Dispatcher.Emit.{Panics}
use satan_attrd.Dispatcher.Emit.Each.{AllOf}
use satan_attrd.Dispatcher.Input.{Projection, MaintenanceInput}
use satan_attrd.Dispatcher.Maintenance.{maintenance_event, dispatch_maintenance}
use satan_attrd.RunLoop.Audit.{build_audit_payload}
use satan_attrd.RunLoop.Write.{project}
use satan_attrd.RunLoop.Process.Disabled.{
  attributes_of, attributes_of-IsBeside, IsDisabled, project-Preserves,
}
use satan_attrd.Decay.{DayCounterState, DueRow, check_due, read_target_values, maintenance_run_id}
use satan_attrd.F64.{F64}
use satan_attrd.Decay.Views.{
  seen, store-Keeps, dispatch_row-Keeps, acquire-Keeps, check_due-Preserves,
  read_target_values-Preserves, get_setting-Preserves,
}
use satan_attrd.Decay.Tick.{
  DecayScheduler, store, acquire_day_counter, explained, insert_decay, bump, apply_event,
  apply_events, decay_input, dispatched, dispatch_row, apply_rows, fire, fire_if, tick,
}

module _ {X : Extern} where
  after_next :
      (input : MaintenanceInput X) (v : F64) (r : Option (ℤ × Counter))
      → input.enabled ≡ false
      → AllOf IsDisabled
          (elim r [ none ↦ none | some (seq, c) ↦ some (maintenance_event input v seq ∷ [], c) ])
  unfolding maintenance_event
  after_next input v none h = tt
  after_next input v (some (seq, c)) h = (ap not h, tt)

  after_lookup :
      (input : MaintenanceInput X) (o : Option F64) (c : Counter)
      → input.enabled ≡ false
      → AllOf IsDisabled (elim o [
        | none ↦ none
        | some v ↦ elim (Counter.next c) [
          | none ↦ none
          | some (seq, c') ↦ some (maintenance_event input v seq ∷ [], c')
        ]
      ])
  after_lookup input none c h = tt
  after_lookup input (some v) c h = after_next input v (Counter.next c) h

  maintenance-IsDisabled :
      (input : MaintenanceInput X)
      → input.enabled ≡ false
      → (c : Counter) → AllOf IsDisabled (dispatch_maintenance input c)
  unfolding dispatch_maintenance
  maintenance-IsDisabled input h c = after_lookup input (input.projection input.target) c h

  dispatched-Returns :
      (s : DecayScheduler X) (r : Panics (List (EventInsert X)))
      → AllOf IsDisabled r
      → Returns (All IsDisabled) (dispatched s r)
  dispatched-Returns s none h = tt
  dispatched-Returns s (some (es, c)) h = h

  dispatch_row-Returns :
      (input : MaintenanceInput X)
      → input.enabled ≡ false
      → (s : DecayScheduler X) → Returns (All IsDisabled) (dispatch_row input s)
  unfolding dispatch_row
  dispatch_row-Returns input h s =
      dispatched-Returns s (dispatch_maintenance input s.day_counter_state.counter)
        (maintenance-IsDisabled input h s.day_counter_state.counter)

  explained_preserves :
      {A : Type 0} (run_id : String) (seq : ℤ) (r : Result A × World X)
      → (explained run_id seq r).1 ≡ r.1
  explained_preserves run_id seq (ok a, w) = refl
  explained_preserves run_id seq (err e, w) = refl

  pub insert_decay-Preserves :
      (run_id : String) (ev : EventInsert X) → Preserves attributes_of (insert_decay run_id ev)
  unfolding insert_decay
  insert_decay-Preserves run_id ev w =
      ap (λ t. t.db.attributes) (explained_preserves run_id ev.seq (insert_event ev w))
      ∙ insert_event-Preserves attributes_of attributes_of-IsBeside ev w

  bump-Preserves : (ev : EventInsert X) → IsDisabled ev → Preserves attributes_of (bump ev)
  unfolding bump
  bump-Preserves ev h w = rw h refl

  apply_event-Keeps :
      (run_id : String) (ev : EventInsert X)
      → IsDisabled ev
      → Keeps (seen attributes_of) (apply_event run_id ev)
  unfolding apply_event
  apply_event-Keeps run_id ev h =
      bind-Keeps (seen attributes_of) (store (insert_decay run_id ev)) _
        (store-Keeps attributes_of _ (insert_decay-Preserves run_id ev))
        λ _.
          bind-Keeps (seen attributes_of) (store (project ev)) _
            (store-Keeps attributes_of _ (project-Preserves ev h))
            λ _.
              bind-Keeps (seen attributes_of) (store (enqueue_audit_event (build_audit_payload ev)))
                _
                (store-Keeps attributes_of _ (
                  enqueue_audit_event-Preserves attributes_of attributes_of-IsBeside
                    (build_audit_payload ev)))
                λ _. store-Keeps attributes_of _ (bump-Preserves ev h)

  apply_events-Keeps :
      (run_id : String) (evs : List (EventInsert X))
      → All IsDisabled evs
      → Keeps (seen attributes_of) (apply_events run_id evs)
  unfolding apply_events
  apply_events-Keeps run_id [] h = λ s. refl
  apply_events-Keeps run_id (ev ∷ evs) h =
      bind-Keeps (seen attributes_of) (apply_event run_id ev) _ (apply_event-Keeps run_id ev h.0)
        λ _. apply_events-Keeps run_id evs h.1

  apply_rows-Keeps :
      (run_id : String) (now : X.DateTime) (proj : Projection) (rows : List (DueRow X))
      → Keeps (seen attributes_of) (apply_rows run_id now false proj rows)
  unfolding apply_rows
  apply_rows-Keeps run_id now proj [] = λ s. refl
  apply_rows-Keeps run_id now proj (row ∷ rows) =
      let input = decay_input run_id now false proj row in
      bind-Keeps_if (seen attributes_of) (All IsDisabled) (dispatch_row input) _
        (dispatch_row-Keeps attributes_of input) (dispatch_row-Returns input refl)
        λ evs all.
          bind-Keeps (seen attributes_of) (apply_events run_id evs) _
            (apply_events-Keeps run_id evs all) λ _. apply_rows-Keeps run_id now proj rows

  -- The setting says that updates are disabled.
  abbrev pub IsOff : Database X → Type 0
  IsOff db =
      bool_setting X "attribute_updates_enabled" true
        (setting "attribute_updates_enabled" db.settings)
      ≡ ok false

  abbrev pub settings_of : Database X → List (String × X.Value)
  settings_of db = db.settings

  read_in :
      (v : Bool) (r : Result Bool) (w : World X) (state : DayCounterState)
      → r ≡ ok v
      → ReturnsIn
          (λ b (t : DecayScheduler X). b ≡ v)
          (ended r, record { world = w; day_counter_state = state })
  read_in v (ok b) w state h = ground (arith, h)
  read_in v (err e) w state h = tt

  -- What the setting says is what is read, if the read does not fail.
  pub setting_returns :
      (v : Bool) (state : DayCounterState) (faults : List Bool) (db : Database X)
      → bool_setting X "attribute_updates_enabled" true
          (setting "attribute_updates_enabled" db.settings)
        ≡ ok v
      → ReturnsIn
          (λ b (t : DecayScheduler X). b ≡ v)
          (store
            (get_setting_bool "attribute_updates_enabled" true)
            (record { world = record { db = db; faults = faults }; day_counter_state = state }))
  unfolding store get_setting_bool statement
  setting_returns v state [] db h = read_in v _ _ state h
  setting_returns v state (true ∷ later) db h = tt
  setting_returns v state (false ∷ later) db h = read_in v _ _ state h

  fire_keeps :
      (scope : String) (now : X.DateTime) (due : List (DueRow X)) (s : DecayScheduler X)
      → IsOff s.world.db
      → (fire scope now due s).1.world.db.attributes ≡ s.world.db.attributes
  unfolding fire
  fire_keeps scope now due s h =
      bind-Keeps_in (seen attributes_of) (λ b t. b ≡ false)
        (store (get_setting_bool "attribute_updates_enabled" true)) _ s
        (store-Keeps attributes_of _
          (get_setting-Preserves attributes_of "attribute_updates_enabled" true) s)
        (setting_returns false s.day_counter_state s.world.faults s.world.db h)
        λ b t off. rw off (
          bind-Keeps (seen attributes_of) (store (read_target_values scope)) _
            (store-Keeps attributes_of _ (read_target_values-Preserves attributes_of scope))
            (λ proj.
              bind-Keeps (seen attributes_of) (acquire_day_counter (X.utc_day now)) _
                (acquire-Keeps attributes_of (X.utc_day now))
                λ _.
                  bind-Keeps (seen attributes_of)
                    (apply_rows (maintenance_run_id (X.utc_day now)) now false proj due) _
                    (apply_rows-Keeps (maintenance_run_id (X.utc_day now)) now proj due)
                    λ _ u. refl)
            t)

  fire_if_keeps :
      (scope : String) (now : X.DateTime) (due : List (DueRow X)) (s : DecayScheduler X)
      → IsOff s.world.db
      → (fire_if scope now due s).1.world.db.attributes ≡ s.world.db.attributes
  fire_if_keeps scope now [] s h = refl
  fire_if_keeps scope now (row ∷ rows) s h = fire_keeps scope now (row ∷ rows) s h

  -- While the setting says that updates are disabled, a tick changes no row of the table of
  -- attributes, neither a value nor a decay stamp, whichever statements fail and whatever the
  -- tick ends in.
  pub tick_disabled :
      (scope : String) (checked_at now : X.DateTime) (s : DecayScheduler X)
      → IsOff s.world.db
      → (tick scope checked_at now s).1.world.db.attributes ≡ s.world.db.attributes
  unfolding tick
  tick_disabled scope checked_at now s h =
      bind-Keeps_in (seen attributes_of) (λ _ t. t.world.db.settings ≡ s.world.db.settings)
        (store (check_due scope checked_at)) _ s
        (store-Keeps attributes_of _ (check_due-Preserves attributes_of scope checked_at) s)
        (kept_in (seen settings_of) s (store (check_due scope checked_at) s)
          (store-Keeps settings_of _ (check_due-Preserves settings_of scope checked_at) s))
        λ due t same. fire_if_keeps scope now due t (rw same h)
