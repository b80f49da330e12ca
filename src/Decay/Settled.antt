-- ===== src/Decay/Settled.antt =====
-- A tick that returns has stamped each row that was due.
use satan_attrd.Prelude.{
  Bool, true, false, Option, ◌≡◌, ◌⊎◌, inl, inr, List, [], ◌∷◌, ◌&&◌, All, All-map, refl, str_eq,
  if◌then◌else◌, Bool-cases, arith,
}
use satan_attrd.Error.{ok}
use satan_attrd.Extern.{Extern}
use satan_attrd.Types.Attribute
use satan_attrd.Types.Attribute.{AttributeName, shame, doubt, brooding, metamorphosis}
use satan_attrd.Steps.Keeps.{ReturnsIn, bind-ReturnsIn, holds_in, both_in, map_in}
use satan_attrd.Store.Database.{AttributeRow, Database, statement}
use satan_attrd.Store.Operations.{is_key, select, any}
use satan_attrd.Store.Settings.{setting, bool_setting, get_setting_bool}
use satan_attrd.RunLoop.Process.Disabled.{attributes_of}
use satan_attrd.Decay.{
  DayCounterState, DueRow, decay_targets, targets, check_due, read_target_values,
  maintenance_run_id,
}
use satan_attrd.Decay.Views.{
  store-Keeps, acquire-Keeps, read_target_values-Preserves, get_setting-Preserves,
}
use satan_attrd.Decay.Disabled.{setting_returns}
use satan_attrd.Decay.Returns.{kept-ReturnsIn}
use satan_attrd.Decay.Stamps.{HasStamps}
use satan_attrd.Decay.Covers.{IsSettled, Covered, AllCovered, targets-AllCovered}
use satan_attrd.Decay.Rows.{IsAmong, apply_rows-Stamped}
use satan_attrd.Decay.Tick.{
  DecayScheduler, store, acquire_day_counter, apply_rows, fire, fire_if, tick,
}

module _ {X : Extern} where
  -- The setting says that updates are enabled.
  abbrev pub IsOn : Database X → Type 0
  IsOn db =
      bool_setting X "attribute_updates_enabled" true
        (setting "attribute_updates_enabled" db.settings)
      ≡ ok true

  fire-Stamped :
      (checked_at now : X.DateTime) (due : List (DueRow X)) (name : AttributeName)
      (s : DecayScheduler X)
      → IsOn s.world.db
      → Covered checked_at now due s.world.db name
      → ReturnsIn
          (λ _ t.
            HasStamps
              (IsSettled X checked_at now)
              "global"
              (Attribute.as_str name)
              t.world.db.attributes)
          (fire "global" now due s)
  unfolding fire
  fire-Stamped checked_at now due name s on h =
      let n = Attribute.as_str name in
      let P = IsSettled X checked_at now in
      let Q : List (AttributeRow X) → Type 0 =
        λ rows. IsAmong n due ⊎ HasStamps P "global" n rows in
      let setting = store (get_setting_bool "attribute_updates_enabled" true) in
      let run_id = maintenance_run_id (X.utc_day now) in
      bind-ReturnsIn (λ b t. (b ≡ true) × Q t.world.db.attributes) _ setting _ s
        (both_in _ _ (setting s)
          (setting_returns true s.day_counter_state s.world.faults s.world.db on)
          (kept-ReturnsIn attributes_of Q setting
            (store-Keeps attributes_of (get_setting_bool "attribute_updates_enabled" true)
              (get_setting-Preserves attributes_of "attribute_updates_enabled" true))
            s h))
        λ b t k. rw (k.0) (
          bind-ReturnsIn (λ _ u. Q u.world.db.attributes) _ (store (read_target_values "global")) _
            t
            (kept-ReturnsIn attributes_of Q (store (read_target_values "global"))
              (store-Keeps attributes_of (read_target_values "global")
                (read_target_values-Preserves attributes_of "global"))
              t k.1)
            λ proj u q.
              bind-ReturnsIn (λ _ v. Q v.world.db.attributes) _
                (acquire_day_counter (X.utc_day now)) _ u
                (kept-ReturnsIn attributes_of Q (acquire_day_counter (X.utc_day now))
                  (acquire-Keeps attributes_of (X.utc_day now)) u q)
                λ _ v q'.
                  bind-ReturnsIn (λ _ w. HasStamps P "global" n w.world.db.attributes) _
                    (apply_rows run_id now true proj due) _ v
                    (apply_rows-Stamped P now (inl refl) n run_id proj due v q') λ _ w r. r)

  -- What holds of the stamps of each attribute that decays.
  abbrev AllStamped : X.DateTime → X.DateTime → Database X → Type 0
  AllStamped checked_at now db =
      All
        (λ name.
          HasStamps (IsSettled X checked_at now) "global" (Attribute.as_str name) db.attributes)
        decay_targets

  idle-AllStamped :
      (checked_at now : X.DateTime) (db : Database X) (names : List AttributeName)
      → All (Covered checked_at now [] db) names
      → All
          (λ name.
            HasStamps (IsSettled X checked_at now) "global" (Attribute.as_str name) db.attributes)
          names
  idle-AllStamped checked_at now db [] h = tt
  idle-AllStamped checked_at now db (name ∷ names) h = (
    elim h.0 [ inl among ↦ absurd among | inr stamped ↦ stamped ],
    idle-AllStamped checked_at now db names h.1,
  )

  fire-AllStamped :
      (checked_at now : X.DateTime) (due : List (DueRow X)) (names : List AttributeName)
      (s : DecayScheduler X)
      → IsOn s.world.db
      → All (Covered checked_at now due s.world.db) names
      → ReturnsIn
          (λ _ t.
            All
              (λ name.
                HasStamps
                  (IsSettled X checked_at now)
                  "global"
                  (Attribute.as_str name)
                  t.world.db.attributes)
              names)
          (fire "global" now due s)
  fire-AllStamped checked_at now due [] s on h = holds_in (λ _. Unit) (fire "global" now due s) tt
  fire-AllStamped checked_at now due (name ∷ names) s on h =
      both_in _ _ (fire "global" now due s) (fire-Stamped checked_at now due name s on h.0)
        (fire-AllStamped checked_at now due names s on h.1)

  fire_if-AllStamped :
      (checked_at now : X.DateTime) (due : List (DueRow X)) (s : DecayScheduler X)
      → IsOn s.world.db
      → AllCovered checked_at now due s.world.db
      → ReturnsIn (λ _ t. AllStamped checked_at now t.world.db) (fire_if "global" now due s)
  fire_if-AllStamped checked_at now [] s on h =
      idle-AllStamped checked_at now s.world.db decay_targets h
  fire_if-AllStamped checked_at now (row ∷ rows) s on h =
      fire-AllStamped checked_at now (row ∷ rows) decay_targets s on h

  check_due-covers :
      (checked_at now : X.DateTime) (state : DayCounterState) (faults : List Bool) (db : Database X)
      → IsOn db
      → ReturnsIn
          (λ due t. AllCovered checked_at now due t.world.db × IsOn t.world.db)
          (store
            (check_due "global" checked_at)
            (record { world = record { db = db; faults = faults }; day_counter_state = state }))
  unfolding store check_due statement
  check_due-covers checked_at now state [] db on = (targets-AllCovered checked_at now db, on)
  check_due-covers checked_at now state (true ∷ later) db on = tt
  check_due-covers checked_at now state (false ∷ later) db on =
      (targets-AllCovered checked_at now db, on)

  settled_row :
      (P : Option X.DateTime → Type 0) (r : AttributeRow X) (names : List AttributeName)
      → All (λ name. is_key "global" (Attribute.as_str name) r ≡ true → P r.last_decay_at) names
      → (str_eq r.scope "global" && any (λ n. str_eq r.name (Attribute.as_str n)) names) ≡ true
      → P r.last_decay_at
  unfolding is_key
  settled_row P r [] h k = absurd (ground arith)
  settled_row P r (name ∷ names) h k =
      elim (Bool-cases (is_key "global" (Attribute.as_str name) r)) [
        | inl key ↦ h.0 key
        | inr other ↦ settled_row P r names h.1 (ground arith)
      ]

  IsSettled-rows :
      (checked_at now : X.DateTime) (rows : List (AttributeRow X))
      → All
          (λ name. HasStamps (IsSettled X checked_at now) "global" (Attribute.as_str name) rows)
          decay_targets
      → All
          (λ r. IsSettled X checked_at now r.last_decay_at)
          (select
            (λ r.
              str_eq r.scope "global"
              && any (λ n. str_eq r.name (Attribute.as_str n)) decay_targets)
            rows)
  unfolding select
  IsSettled-rows checked_at now [] h = tt
  IsSettled-rows checked_at now (r ∷ rows) h =
      at_row (is_decaying r)
        (settled_row (IsSettled X checked_at now) r decay_targets
          (All-map Both _ (λ name k. k.0) decay_targets h))
        (IsSettled-rows checked_at now rows (All-map Both _ (λ name k. k.1) decay_targets h))
    where
      Both : AttributeName → Type 0
      Both name = HasStamps (IsSettled X checked_at now) "global" (Attribute.as_str name) (r ∷ rows)

      is_decaying : AttributeRow X → Bool
      is_decaying r =
          str_eq r.scope "global" && any (λ n. str_eq r.name (Attribute.as_str n)) decay_targets

      at_row :
          (b : Bool)
          → (b ≡ true → IsSettled X checked_at now r.last_decay_at)
          → All (λ r. IsSettled X checked_at now r.last_decay_at) (select is_decaying rows)
          → All
              (λ r. IsSettled X checked_at now r.last_decay_at)
              (if b then r ∷ select is_decaying rows else select is_decaying rows)
      at_row true h k = (h refl, k)
      at_row false h k = k

  -- While the setting says that updates are enabled, and whichever statements fail, a tick for the
  -- scope `global` that ends in a value leaves each row of that scope and of an attribute that
  -- decays with a stamp that is the time of the tick, or that was not due at the check.
  pub tick-IsSettled :
      (checked_at now : X.DateTime) (s : DecayScheduler X)
      → IsOn s.world.db
      → ReturnsIn
          (λ _ t.
            All (λ r. IsSettled X checked_at now r.last_decay_at) (targets "global" t.world.db))
          (tick "global" checked_at now s)
  unfolding tick
  tick-IsSettled checked_at now s on =
      bind-ReturnsIn (λ due t. AllCovered checked_at now due t.world.db × IsOn t.world.db) _
        (store (check_due "global" checked_at)) _ s
        (check_due-covers checked_at now s.day_counter_state s.world.faults s.world.db on)
        λ due t h.
          map_in _ _ (λ _ u. IsSettled-rows checked_at now u.world.db.attributes)
            (fire_if "global" now due t) (fire_if-AllStamped checked_at now due t h.1 h.0)
