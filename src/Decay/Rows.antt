-- ===== src/Decay/Rows.antt =====
-- The loop over the rows that are due, with updates enabled, stamps each of them.
use satan_attrd.Prelude.{
  String, true, false, not, Option, none, some, ◌≡◌, ◌∙◌, ◌⊎◌, ap, sym, inl, inr, List, [], ◌∷◌,
  refl,
}
use mathlib.Core.Path.{subst}
use satan_attrd.Prelude.Int.{ℤ}
use satan_attrd.F64.{F64}
use satan_attrd.Extern.{Extern}
use satan_attrd.Types.Attribute
use satan_attrd.Types.Attribute.{AttributeName, shame, doubt, brooding, metamorphosis}
use satan_attrd.Types.Scopes
use satan_attrd.Types.Scopes.{global}
use satan_attrd.Steps.Keeps.{ReturnsIn, bind-ReturnsIn, holds_in, map_in}
use satan_attrd.Store.Counter
use satan_attrd.Store.Counter.{Counter}
use satan_attrd.Store.Event.{EventInsert}
use satan_attrd.Dispatcher.Emit.{Panics}
use satan_attrd.Dispatcher.Input.{Projection, MaintenanceInput}
use satan_attrd.Dispatcher.Maintenance.{maintenance_event, dispatch_maintenance}
use satan_attrd.Decay.{DueRow}
use satan_attrd.Decay.Stamps.{HasStamps}
use satan_attrd.Decay.Stamping.{apply_event-Stamped}
use satan_attrd.Decay.Tick.{
  DecayScheduler, apply_event, apply_events, decay_input, dispatched, dispatch_row, apply_rows,
}

module _ {X : Extern} where
  -- One of the rows is for the attribute.
  abbrev pub IsAmong : String → List (DueRow X) → Type 0
  IsAmong n [] = ⊥
  IsAmong n (row ∷ rows) = (n ≡ Attribute.as_str row.name) ⊎ IsAmong n rows

  -- One event, for the attribute, at the time, which is not disabled.
  abbrev IsDecayOf : AttributeName → X.DateTime → List (EventInsert X) → Type 0
  IsDecayOf name now [] = ⊥
  IsDecayOf name now (ev ∷ []) =
      (ev.scope ≡ global) × (ev.name ≡ name) × (ev.ts ≡ now) × (ev.disabled ≡ false)
  IsDecayOf name now (ev ∷ other ∷ evs) = ⊥

  -- Of a dispatch that did not panic.
  abbrev GivesDecayOf : AttributeName → X.DateTime → Panics (List (EventInsert X)) → Type 0
  GivesDecayOf name now none = Unit
  GivesDecayOf name now (some (evs, c)) = IsDecayOf name now evs

  maintenance-GivesDecayOf :
      (input : MaintenanceInput X) (o : Option F64) (r : Option (ℤ × Counter))
      → input.enabled ≡ true
      → GivesDecayOf input.target input.ts (elim o [
        | none ↦ none
        | some v ↦ elim r [
          | none ↦ none
          | some (seq, c') ↦ some (maintenance_event input v seq ∷ [], c')
        ]
      ])
  unfolding maintenance_event
  maintenance-GivesDecayOf input none r on = tt
  maintenance-GivesDecayOf input (some v) none on = tt
  maintenance-GivesDecayOf input (some v) (some (seq, c)) on = (refl, refl, refl, ap not on)

  dispatched-gives :
      (name : AttributeName) (now : X.DateTime) (s : DecayScheduler X)
      (r : Panics (List (EventInsert X)))
      → GivesDecayOf name now r
      → ReturnsIn
          (λ evs t. IsDecayOf name now evs × (t.world.db.attributes ≡ s.world.db.attributes))
          (dispatched s r)
  dispatched-gives name now s none h = tt
  dispatched-gives name now s (some (evs, c)) h = (h, refl)

  dispatch_row-gives :
      (input : MaintenanceInput X)
      → input.enabled ≡ true
      → (s : DecayScheduler X)
      → ReturnsIn
          (λ evs t.
            IsDecayOf input.target input.ts evs × (t.world.db.attributes ≡ s.world.db.attributes))
          (dispatch_row input s)
  unfolding dispatch_row dispatch_maintenance
  dispatch_row-gives input on s =
      dispatched-gives input.target input.ts s
        (dispatch_maintenance input s.day_counter_state.counter)
        (maintenance-GivesDecayOf input (input.projection input.target)
          (Counter.next s.day_counter_state.counter) on)

  module _ (P : Option X.DateTime → Type 0) (now : X.DateTime) (p : P (some now)) (n : String) where
    abbrev Stamped : DecayScheduler X → Type 0
    Stamped s = HasStamps P "global" n s.world.db.attributes

    decay-Stamped :
        (run_id : String) (name : AttributeName) (ev : EventInsert X)
        → IsDecayOf name now (ev ∷ [])
        → (s : DecayScheduler X) → (n ≡ Attribute.as_str name) ⊎ Stamped s
        → ReturnsIn (λ _ t. Stamped t) (apply_event run_id ev s)
    unfolding Scopes.as_str
    decay-Stamped run_id name ev h s q =
        subst
          (λ scope.
            (n ≡ Attribute.as_str ev.name) ⊎ HasStamps P scope n s.world.db.attributes
            → ReturnsIn (λ _ t. HasStamps P scope n t.world.db.attributes)
                (apply_event run_id ev s))
          (ap Scopes.as_str h.0)
          (apply_event-Stamped P n run_id ev h.3 (subst (λ t. P (some t)) (sym h.2) p) s)
          (elim q [
            | inl same ↦ inl (same ∙ ap Attribute.as_str (sym h.1))
            | inr stamped ↦ inr stamped
          ])

    apply_events-Stamped :
        (run_id : String) (name : AttributeName) (evs : List (EventInsert X))
        → IsDecayOf name now evs
        → (s : DecayScheduler X) → (n ≡ Attribute.as_str name) ⊎ Stamped s
        → ReturnsIn (λ _ t. Stamped t) (apply_events run_id evs s)
    unfolding apply_events
    apply_events-Stamped run_id name [] h s q = absurd h
    apply_events-Stamped run_id name (ev ∷ []) h s q =
        bind-ReturnsIn (λ _ t. Stamped t) (λ _ t. Stamped t) (apply_event run_id ev) _ s
          (decay-Stamped run_id name ev h s q) λ _ t k. k
    apply_events-Stamped run_id name (ev ∷ other ∷ evs) h s q = absurd h

    -- The loop over the rows: what was stamped or is for one of them is stamped after it.
    pub apply_rows-Stamped :
        (run_id : String) (proj : Projection) (rows : List (DueRow X)) (s : DecayScheduler X)
        → IsAmong n rows ⊎ Stamped s
        → ReturnsIn (λ _ t. Stamped t) (apply_rows run_id now true proj rows s)
    unfolding apply_rows
    apply_rows-Stamped run_id proj [] s (inl h) = absurd h
    apply_rows-Stamped run_id proj [] s (inr h) = h
    apply_rows-Stamped run_id proj (row ∷ rows) s h =
        let name = row.name in
        bind-ReturnsIn
          (λ evs t. IsDecayOf name now evs × (t.world.db.attributes ≡ s.world.db.attributes)) _
          (dispatch_row (decay_input run_id now true proj row)) _ s
          (dispatch_row-gives (decay_input run_id now true proj row) refl s)
          λ evs t k.
            bind-ReturnsIn (λ _ u. IsAmong n rows ⊎ Stamped u) _ (apply_events run_id evs) _ t
              (row_done evs t k h) λ _ u later. apply_rows-Stamped run_id proj rows u later
      where
        row_done :
            (evs : List (EventInsert X)) (t : DecayScheduler X)
            → IsDecayOf row.name now evs × (t.world.db.attributes ≡ s.world.db.attributes)
            → IsAmong n (row ∷ rows) ⊎ Stamped s
            → ReturnsIn (λ _ u. IsAmong n rows ⊎ Stamped u) (apply_events run_id evs t)
        row_done evs t k (inl (inl same)) =
            map_in _ _ (λ _ u stamped. inr stamped) (apply_events run_id evs t)
              (apply_events-Stamped run_id row.name evs k.0 t (inl same))
        row_done evs t k (inl (inr later)) =
            holds_in (λ u. IsAmong n rows ⊎ Stamped u) (apply_events run_id evs t) (inl later)
        row_done evs t k (inr stamped) =
            map_in _ _ (λ _ u stamped. inr stamped) (apply_events run_id evs t)
              (apply_events-Stamped run_id row.name evs k.0 t
                (inr (subst (HasStamps P "global" n) (sym k.1) stamped)))
