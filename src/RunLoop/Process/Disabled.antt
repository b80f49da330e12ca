-- ===== src/RunLoop/Process/Disabled.antt =====
-- A payload with updates disabled leaves the current values as they are.
use satan_attrd.Prelude.{
  String, Bool, true, false, not, ◌≡◌, ap, none, some, Option, List, [], ◌∷◌, All, refl,
  if◌then◌else◌,
}
use satan_attrd.Prelude.Int.{ℤ}
use satan_attrd.Extern.{Extern}
use satan_attrd.Steps.{Step}
use satan_attrd.Steps.Keeps.{Keeps, Returns, bind-Keeps, bind-Keeps_if, bind-Returns}
use satan_attrd.Store.Counter.{Counter}
use satan_attrd.Store.Event.{EventInsert}
use satan_attrd.Store.Database.{AttributeRow, Database}
use satan_attrd.Store.Database.Preserves.{Preserves, bind-Preserves, statement-Preserves}
use satan_attrd.Store.Operations.{insert_event}
use satan_attrd.Store.Operations.Preserves.{
  IsBeside, insert_event-Preserves, enqueue_audit_event-Preserves,
}
use satan_attrd.Dispatcher.Input.{Projection}
use satan_attrd.Dispatcher.Plan.{Snapshot}
use satan_attrd.Dispatcher.Emit.Each.{AllOf, emit-AllOf}
use satan_attrd.Dispatcher.Outcome.{
  outcome_event, dispatch_outcome, revision_event, dispatch_revision,
}
use satan_attrd.Dispatcher.Signal.{
  hippocampus_event, dispatch_hippocampus, sensor_event, dispatch_sensor,
}
use satan_attrd.Dispatcher.Input.{OutcomeInput, RevisionInput, HippocampusInput, SensorInput}
use satan_attrd.RunLoop.Write.{project, store_event, store_events}
use satan_attrd.RunLoop.Audit.{build_audit_payload}
use satan_attrd.Rpc.{Checked, accepted, refused, check_schema_major}
use satan_attrd.Dispatcher.Prior.{gather_prior_actuals}
use satan_attrd.RunLoop.Payload.{Parsed, accept, reject, OutcomePayload, InboxPayload}
use satan_attrd.RunLoop.Parse.{parse_inbox_payload}
use satan_attrd.RunLoop.Loop.{RunLoop, store}
use satan_attrd.RunLoop.Read.{read_projection, derive_prior_classification}
use satan_attrd.RunLoop.Process.{
  revise, revise_known, build_revision_events, build_events, delete_row, delete_outcome_row, apply,
  handle_checked, handle,
}
use satan_attrd.RunLoop.Process.Reads.{read_projection-Preserves, build_events-Keeps}
use satan_attrd.RunLoop.Process.Views.{seen, store-Keeps, with_counter-Returns}

abbrev pub attributes_of : {X : Extern} → Database X → List (AttributeRow X)
attributes_of db = db.attributes

abbrev pub IsDisabled : {X : Extern} → EventInsert X → Type 0
IsDisabled ev = ev.disabled ≡ true

module _ {X : Extern} where
  pub attributes_of-IsBeside : IsBeside (attributes_of {X = X})
  attributes_of-IsBeside = record {
    events = λ db rows. refl;
    audit = λ db rows n. refl;
    notifications = λ db l. refl;
  }

  outcome-IsDisabled :
      (input : OutcomeInput X)
      → input.enabled ≡ false
      → (c : Counter) → AllOf IsDisabled (dispatch_outcome input c)
  unfolding dispatch_outcome outcome_event
  outcome-IsDisabled input h c = emit-AllOf IsDisabled _ (outcome_event input) (λ x s. ap not h) _ c

  revision-IsDisabled :
      (input : RevisionInput X)
      → input.base.enabled ≡ false
      → (c : Counter) → AllOf IsDisabled (dispatch_revision input c)
  unfolding dispatch_revision revision_event
  revision-IsDisabled input h c =
      emit-AllOf IsDisabled _ (revision_event input) (λ x s. ap not h) _ c

  hippocampus-IsDisabled :
      (input : HippocampusInput X)
      → input.enabled ≡ false
      → (c : Counter) → AllOf IsDisabled (dispatch_hippocampus input c)
  unfolding dispatch_hippocampus hippocampus_event
  hippocampus-IsDisabled input h c =
      emit-AllOf IsDisabled _ (hippocampus_event input) (λ x s. ap not h) _ c

  sensor-IsDisabled :
      (input : SensorInput X)
      → input.enabled ≡ false
      → (c : Counter) → AllOf IsDisabled (dispatch_sensor input c)
  unfolding dispatch_sensor sensor_event
  sensor-IsDisabled input h c = emit-AllOf IsDisabled _ (sensor_event input) (λ x s. ap not h) _ c

  pub project-Preserves :
      (ev : EventInsert X) → IsDisabled ev → Preserves attributes_of (project ev)
  unfolding project
  project-Preserves ev h w = rw h refl

  store_event-Preserves :
      (ev : EventInsert X) → IsDisabled ev → Preserves attributes_of (store_event ev)
  unfolding store_event
  store_event-Preserves ev h =
      bind-Preserves attributes_of (insert_event ev) _
        (insert_event-Preserves attributes_of attributes_of-IsBeside ev)
        λ _. bind-Preserves attributes_of (project ev) _ (project-Preserves ev h) λ _.
          enqueue_audit_event-Preserves attributes_of attributes_of-IsBeside
            (build_audit_payload ev)

  store_events-Preserves :
      (evs : List (EventInsert X)) → All IsDisabled evs → Preserves attributes_of (store_events evs)
  unfolding store_events
  store_events-Preserves [] h = λ w. refl
  store_events-Preserves (ev ∷ evs) h =
      bind-Preserves attributes_of (store_event ev) _ (store_event-Preserves ev h.0)
        λ _. store_events-Preserves evs h.1

-- The flag of a payload.
abbrev pub enabled_of : {X : Extern} → InboxPayload X → Bool
enabled_of (InboxPayload.outcome p) = p.enabled
enabled_of (InboxPayload.hippocampus p) = p.enabled
enabled_of (InboxPayload.sensor p) = p.enabled

module _ {X : Extern} where
  revise-Returns :
      (p : OutcomePayload X) (o : Option String) (snap : Snapshot) (proj : Projection)
      → p.enabled ≡ false
      → (s : RunLoop X) → Returns (All IsDisabled) (revise_known p o snap proj s)
  unfolding revise
  revise-Returns p none snap proj h = λ s. tt
  revise-Returns p (some revises) snap proj h =
      bind-Returns (All IsDisabled) (store (derive_prior_classification p.intervention_id)) _
        λ prior.
          bind-Returns (All IsDisabled) (store (gather_prior_actuals p.intervention_id _)) _
            λ actuals. with_counter-Returns IsDisabled p.run_id _ (revision-IsDisabled _ h)

  outcome-Returns :
      (b : Bool) (m n : Step (RunLoop X) (List (EventInsert X))) (s : RunLoop X)
      → Returns (All IsDisabled) (m s)
      → Returns (All IsDisabled) (n s)
      → Returns (All IsDisabled) ((if b then m else n) s)
  outcome-Returns true m n s h k = h
  outcome-Returns false m n s h k = k

  build_events-Returns :
      (p : InboxPayload X) (snap : Snapshot) (proj : Projection)
      → enabled_of p ≡ false
      → (s : RunLoop X) → Returns (All IsDisabled) (build_events p snap proj s)
  unfolding build_events build_revision_events
  build_events-Returns (InboxPayload.outcome p) snap proj h s =
      outcome-Returns p.is_revision _ _ s (revise-Returns p p.revises snap proj h s)
        (with_counter-Returns IsDisabled p.run_id _ (outcome-IsDisabled _ h) s)
  build_events-Returns (InboxPayload.hippocampus p) snap proj h s =
      with_counter-Returns IsDisabled p.run_id _ (hippocampus-IsDisabled _ h) s
  build_events-Returns (InboxPayload.sensor p) snap proj h s =
      with_counter-Returns IsDisabled p.run_id _ (sensor-IsDisabled _ h) s

  pub delete-Keeps : (id : ℤ) → Keeps (seen attributes_of) (store (delete_outcome_row {X = X} id))
  unfolding delete_outcome_row delete_row
  delete-Keeps id = store-Keeps attributes_of _ (statement-Preserves attributes_of _ (λ db. refl))

  apply-Keeps :
      (id : ℤ) (p : InboxPayload X) → enabled_of p ≡ false → Keeps (seen attributes_of) (apply id p)
  unfolding apply
  apply-Keeps id p h =
      bind-Keeps (seen attributes_of) (store read_projection) _
        (store-Keeps attributes_of _ (read_projection-Preserves attributes_of))
        λ (snap, proj).
          bind-Keeps_if (seen attributes_of) (All IsDisabled) (build_events p snap proj) _
            (build_events-Keeps attributes_of p snap proj) (build_events-Returns p snap proj h)
            λ evs all.
              bind-Keeps (seen attributes_of) (store (store_events evs)) _
                (store-Keeps attributes_of _ (store_events-Preserves evs all)) λ _. delete-Keeps id

  handle_checked-Keeps :
      (id : ℤ) (c : Checked) (r : Parsed (InboxPayload X))
      → ((p : InboxPayload X) → r ≡ accept p → enabled_of p ≡ false)
      → Keeps (seen attributes_of) (handle_checked id c r)
  handle_checked-Keeps id (refused w) r h = delete-Keeps id
  handle_checked-Keeps id accepted (reject w) h = delete-Keeps id
  handle_checked-Keeps id accepted (accept p) h = apply-Keeps id p (h p refl)

  -- A claimed payload that parses, if it does, with updates disabled changes no row of the table
  -- of attributes, whichever statements fail and whatever the handler ends in.
  pub handle_disabled :
      (id : ℤ) (payload : X.Value) (s : RunLoop X)
      → ((p : InboxPayload X) → parse_inbox_payload X payload ≡ accept p → enabled_of p ≡ false)
      → (handle id payload s).1.world.db.attributes ≡ s.world.db.attributes
  unfolding handle
  handle_disabled id payload s h =
      handle_checked-Keeps id (check_schema_major X payload) (parse_inbox_payload X payload) h s
