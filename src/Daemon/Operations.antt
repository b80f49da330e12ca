-- ===== src/Daemon/Operations.antt =====
-- The operations of the store, the audit queue and the settings as sequences of writes.
use satan_attrd.Prelude.{String, Bool, Option, none, some, List, [], ◌∷◌}
use satan_attrd.Prelude.Int.{ℤ}
use satan_attrd.F64.{F64}
use satan_attrd.Extern.{Extern}
use satan_attrd.Types.Attribute
use satan_attrd.Types.Attribute.{AttributeName}
use satan_attrd.Types.Scopes
use satan_attrd.Types.Scopes.{Scope}
use satan_attrd.Store.Event.{EventInsert, in_range, validate}
use satan_attrd.Store.Id.{i32_text}
use satan_attrd.Store.Database.{lift, statement}
use satan_attrd.Store.Operations.{
  row_of, insert_row, insert_event, upsert_attribute, bump_last_decay_at,
  lookup_prior_events_by_intervention, max_seq_for_run,
}
use satan_attrd.Store.Settings.{get_setting_bool}
use satan_attrd.Rpc.{audit_inbox_channel, insert_audit, notify, enqueue_audit_event}
use satan_attrd.Dispatcher.Prior.{
  insert, actual, gather_into, gather_prior_actuals, empty_projection,
}
use satan_attrd.Dispatcher.Input.{Projection}
use satan_attrd.RunLoop.Read.{read_projection, derive_prior_classification}
use satan_attrd.RunLoop.Process.{delete_row, delete_outcome_row}
use satan_attrd.RunLoop.Drain.{delete_reply}
use satan_attrd.RunLoop.Audit.{build_audit_payload}
use satan_attrd.RunLoop.Write.{project, store_event, store_events}
use satan_attrd.Daemon.Writes.{
  here, later, inserts, upserts, stamps, deletes, audits, notifies, answers,
}
use satan_attrd.Daemon.Runs.{Moved-refl, Runs, bind-Runs, statement-Runs, if-Runs}

module _ {X : Extern} where
  pub insert_event-Runs : (ev : EventInsert X) → Runs (insert_event ev)
  unfolding insert_event
  insert_event-Runs ev = bind-Runs (lift (validate ev)) _ Moved-refl λ _.
      bind-Runs (statement (insert_row (row_of ev))) _
        (statement-Runs (insert_row (row_of ev)) (λ db. later here (inserts (row_of ev))))
        λ _. Moved-refl

  upsert_attribute-Runs :
      (scope : Scope) (name : AttributeName) (v : F64) (e : X.Value) (t : X.DateTime)
      → Runs (upsert_attribute {X = X} scope name v e t)
  unfolding upsert_attribute
  upsert_attribute-Runs scope name v e t =
      if-Runs (in_range v) _ _
        (statement-Runs _
          (λ db. later here (upserts (Scopes.as_str scope) (Attribute.as_str name) v t e)))
        Moved-refl

  pub bump_last_decay_at-Runs :
      (scope : Scope) (name : AttributeName) (now : X.DateTime)
      → Runs (bump_last_decay_at {X = X} scope name now)
  unfolding bump_last_decay_at
  bump_last_decay_at-Runs scope name now =
      statement-Runs _ (λ db. later here (stamps (Scopes.as_str scope) (Attribute.as_str name) now))

  pub project-Runs : (ev : EventInsert X) → Runs (project ev)
  unfolding project
  project-Runs ev =
      if-Runs ev.disabled _ _ Moved-refl
        (upsert_attribute-Runs ev.scope ev.name ev.new_value ev.evidence_json ev.ts)

  pub enqueue_audit_event-Runs : (payload : X.Value) → Runs (enqueue_audit_event {X = X} payload)
  unfolding enqueue_audit_event
  enqueue_audit_event-Runs payload =
      bind-Runs (statement (insert_audit payload)) _
        (statement-Runs (insert_audit payload) (λ db. later here (audits payload)))
        λ id.
          bind-Runs (statement (notify audit_inbox_channel (i32_text id))) _
            (statement-Runs (notify audit_inbox_channel (i32_text id))
              (λ db. later here (notifies audit_inbox_channel (i32_text id))))
            λ _. Moved-refl

  store_event-Runs : (ev : EventInsert X) → Runs (store_event ev)
  unfolding store_event
  store_event-Runs ev = bind-Runs (insert_event ev) _ (insert_event-Runs ev) λ _.
      bind-Runs (project ev) _ (project-Runs ev)
        λ _. enqueue_audit_event-Runs (build_audit_payload ev)

  pub store_events-Runs : (evs : List (EventInsert X)) → Runs (store_events evs)
  unfolding store_events
  store_events-Runs [] = Moved-refl
  store_events-Runs (ev ∷ evs) =
      bind-Runs (store_event ev) _ (store_event-Runs ev) λ _. store_events-Runs evs

  pub delete_outcome_row-Runs : (id : ℤ) → Runs (delete_outcome_row {X = X} id)
  unfolding delete_outcome_row
  delete_outcome_row-Runs id = statement-Runs (delete_row id) (λ db. later here (deletes id))

  pub delete_reply-Runs : (id : ℤ) (o : Option String) → Runs (delete_reply {X = X} id o)
  unfolding delete_reply
  delete_reply-Runs id none = Moved-refl
  delete_reply-Runs id (some text) = statement-Runs _ (λ db. later here (answers id))

  pub read_projection-Runs : Runs (read_projection {X = X})
  unfolding read_projection
  read_projection-Runs =
      bind-Runs (statement _) _ (statement-Runs _ (λ db. here)) (λ rows. Moved-refl)

  pub derive_prior_classification-Runs :
      (id : String) → Runs (derive_prior_classification {X = X} id)
  unfolding derive_prior_classification
  derive_prior_classification-Runs id =
      bind-Runs (statement _) _ (statement-Runs _ (λ db. here)) (λ row. Moved-refl)

  gather_into-Runs :
      (id : String) (names : List AttributeName) (out : Projection)
      → Runs (gather_into {X = X} id names out)
  unfolding gather_into lookup_prior_events_by_intervention
  gather_into-Runs id [] out = Moved-refl
  gather_into-Runs id (name ∷ names) out =
      bind-Runs (lookup_prior_events_by_intervention id name) _ (statement-Runs _ (λ db. here))
        λ rows. gather_into-Runs id names (insert name (actual rows) out)

  pub gather_prior_actuals-Runs :
      (id : String) (names : List AttributeName) → Runs (gather_prior_actuals {X = X} id names)
  unfolding gather_prior_actuals
  gather_prior_actuals-Runs id names = gather_into-Runs id names empty_projection

  pub max_seq_for_run-Runs : (run_id : String) → Runs (max_seq_for_run {X = X} run_id)
  unfolding max_seq_for_run
  max_seq_for_run-Runs run_id = statement-Runs _ (λ db. here)

  pub get_setting_bool-Runs : (name : String) (b : Bool) → Runs (get_setting_bool {X = X} name b)
  unfolding get_setting_bool
  get_setting_bool-Runs name b =
      bind-Runs (statement _) _ (statement-Runs _ (λ db. here)) (λ row. Moved-refl)
