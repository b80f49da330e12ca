-- ===== src/RunLoop/Process/Stuck.antt =====
-- A handler that does not finish leaves its row in the inbox.
use satan_attrd.Prelude.{
  String, Bool, true, false, ◌≡◌, ◌∙◌, ap, refl, none, some, Option, List, [], ◌∷◌, map,
  if◌then◌else◌,
}
use satan_attrd.Prelude.Int.{ℤ}
use satan_attrd.F64.{F64}
use satan_attrd.Extern.{Extern}
use satan_attrd.Types.Attribute
use satan_attrd.Types.Attribute.{AttributeName}
use satan_attrd.Types.Scopes
use satan_attrd.Types.Scopes.{Scope}
use satan_attrd.Steps.Keeps.{KeptUnlessDone, KeepsUnlessDone, bind-KeepsUnlessDone}
use satan_attrd.Store.Event.{EventInsert, in_range}
use satan_attrd.Store.Database.{InboxRow, Database, Db, statement}
use satan_attrd.Store.Database.Preserves.{Preserves, bind-Preserves, statement-Preserves}
use satan_attrd.Store.Operations.{insert_event, upsert_row, upsert_attribute}
use satan_attrd.Store.Operations.Preserves.{
  IsBeside, insert_event-Preserves, enqueue_audit_event-Preserves, split_preserves,
}
use satan_attrd.Rpc.{Checked, accepted, refused, check_schema_major}
use satan_attrd.RunLoop.Payload.{Parsed, accept, reject, InboxPayload}
use satan_attrd.RunLoop.Parse.{parse_inbox_payload}
use satan_attrd.RunLoop.Audit.{build_audit_payload}
use satan_attrd.RunLoop.Write.{project, store_event, store_events}
use satan_attrd.RunLoop.Loop.{RunLoop, store}
use satan_attrd.RunLoop.Read.{read_projection}
use satan_attrd.RunLoop.Process.{
  is_unclaimed, claim, delete_row, delete_outcome_row, build_events, apply, handle_checked, handle,
  handle_claimed, process_outcome_row,
}
use satan_attrd.RunLoop.Process.Views.{seen, store-Keeps}
use satan_attrd.RunLoop.Process.Reads.{read_projection-Preserves, build_events-Keeps}

-- The ids of the inbox.
abbrev pub ids_of : {X : Extern} → Database X → List ℤ
ids_of db = map (λ r. r.id) db.outcome_inbox

module _ {X : Extern} where
  abbrev marked : Bool → InboxRow X → InboxRow X
  marked b r = if b then record r { claimed = true } else r

  id_marked : (b : Bool) (r : InboxRow X) → (marked b r).id ≡ r.id
  id_marked true r = refl
  id_marked false r = refl

  ids_marked :
      (p : InboxRow X → Bool) (rows : List (InboxRow X))
      → map (λ r. r.id) (map (λ r. marked (p r) r) rows) ≡ map (λ r. r.id) rows
  ids_marked p [] = refl
  ids_marked p (r ∷ rows) =
      ap (λ i. i ∷ map (λ q. q.id) (map (λ q. marked (p q) q) rows)) (id_marked (p r) r)
      ∙ ap (λ l. r.id ∷ l) (ids_marked p rows)

  claim_keeps : (id : ℤ) (db : Database X) → ids_of (claim id db).1 ≡ ids_of db
  unfolding claim
  claim_keeps id db = ids_marked (is_unclaimed id) db.outcome_inbox

  ids_of-IsBeside : IsBeside (ids_of {X = X})
  ids_of-IsBeside = record {
    events = λ db rows. refl;
    audit = λ db rows n. refl;
    notifications = λ db l. refl;
  }

  upsert_row_keeps :
      (scope name : String) (v : F64) (t : X.DateTime) (e : X.Value) (db : Database X)
      → ids_of (upsert_row scope name v t e db).1 ≡ ids_of db
  unfolding upsert_row
  upsert_row_keeps scope name v t e db =
      split_preserves ids_of ids_of-IsBeside (in_range v) _ _ db refl refl

  either-Preserves :
      (b : Bool) (m n : Db X (Unit {0}))
      → Preserves ids_of m
      → Preserves ids_of n
      → Preserves ids_of (if b then m else n)
  either-Preserves true m n h k = h
  either-Preserves false m n h k = k

  upsert-Preserves :
      (scope : Scope) (name : AttributeName) (v : F64) (e : X.Value) (t : X.DateTime)
      → Preserves ids_of (upsert_attribute {X = X} scope name v e t)
  unfolding upsert_attribute
  upsert-Preserves scope name v e t =
      either-Preserves (in_range v) _ _
        (statement-Preserves ids_of _
          (upsert_row_keeps (Scopes.as_str scope) (Attribute.as_str name) v t e))
        (λ w. refl)

  project-Preserves : (ev : EventInsert X) → Preserves ids_of (project ev)
  unfolding project
  project-Preserves ev =
      either-Preserves ev.disabled _ _ (λ w. refl)
        (upsert-Preserves ev.scope ev.name ev.new_value ev.evidence_json ev.ts)

  store_event-Preserves : (ev : EventInsert X) → Preserves ids_of (store_event ev)
  unfolding store_event
  store_event-Preserves ev =
      bind-Preserves ids_of (insert_event ev) _ (insert_event-Preserves ids_of ids_of-IsBeside ev)
        λ _.
          bind-Preserves ids_of (project ev) _ (project-Preserves ev)
            λ _. enqueue_audit_event-Preserves ids_of ids_of-IsBeside (build_audit_payload ev)

  store_events-Preserves : (evs : List (EventInsert X)) → Preserves ids_of (store_events evs)
  unfolding store_events
  store_events-Preserves [] = λ w. refl
  store_events-Preserves (ev ∷ evs) =
      bind-Preserves ids_of (store_event ev) _ (store_event-Preserves ev)
        λ _. store_events-Preserves evs

  delete_kept :
      (id : ℤ) (s : RunLoop X) (faults : List Bool)
      → KeptUnlessDone (seen ids_of) s (
          store
            (delete_outcome_row id)
            (record s { world = record { db = s.world.db; faults = faults } }))
  unfolding store delete_outcome_row delete_row statement
  delete_kept id s [] = tt
  delete_kept id s (true ∷ later) = refl
  delete_kept id s (false ∷ later) = tt

  delete-KeepsUnlessDone :
      (id : ℤ) → KeepsUnlessDone (seen ids_of) (store (delete_outcome_row {X = X} id))
  delete-KeepsUnlessDone id s = delete_kept id s s.world.faults

  apply-KeepsUnlessDone : (id : ℤ) (p : InboxPayload X) → KeepsUnlessDone (seen ids_of) (apply id p)
  unfolding apply
  apply-KeepsUnlessDone id p =
      bind-KeepsUnlessDone (seen ids_of) (store read_projection) _
        (store-Keeps ids_of _ (read_projection-Preserves ids_of))
        λ (snap, proj).
          bind-KeepsUnlessDone (seen ids_of) (build_events p snap proj) _
            (build_events-Keeps ids_of p snap proj)
            λ evs.
              bind-KeepsUnlessDone (seen ids_of) (store (store_events evs)) _
                (store-Keeps ids_of _ (store_events-Preserves evs)) λ _. delete-KeepsUnlessDone id

  checked-KeepsUnlessDone :
      (id : ℤ) (c : Checked) (r : Parsed (InboxPayload X))
      → KeepsUnlessDone (seen ids_of) (handle_checked id c r)
  checked-KeepsUnlessDone id (refused w) r = delete-KeepsUnlessDone id
  checked-KeepsUnlessDone id accepted (reject w) = delete-KeepsUnlessDone id
  checked-KeepsUnlessDone id accepted (accept p) = apply-KeepsUnlessDone id p

  claimed-KeepsUnlessDone :
      (id : ℤ) (o : Option X.Value) → KeepsUnlessDone (seen ids_of) (handle_claimed {X = X} id o)
  unfolding handle
  claimed-KeepsUnlessDone id none = λ s. tt
  claimed-KeepsUnlessDone id (some v) =
      checked-KeepsUnlessDone id (check_schema_major X v) (parse_inbox_payload X v)

  -- Whatever the row holds and whichever statements fail, a handler that ends in an error or a
  -- panic leaves the ids of the inbox as they were: no row is dropped without being handled.
  pub process_unfinished :
      (id : ℤ) (s : RunLoop X) → KeptUnlessDone (seen ids_of) s (process_outcome_row id s)
  unfolding process_outcome_row
  process_unfinished id =
      bind-KeepsUnlessDone (seen ids_of) (store (statement (claim id))) _
        (store-Keeps ids_of _ (statement-Preserves ids_of (claim id) (claim_keeps id)))
        (claimed-KeepsUnlessDone id)
