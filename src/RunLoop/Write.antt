-- ===== src/RunLoop/Write.antt =====
-- src/run_loop.rs: the loop that stores the events of a dispatch.
pub mod Stored
pub mod Derived
use satan_attrd.Prelude.{List, [], ◌∷◌, if◌then◌else◌}
use satan_attrd.Prelude.Int.{ℤ}
use satan_attrd.Extern.{Extern}
use satan_attrd.Store.Event.{EventInsert}
use satan_attrd.Store.Database.{Db, pure, ◌>>◌}
use satan_attrd.Store.Operations.{insert_event, upsert_attribute}
use satan_attrd.Rpc.{enqueue_audit_event}
use satan_attrd.RunLoop.Audit.{build_audit_payload}

module _ {X : Extern} where
  -- The `if !ev.disabled` of the loop.
  unfoldable pub project : EventInsert X → Db X (Unit {0})
  project ev =
      if ev.disabled
      then pure tt
      else upsert_attribute ev.scope ev.name ev.new_value ev.evidence_json ev.ts

  -- The body of the loop over the events.
  unfoldable pub store_event : EventInsert X → Db X ℤ
  store_event ev = do insert_event ev; project ev; enqueue_audit_event (build_audit_payload ev)

  unfoldable pub store_events : List (EventInsert X) → Db X (Unit {0})
  store_events [] = pure tt
  store_events (ev ∷ evs) = do store_event ev; store_events evs
