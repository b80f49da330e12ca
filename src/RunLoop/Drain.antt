-- ===== src/RunLoop/Drain.antt =====
-- src/run_loop.rs: the drains, the notifications and the replies.
use satan_attrd.Prelude.{String, not, Option, none, some, List, [], ◌∷◌, map}
use satan_attrd.Prelude.Int.{ℤ, eqb_ℤ, leb_ℤ}
use satan_attrd.Error.{ok}
use satan_attrd.Extern.{Extern}
use satan_attrd.Store.Database.{Database, Db, pure, ◌>>=◌, statement}
use satan_attrd.Store.Operations.{select, first, order_by}
use satan_attrd.Rpc.Numbers.{parse_i32}
use satan_attrd.Steps
use satan_attrd.Steps.{Step, Ended, done, failed, panicked}
use satan_attrd.RunLoop.Loop.{RunLoop, store}
use satan_attrd.RunLoop.Process.{process_outcome_row}

module _ {X : Extern} where
  -- `if let Err(e) = …`: an error is logged, a panic goes on.
  abbrev pub logged : Ended (Unit {0}) × RunLoop X → Ended (Unit {0}) × RunLoop X
  logged (done tt, s) = (done tt, s)
  logged (failed e, s) = (done tt, s)
  logged (panicked, s) = (panicked, s)

  -- The loop over the ids of a drain.
  unfoldable pub each : (ℤ → Step (RunLoop X) (Unit {0})) → List ℤ → Step (RunLoop X) (Unit {0})
  each process [] s = (done tt, s)
  each process (id ∷ ids) s = Steps.continue (λ _. each process ids) (logged (process id s))

  abbrev pub pending : Database X → List ℤ
  pending db = order_by leb_ℤ (map (λ r. r.id) (select (λ r. not r.claimed) db.outcome_inbox))

  unfoldable pub drain_outcome_inbox : Step (RunLoop X) (Unit {0})
  drain_outcome_inbox s =
      Steps.continue (each process_outcome_row) (store (statement λ db. (ok (pending db), db)) s)

  abbrev reply_of : ℤ → Database X → Option String
  reply_of inbox_id db = first (map (λ r. r.1) (select (λ r. eqb_ℤ r.0 inbox_id) db.audit_replies))

  -- A reply is logged and deleted.
  unfoldable pub delete_reply : ℤ → Option String → Db X (Unit {0})
  delete_reply inbox_id none = pure tt
  delete_reply inbox_id (some msg) = statement λ db.
      (ok tt, record db { audit_replies = select (λ r. not (eqb_ℤ r.0 inbox_id)) db.audit_replies })

  unfoldable pub process_reply_row : ℤ → Step (RunLoop X) (Unit {0})
  process_reply_row inbox_id =
      store (do row ← statement λ db. (ok (reply_of inbox_id db), db); delete_reply inbox_id row)

  unfoldable pub drain_audit_replies : Step (RunLoop X) (Unit {0})
  drain_audit_replies s =
      Steps.continue (each process_reply_row)
        (store (statement λ db. (ok (order_by leb_ℤ (map (λ r. r.0) db.audit_replies)), db)) s)

  -- A notification whose payload is no `i32` is logged and dropped.
  abbrev pub notified : (ℤ → Step (RunLoop X) (Unit {0})) → Option ℤ → Step (RunLoop X) (Unit {0})
  notified process none s = (done tt, s)
  notified process (some id) s = logged (process id s)

  unfoldable pub handle_outcome_notify : String → Step (RunLoop X) (Unit {0})
  handle_outcome_notify payload = notified process_outcome_row (parse_i32 payload)

  unfoldable pub handle_reply_notify : String → Step (RunLoop X) (Unit {0})
  handle_reply_notify payload = notified process_reply_row (parse_i32 payload)
