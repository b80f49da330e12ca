-- ===== src/Store/Operations/Preserves.antt =====
-- What the operations that write events and audit rows leave as it is.
use satan_attrd.Prelude.{Bool, true, false, ◌&&◌, List, String, ◌≡◌, refl, if◌then◌else◌, str_eq}
use satan_attrd.Prelude.Int.{ℤ, eqb_ℤ, leb_ℤ}
use satan_attrd.Extern.{Extern}
use satan_attrd.Store.Counter.{i32_max}
use satan_attrd.Store.Event.{EventInsert, validate}
use satan_attrd.Store.Database.{EventRow, Database, lift, statement}
use satan_attrd.Store.Database.Preserves.{Preserves, bind-Preserves, statement-Preserves}
use satan_attrd.Store.Operations.{any, row_of, insert_row, insert_event}
use satan_attrd.Store.Id.{i32_text}
use satan_attrd.Rpc.{insert_audit, notify, enqueue_audit_event, audit_inbox_channel}

-- A view that does not look at the events, the audit queue and the notifications.
pub record IsBeside {X : Extern} {V : Type 0} (view : Database X → V) : Type 0 where
  pub events :
      (db : Database X) (rows : List (EventRow X)) → view (record db { events = rows }) ≡ view db
  pub audit :
      (db : Database X) (rows : List (ℤ × X.Value)) (n : ℤ)
      → view (record db { audit_inbox = rows; next_audit_id = n }) ≡ view db
  pub notifications :
      (db : Database X) (l : List (String × String))
      → view (record db { notifications = l }) ≡ view db

module _ {X : Extern} {V : Type 0} (view : Database X → V) (h : IsBeside view) where
  pub split_preserves :
      {A : Type 0} (b : Bool) (p q : A × Database X) (db : Database X)
      → view p.1 ≡ view db
      → view q.1 ≡ view db
      → view (if b then p else q).1 ≡ view db
  split_preserves true p q db hp hq = hp
  split_preserves false p q db hp hq = hq

  insert_row_preserves : (row : EventRow X) (db : Database X) → view (insert_row row db).1 ≡ view db
  unfolding insert_row
  insert_row_preserves row db =
      split_preserves (any (λ r. str_eq r.id row.id) db.events) _ _ db refl (
        split_preserves (any (λ r. str_eq r.run_id row.run_id && eqb_ℤ r.seq row.seq) db.events) _ _
          db refl (h.events db _))

  pub insert_event-Preserves : (ev : EventInsert X) → Preserves view (insert_event ev)
  unfolding insert_event
  insert_event-Preserves ev =
      bind-Preserves view (lift (validate ev)) _ (λ w. refl)
        λ _.
          bind-Preserves view (statement (insert_row (row_of ev))) _
            (statement-Preserves view (insert_row (row_of ev)) (insert_row_preserves (row_of ev)))
            λ _ w. refl

  insert_audit_preserves : (v : X.Value) (db : Database X) → view (insert_audit v db).1 ≡ view db
  unfolding insert_audit
  insert_audit_preserves v db =
      split_preserves (leb_ℤ db.next_audit_id i32_max) _ _ db (h.audit db _ _) refl

  notify_preserves :
      (channel text : String) (db : Database X) → view (notify channel text db).1 ≡ view db
  unfolding notify
  notify_preserves channel text db = h.notifications db _

  pub enqueue_audit_event-Preserves : (v : X.Value) → Preserves view (enqueue_audit_event v)
  unfolding enqueue_audit_event
  enqueue_audit_event-Preserves v =
      bind-Preserves view (statement (insert_audit v)) _
        (statement-Preserves view (insert_audit v) (insert_audit_preserves v))
        λ id.
          bind-Preserves view (statement (notify audit_inbox_channel (i32_text id))) _
            (statement-Preserves view (notify audit_inbox_channel (i32_text id))
              (notify_preserves audit_inbox_channel (i32_text id)))
            λ _ w. refl
