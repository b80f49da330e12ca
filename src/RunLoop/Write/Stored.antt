-- ===== src/RunLoop/Write/Stored.antt =====
-- The loop that stores the events of a dispatch, on a connection that does not fail.
use satan_attrd.Prelude.{
  String, true, ◌≡◌, refl, sym, ap, ◌∙◌, inl, inr, List, [], ◌∷◌, ◌++◌, All, map, Bool-cases,
  if◌then◌else◌, arith,
}
use mathlib.Core.List.{append-nil, append_assoc}
use mathlib.Core.Path.{subst}
use satan_attrd.Prelude.Int.{ℤ, pos, ◌+ℤ◌, leb_ℤ}
use satan_attrd.Error.{ok}
use satan_attrd.Extern.{Extern}
use satan_attrd.Types.Attribute
use satan_attrd.Types.Scopes
use satan_attrd.Store.Counter.{i32_max}
use satan_attrd.Store.Event.{EventInsert, in_range, validate}
use satan_attrd.Store.Id.{i32_text}
use satan_attrd.Store.Database.{AttributeRow, Database, lift, statement}
use satan_attrd.Store.Database.Calm.{calm, statement-calm, bind_ok}
use satan_attrd.Store.Operations.{
  row_of, event_id, insert_row, insert_event, put_row, upsert_row, upsert_attribute,
}
use satan_attrd.Store.Operations.Log.{IsLog, IsApart, IsLog-before, insert_row_new}
use satan_attrd.Rpc.{audit_inbox_channel, insert_audit, notify, enqueue_audit_event}
use satan_attrd.RunLoop.Audit.{build_audit_payload}
use satan_attrd.RunLoop.Write.{project, store_event, store_events}

module _ {X : Extern} where
  -- The attributes after an event: only one that is not disabled is projected.
  abbrev pub projected : EventInsert X → List (AttributeRow X) → List (AttributeRow X)
  projected ev rows =
      if ev.disabled
      then rows
      else put_row (Scopes.as_str ev.scope) (Attribute.as_str ev.name) ev.new_value ev.ts
          ev.evidence_json rows

  abbrev pub all_projected : List (EventInsert X) → List (AttributeRow X) → List (AttributeRow X)
  all_projected [] rows = rows
  all_projected (ev ∷ evs) rows = all_projected evs (projected ev rows)

  -- The audit events, numbered from the next id on.
  abbrev pub numbered : ℤ → List (EventInsert X) → List (ℤ × X.Value)
  numbered n [] = []
  numbered n (ev ∷ evs) = (n, build_audit_payload ev) ∷ numbered (n +ℤ pos 1) evs

  abbrev pub after_ids : ℤ → List (EventInsert X) → ℤ
  after_ids n [] = n
  after_ids n (ev ∷ evs) = after_ids (n +ℤ pos 1) evs

  abbrev pub announced : ℤ → List (EventInsert X) → List (String × String)
  announced n [] = []
  announced n (ev ∷ evs) = (audit_inbox_channel, i32_text n) ∷ announced (n +ℤ pos 1) evs

  -- The tables with the events logged, projected and queued for audit, each in order.
  abbrev pub stored : List (EventInsert X) → Database X → Database X
  stored evs db = record db {
    events = db.events ++ map row_of evs;
    attributes = all_projected evs db.attributes;
    audit_inbox = db.audit_inbox ++ numbered db.next_audit_id evs;
    next_audit_id = after_ids db.next_audit_id evs;
    notifications = db.notifications ++ announced db.next_audit_id evs;
  }

  -- The audit ids that the events take are below the end of `i32`.
  abbrev pub HasIds : ℤ → List (EventInsert X) → Type 0
  HasIds n [] = Unit
  HasIds n (ev ∷ evs) = (leb_ℤ n i32_max ≡ true) × HasIds (n +ℤ pos 1) evs

  -- The events hold values in [0, 1], their ids and numbers are new, and there are ids for audit.
  pub record IsStorable (evs : List (EventInsert X)) (db : Database X) : Type 0 where
    pub valid : All (λ ev. validate ev ≡ ok tt) evs
    pub new : IsLog (db.events ++ map row_of evs)
    pub ids : HasIds db.next_audit_id evs

  new_in_range : (ev : EventInsert X) → validate ev ≡ ok tt → in_range ev.new_value ≡ true
  unfolding validate
  new_in_range ev h = ground arith

  insert_event-calm :
      (ev : EventInsert X) (db : Database X)
      → validate ev ≡ ok tt
      → insert_row (row_of ev) db ≡ (ok tt, record db { events = db.events ++ row_of ev ∷ [] })
      → insert_event ev (calm db)
        ≡ (ok (event_id ev), calm (record db { events = db.events ++ row_of ev ∷ [] }))
  unfolding insert_event
  insert_event-calm ev db v new =
      bind_ok (lift (validate ev)) _ (calm db) (calm db) tt (ap (λ r. (r, calm db)) v)
      ∙ bind_ok (statement (insert_row (row_of ev))) _ (calm db) _ tt
          (statement-calm (insert_row (row_of ev)) db _ (ok tt) new)

  upsert_row-in :
      (ev : EventInsert X) (db : Database X)
      → in_range ev.new_value ≡ true
      → upsert_row
          (Scopes.as_str ev.scope)
          (Attribute.as_str ev.name)
          ev.new_value
          ev.ts
          ev.evidence_json
          db
        ≡ (
          ok tt,
          record db {
            attributes =
                put_row
                  (Scopes.as_str ev.scope)
                  (Attribute.as_str ev.name)
                  ev.new_value
                  ev.ts
                  ev.evidence_json
                  db.attributes;
          },
        )
  unfolding upsert_row
  upsert_row-in ev db h = rw h refl

  upsert-calm :
      (ev : EventInsert X) (db : Database X)
      → in_range ev.new_value ≡ true
      → upsert_attribute ev.scope ev.name ev.new_value ev.evidence_json ev.ts (calm db) ≡ (
        ok tt,
        calm (record db {
          attributes =
              put_row
                (Scopes.as_str ev.scope)
                (Attribute.as_str ev.name)
                ev.new_value
                ev.ts
                ev.evidence_json
                db.attributes;
        }),
      )
  unfolding upsert_attribute
  upsert-calm ev db h = rw h (
      statement-calm
        (upsert_row (Scopes.as_str ev.scope) (Attribute.as_str ev.name) ev.new_value ev.ts
          ev.evidence_json)
        db _ (ok tt) (upsert_row-in ev db h))

  project-calm :
      (ev : EventInsert X) (db : Database X)
      → in_range ev.new_value ≡ true
      → project ev (calm db) ≡ (ok tt, calm (record db { attributes = projected ev db.attributes }))
  unfolding project
  project-calm ev db h = elim (Bool-cases ev.disabled) [
    | inl off ↦ rw off refl
    | inr on ↦ rw on (upsert-calm ev db h)
  ]

  enqueue-calm :
      (payload : X.Value) (db : Database X)
      → leb_ℤ db.next_audit_id i32_max ≡ true
      → enqueue_audit_event payload (calm db) ≡ (
        ok db.next_audit_id,
        calm (record db {
          audit_inbox = db.audit_inbox ++ (db.next_audit_id, payload) ∷ [];
          next_audit_id = db.next_audit_id +ℤ pos 1;
          notifications = db.notifications ++ (audit_inbox_channel, i32_text db.next_audit_id) ∷ [];
        }),
      )
  unfolding enqueue_audit_event insert_audit notify statement
  enqueue-calm payload db h = rw h refl

  -- The tables with one event stored.
  abbrev pub stored_one : EventInsert X → Database X → Database X
  stored_one ev db = record db {
    events = db.events ++ row_of ev ∷ [];
    attributes = projected ev db.attributes;
    audit_inbox = db.audit_inbox ++ (db.next_audit_id, build_audit_payload ev) ∷ [];
    next_audit_id = db.next_audit_id +ℤ pos 1;
    notifications = db.notifications ++ (audit_inbox_channel, i32_text db.next_audit_id) ∷ [];
  }

  store_event-calm :
      (ev : EventInsert X) (db : Database X)
      → validate ev ≡ ok tt
      → All (λ r. IsApart r (row_of ev)) db.events
      → leb_ℤ db.next_audit_id i32_max ≡ true
      → store_event ev (calm db) ≡ (ok db.next_audit_id, calm (stored_one ev db))
  unfolding store_event
  store_event-calm ev db v new room =
      let db1 : Database X = record db { events = db.events ++ row_of ev ∷ [] } in
      let db2 : Database X = record db1 { attributes = projected ev db.attributes } in
      bind_ok (insert_event ev) _ (calm db) (calm db1) (event_id ev)
        (insert_event-calm ev db v (insert_row_new (row_of ev) db new))
      ∙ bind_ok (project ev) _ (calm db1) (calm db2) tt (project-calm ev db1 (new_in_range ev v))
      ∙ enqueue-calm (build_audit_payload ev) db2 room

  pub stored_step :
      (ev : EventInsert X) (evs : List (EventInsert X)) (db : Database X)
      → stored evs (stored_one ev db) ≡ stored (ev ∷ evs) db
  stored_step ev evs db i = record (stored (ev ∷ evs) db) {
    events = append_assoc db.events (row_of ev ∷ []) (map row_of evs) i;
    audit_inbox =
        append_assoc db.audit_inbox ((db.next_audit_id, build_audit_payload ev) ∷ [])
          (numbered (db.next_audit_id +ℤ pos 1) evs) i;
    notifications =
        append_assoc db.notifications ((audit_inbox_channel, i32_text db.next_audit_id) ∷ [])
          (announced (db.next_audit_id +ℤ pos 1) evs) i;
  }

  pub stored_none : (db : Database X) → db ≡ stored [] db
  stored_none db i = record db {
    events = sym (append-nil db.events) i;
    audit_inbox = sym (append-nil db.audit_inbox) i;
    notifications = sym (append-nil db.notifications) i;
  }

  pub rest-IsStorable :
      (ev : EventInsert X) (evs : List (EventInsert X)) (db : Database X)
      → IsStorable (ev ∷ evs) db
      → IsStorable evs (stored_one ev db)
  rest-IsStorable ev evs db h = record {
    valid = h.valid.1;
    new = subst IsLog (sym (append_assoc db.events (row_of ev ∷ []) (map row_of evs))) h.new;
    ids = h.ids.1;
  }

  -- On a connection that does not fail, the loop stores events that are storable one after the
  -- other: each is logged, projected unless it is disabled, queued for audit and announced.
  pub store_events-calm :
      (evs : List (EventInsert X)) (db : Database X)
      → IsStorable evs db
      → store_events evs (calm db) ≡ (ok tt, calm (stored evs db))
  unfolding store_events
  store_events-calm [] db h = ap (λ d. (ok tt, calm d)) (stored_none db)
  store_events-calm (ev ∷ evs) db h =
      bind_ok (store_event ev) _ (calm db) (calm (stored_one ev db)) db.next_audit_id (
        store_event-calm ev db h.valid.0 (IsLog-before db.events (map row_of evs) (row_of ev) h.new)
          h.ids.0)
      ∙ store_events-calm evs (stored_one ev db) (rest-IsStorable ev evs db h)
      ∙ ap (λ d. (ok tt, calm d)) (stored_step ev evs db)
