-- ===== src/Daemon/Sound.antt =====
-- What holds of the tables after every statement of the daemon, whatever the broker does between
-- them.
use satan_attrd.Prelude.{
  String, Bool, true, false, refl, ◌∙◌, ap, sym, inl, inr, List, [], ◌∷◌, ◌++◌, All, All-append,
  All-map, Bool-cases, ◌&&◌, str_eq, if◌then◌else◌, arith,
}
use mathlib.Core.List.{append-nil, append_assoc}
use satan_attrd.Prelude.Int.{ℤ, pos, ◌+ℤ◌, ◌<ℤ◌, +ℤ_parts, leb_ℤ, eqb_ℤ}
use satan_attrd.F64.{F64}
use satan_attrd.Extern.{Extern}
use satan_attrd.Store.Counter.{i32_max}
use satan_attrd.Error.{ok}
use satan_attrd.Store.Database.{InboxRow, EventRow, Database}
use satan_attrd.Store.Operations.{any, select, is_key, insert_row, upsert_row}
use satan_attrd.Store.Operations.Values.{AllInRange, upsert_row-AllInRange, stamped-IsInRange}
use satan_attrd.Store.Operations.Log.{IsLog, insert_row-IsLog, Extends}
use satan_attrd.Store.Operations.Keys.{IsKeyed, upsert_row-IsKeyed, stamped-IsKeyed}
use satan_attrd.Store.Event.{in_range}
use satan_attrd.Rpc.{insert_audit, notify}
use satan_attrd.RunLoop.Process.{claim, delete_row}
use satan_attrd.Daemon.Writes.{
  Write, inserts, upserts, stamps, claims, deletes, audits, notifies, answers, sets,
}
use satan_attrd.Daemon.Moves.{
  Move, Moves, writes, submits, takes, rejects, reads, waits, start, next,
}

below_next :
    {V : Type 0} (n : ℤ) (rows : List (ℤ × V))
    → All (λ a. a.0 <ℤ n) rows
    → All (λ a. a.0 <ℤ n +ℤ pos 1) rows
below_next n rows h = All-map _ _ (λ a lt. omega (arith, +ℤ_parts n (pos 1))) rows h

pub select-All :
    {A : Type 0} (P : A → Type 0) (test : A → Bool) (xs : List A)
    → All P xs
    → All P (select test xs)
unfolding select
select-All P test [] h = tt
select-All {A} P test (x ∷ xs) h = kept (test x) (select test xs) h.0 (select-All P test xs h.1)
  where
    kept : (b : Bool) (rest : List A) → P x → All P rest → All P (if b then x ∷ rest else rest)
    kept true rest p q = (p, q)
    kept false rest p q = q

module _ {X : Extern} where
  -- The queue of audit events holds ids below the next one.
  abbrev pub IsSerial : Database X → Type 0
  IsSerial db = All (λ a. a.0 <ℤ db.next_audit_id) db.audit_inbox

  pub record IsSound (db : Database X) : Type 0 where
    pub values : AllInRange db
    pub keys : IsKeyed db.attributes
    pub log : IsLog db.events
    pub serial : IsSerial db

  insert_audit-IsSerial :
      (v : X.Value) (db : Database X) → IsSerial db → IsSerial (insert_audit v db).1
  unfolding insert_audit
  insert_audit-IsSerial v db h = elim (Bool-cases (leb_ℤ db.next_audit_id i32_max)) [
    | inl room ↦ rw room (
        All-append _ db.audit_inbox _ (below_next db.next_audit_id db.audit_inbox h)
          (omega (arith, +ℤ_parts db.next_audit_id (pos 1)), tt))
    | inr full ↦ rw full h
  ]

  pub either :
      {A : Type 0} (P : Database X → Type 0) (b : Bool) (p q : A × Database X)
      → P p.1
      → P q.1
      → P (if b then p else q).1
  either P true p q h k = h
  either P false p q h k = k

  -- What does not look at the log.
  pub insert_row_beside :
      (P : Database X → Type 0) (row : EventRow X) (db : Database X)
      → P db
      → P (record db { events = db.events ++ row ∷ [] })
      → P (insert_row row db).1
  unfolding insert_row
  insert_row_beside P row db h k =
      either P (any (λ r. str_eq r.id row.id) db.events) (_, db)
        (if any (λ r. str_eq r.run_id row.run_id && eqb_ℤ r.seq row.seq) db.events
          then (_, db)
          else (ok tt, record db { events = db.events ++ row ∷ [] }))
        h
        (either P (any (λ r. str_eq r.run_id row.run_id && eqb_ℤ r.seq row.seq) db.events) (_, db)
          (ok tt, record db { events = db.events ++ row ∷ [] }) h k)

  insert_row-IsSound :
      (row : EventRow X) (db : Database X) → IsSound db → IsSound (insert_row row db).1
  insert_row-IsSound row db s = record {
    values = insert_row_beside AllInRange row db s.values s.values;
    keys = insert_row_beside (λ db. IsKeyed db.attributes) row db s.keys s.keys;
    log = insert_row-IsLog row db s.log;
    serial = insert_row_beside IsSerial row db s.serial s.serial;
  }

  upsert_row-IsSound :
      (scope name : String) (v : F64) (t : X.DateTime) (e : X.Value) (db : Database X)
      → IsSound db
      → IsSound (upsert_row scope name v t e db).1
  unfolding upsert_row
  upsert_row-IsSound scope name v t e db s = record {
    values = upsert_row-AllInRange scope name v t e db s.values;
    keys = upsert_row-IsKeyed scope name v t e db s.keys;
    log = either (λ db. IsLog db.events) (in_range v) _ _ s.log s.log;
    serial = either IsSerial (in_range v) _ _ s.serial s.serial;
  }

  insert_audit-IsSound :
      (v : X.Value) (db : Database X) → IsSound db → IsSound (insert_audit v db).1
  unfolding insert_audit
  insert_audit-IsSound v db s = record {
    values = either AllInRange (leb_ℤ db.next_audit_id i32_max) _ _ s.values s.values;
    keys = either (λ db. IsKeyed db.attributes) (leb_ℤ db.next_audit_id i32_max) _ _ s.keys s.keys;
    log = either (λ db. IsLog db.events) (leb_ℤ db.next_audit_id i32_max) _ _ s.log s.log;
    serial = insert_audit-IsSerial v db s.serial;
  }

  -- A change beside the attributes, the log and the audit queue.
  unmoved :
      {db : Database X} {settings : List (String × X.Value)} {inbox : List (InboxRow X)}
      {replies : List (ℤ × String)} {notifications : List (String × String)} {now : X.DateTime}
      → IsSound db
      → IsSound (record db {
        settings = settings;
        outcome_inbox = inbox;
        audit_replies = replies;
        notifications = notifications;
        now = now;
      })
  unmoved s = record { values = s.values; keys = s.keys; log = s.log; serial = s.serial }

  Write-IsSound : {db after : Database X} → Write db after → IsSound db → IsSound after
  unfolding claim delete_row notify
  Write-IsSound {db} (inserts row) s = insert_row-IsSound row db s
  Write-IsSound {db} (upserts scope name v at evidence) s =
      upsert_row-IsSound scope name v at evidence db s
  Write-IsSound {db} (stamps scope name now) s = record {
    values = stamped-IsInRange (is_key scope name) now db.attributes s.values;
    keys = stamped-IsKeyed (is_key scope name) now db.attributes s.keys;
    log = s.log;
    serial = s.serial;
  }
  Write-IsSound (claims id) s = unmoved s
  Write-IsSound (deletes id) s = unmoved s
  Write-IsSound {db} (audits payload) s = insert_audit-IsSound payload db s
  Write-IsSound (notifies channel payload) s = unmoved s
  Write-IsSound (answers id) s = unmoved s
  Write-IsSound (sets name value) s = unmoved s

  Move-IsSound : {db after : Database X} → Move db after → IsSound db → IsSound after
  Move-IsSound (writes w) s = Write-IsSound w s
  Move-IsSound (submits id payload) s = unmoved s
  Move-IsSound {db} (takes id) s = record {
    values = s.values;
    keys = s.keys;
    log = s.log;
    serial = select-All _ _ db.audit_inbox s.serial;
  }
  Move-IsSound (rejects id message) s = unmoved s
  Move-IsSound reads s = unmoved s
  Move-IsSound (waits now) s = unmoved s

  Extends-refl : (rows : List (EventRow X)) → Extends rows rows
  Extends-refl rows = ([], sym (append-nil rows))

  Extends-trans : (a b c : List (EventRow X)) → Extends a b → Extends b c → Extends a c
  Extends-trans a b c (l, p) (m, q) = (l ++ m, q ∙ ap (λ r. r ++ m) p ∙ append_assoc a l m)

  Write-Extends : {db after : Database X} → Write db after → Extends db.events after.events
  unfolding upsert_row insert_audit claim delete_row notify
  Write-Extends {db} (inserts row) =
      insert_row_beside (λ d. Extends db.events d.events) row db (Extends-refl db.events)
        (row ∷ [], refl)
  Write-Extends {db} (upserts scope name v at evidence) =
      either (λ d. Extends db.events d.events) (in_range v) _ (_, db) (Extends-refl db.events)
        (Extends-refl db.events)
  Write-Extends {db} (audits payload) =
      either (λ d. Extends db.events d.events) (leb_ℤ db.next_audit_id i32_max) _ (_, db)
        (Extends-refl db.events) (Extends-refl db.events)
  Write-Extends {db} (stamps scope name now) = Extends-refl db.events
  Write-Extends {db} (claims id) = Extends-refl db.events
  Write-Extends {db} (deletes id) = Extends-refl db.events
  Write-Extends {db} (notifies channel payload) = Extends-refl db.events
  Write-Extends {db} (answers id) = Extends-refl db.events
  Write-Extends {db} (sets name value) = Extends-refl db.events

  Move-Extends : {db after : Database X} → Move db after → Extends db.events after.events
  Move-Extends (writes w) = Write-Extends w
  Move-Extends {db} (submits id payload) = Extends-refl db.events
  Move-Extends {db} (takes id) = Extends-refl db.events
  Move-Extends {db} (rejects id message) = Extends-refl db.events
  Move-Extends {db} reads = Extends-refl db.events
  Move-Extends {db} (waits now) = Extends-refl db.events

  -- In whatever order the statements of the daemon's tasks and of the broker come, the tables stay
  -- sound and the log only grows at its end.
  pub Moves-IsSound :
      {db after : Database X}
      → IsSound db
      → Moves db after
      → IsSound after × Extends db.events after.events
  Moves-IsSound {db} s start = (s, Extends-refl db.events)
  Moves-IsSound {db} s (next {b} {c} r m) =
      let (sound, grown) = Moves-IsSound s r in
      (Move-IsSound m sound, Extends-trans db.events b.events c.events grown (Move-Extends m))
