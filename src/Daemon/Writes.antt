-- ===== src/Daemon/Writes.antt =====
-- What the statements of the daemon do to the tables, one statement at a time: src/store.rs,
-- src/rpc.rs, src/run_loop.rs and src/decay.rs. A statement is atomic; between two statements of
-- one task the other task and the broker may run theirs.
use satan_attrd.Prelude.{String, Bool, not, some, map, if◌then◌else◌}
use satan_attrd.Prelude.Int.{ℤ, eqb_ℤ}
use satan_attrd.F64.{F64}
use satan_attrd.Extern.{Extern}
use satan_attrd.Store.Database.{EventRow, Database}
use satan_attrd.Store.Operations.{select, is_key, insert_row, upsert_row}
use satan_attrd.Store.Settings.{put_setting}
use satan_attrd.Rpc.{insert_audit, notify}
use satan_attrd.RunLoop.Process.{claim, delete_row}

module _ {X : Extern} where
  -- The effect of one statement that writes.
  pub data Write (db : Database X) : Database X → Type 0 where
    inserts : (row : EventRow X) → Write db (insert_row row db).1
    upserts :
        (scope name : String) (v : F64) (at : X.DateTime) (evidence : X.Value)
        → Write db (upsert_row scope name v at evidence db).1
    stamps :
        (scope name : String) (now : X.DateTime)
        → Write db (record db {
          attributes =
              map
                (λ r. if is_key scope name r then record r { last_decay_at = some now } else r)
                db.attributes;
        })
    claims : (id : ℤ) → Write db (claim id db).1
    deletes : (id : ℤ) → Write db (delete_row id db).1
    audits : (payload : X.Value) → Write db (insert_audit payload db).1
    notifies : (channel payload : String) → Write db (notify channel payload db).1
    answers :
        (id : ℤ)
        → Write db (record db { audit_replies = select (λ r. not (eqb_ℤ r.0 id)) db.audit_replies })
    sets :
        (name : String) (value : Bool)
        → Write db (record db { settings = put_setting name (X.boolean value) db.settings })

  -- A sequence of writes.
  pub data Writes (db : Database X) : Database X → Type 0 where
    here : Writes db db
    later : {b c : Database X} → Writes db b → Write b c → Writes db c

  pub Writes-trans : {a b c : Database X} → Writes a b → Writes b c → Writes a c
  Writes-trans r here = r
  Writes-trans r (later s w) = later (Writes-trans r s) w
