-- ===== src/Daemon/Moves.antt =====
-- The tables under the daemon and the broker: the daemon's statements, and what the broker does to
-- the queues and to the clock of the database, in any order.
use satan_attrd.Prelude.{String, false, not, [], ◌∷◌, ◌++◌}
use satan_attrd.Prelude.Int.{ℤ, eqb_ℤ}
use satan_attrd.Extern.{Extern}
use satan_attrd.Store.Database.{Database}
use satan_attrd.Store.Operations.{select}
use satan_attrd.Daemon.Writes.{Write, Writes, here, later}

module _ {X : Extern} where
  pub data Move (db : Database X) : Database X → Type 0 where
    writes : {after : Database X} → Write db after → Move db after
    -- The broker submits a payload.
    submits :
        (id : ℤ) (payload : X.Value)
        → Move db (record db {
          outcome_inbox =
              db.outcome_inbox ++ record { id = id; payload_json = payload; claimed = false } ∷ [];
        })
    -- The broker takes an audit event.
    takes :
        (id : ℤ)
        → Move db (record db { audit_inbox = select (λ a. not (eqb_ℤ a.0 id)) db.audit_inbox })
    -- The broker rejects one.
    rejects :
        (id : ℤ) (message : String)
        → Move db (record db { audit_replies = db.audit_replies ++ (id, message) ∷ [] })
    -- The broker reads its notifications.
    reads : Move db (record db { notifications = [] })
    -- Time passes.
    waits : (now : X.DateTime) → Move db (record db { now = now })

  pub data Moves (db : Database X) : Database X → Type 0 where
    start : Moves db db
    next : {b c : Database X} → Moves db b → Move b c → Moves db c

  pub Moves-trans : {a b c : Database X} → Moves a b → Moves b c → Moves a c
  Moves-trans r start = r
  Moves-trans r (next s m) = next (Moves-trans r s) m

  -- The daemon's writes, when the broker does nothing.
  pub alone : {a b : Database X} → Writes a b → Moves a b
  alone here = start
  alone (later s w) = next (alone s) (writes w)
