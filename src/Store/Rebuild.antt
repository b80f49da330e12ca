-- ===== src/Store/Rebuild.antt =====
-- src/store.rs: the replay of the event log.
pub mod Content
pub mod Laws
pub mod Order
pub mod Agrees
use satan_attrd.Prelude.{
  ℕ, String, Bool, true, not, ◌||◌, none, List, [], ◌∷◌, map, length, if◌then◌else◌,
}
use satan_attrd.F64.{nought}
use satan_attrd.Error.{ok}
use satan_attrd.Extern.{Extern}
use satan_attrd.Store.Database.{
  AttributeRow, EventRow, Database, Db, pure, ◌>>=◌, ◌>>◌, statement, transaction,
}
use satan_attrd.Store.Operations.{select, order_by, replay_le, upsert_row}

module _ {X : Extern} where
  -- The UPDATE of step 1, on one row.
  unfoldable pub zeroed : X.DateTime → AttributeRow X → AttributeRow X
  zeroed now r = record r {
    value = nought;
    evidence_json = X.object [];
    updated_at = now;
    last_decay_at = none;
  }

  unfoldable pub zero_rows : Database X → Database X
  unfolding zeroed
  zero_rows db = record db { attributes = map (zeroed db.now) db.attributes }

  -- The rows of step 2.
  unfoldable pub replayed : Bool → Database X → List (EventRow X)
  unfolding select order_by
  replayed include_disabled db =
      order_by replay_le (select (λ r. include_disabled || not r.disabled) db.events)

  -- The loop over the rows.
  unfoldable pub replay : List (EventRow X) → Db X (Unit {0})
  replay [] = pure tt
  replay (r ∷ rows) = do
    statement (upsert_row r.scope r.name r.new_value r.ts r.evidence_json)
    replay rows

  -- BEGIN or COMMIT.
  abbrev pub control : Db X (Unit {0})
  control = statement λ db. (ok tt, db)

  -- Within the transaction: BEGIN, the two steps, COMMIT.
  unfoldable pub rebuild_steps : Bool → Db X ℕ
  rebuild_steps include_disabled = do
    control
    statement λ db. (ok tt, zero_rows db)
    rows ← statement λ db. (ok (replayed include_disabled db), db)
    replay rows
    control
    pure (length rows)

  unfoldable pub rebuild_projection : Bool → Db X ℕ
  rebuild_projection include_disabled = transaction (rebuild_steps include_disabled)
