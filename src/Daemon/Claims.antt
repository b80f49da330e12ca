-- ===== src/Daemon/Claims.antt =====
-- Claims in the inbox are for good: no write of the daemon takes one back.
use satan_attrd.Prelude.{
  Bool, true, false, ◌≡◌, refl, none, List, [], ◌∷◌, All, map, if◌then◌else◌, arith,
}
use satan_attrd.Prelude.{ap}
use satan_attrd.Prelude.Int.{ℤ, leb_ℤ}
use satan_attrd.Error.{ok}
use satan_attrd.Extern.{Extern}
use satan_attrd.Steps.{done}
use satan_attrd.Store.Counter.{i32_max}
use satan_attrd.Store.Event.{in_range}
use satan_attrd.Store.Database.{InboxRow, Database, statement}
use satan_attrd.Store.Database.Calm.{calm}
use satan_attrd.Store.Operations.{select, first, upsert_row}
use satan_attrd.Rpc.{insert_audit, notify}
use satan_attrd.RunLoop.Loop.{RunLoop, store}
use satan_attrd.RunLoop.Process.{
  is_unclaimed, claim, delete_row, handle_claimed, process_outcome_row,
}
use satan_attrd.Daemon.Writes.{
  Write, Writes, inserts, upserts, stamps, claims, deletes, audits, notifies, answers, sets, here,
  later,
}
use satan_attrd.Daemon.Handlers.{claimed-Performs}
use satan_attrd.Daemon.Sound.{either, select-All, insert_row_beside}

module _ {X : Extern} where
  -- A property of inbox rows that a claim keeps.
  abbrev pub Survives : (InboxRow X → Type 0) → Type 0
  Survives P = (r : InboxRow X) → P r → P (record r { claimed = true })

  module _ (P : InboxRow X → Type 0) (keep : Survives P) where
    marked :
        (test : InboxRow X → Bool) (rows : List (InboxRow X))
        → All P rows
        → All P (map (λ r. if test r then record r { claimed = true } else r) rows)
    marked test [] h = tt
    marked test (r ∷ rows) h = (one (test r), marked test rows h.1)
      where
        one : (b : Bool) → P (if b then record r { claimed = true } else r)
        one true = keep r h.0
        one false = h.0

    Write-All :
        {db after : Database X}
        → Write db after
        → All P db.outcome_inbox
        → All P after.outcome_inbox
    unfolding claim delete_row notify upsert_row insert_audit
    Write-All {db} (inserts row) h = insert_row_beside (λ d. All P d.outcome_inbox) row db h h
    Write-All {db} (upserts scope name v at evidence) h =
        either (λ d. All P d.outcome_inbox) (in_range v) _ (_, db) h h
    Write-All {db} (audits payload) h =
        either (λ d. All P d.outcome_inbox) (leb_ℤ db.next_audit_id i32_max) _ (_, db) h h
    Write-All {db} (claims id) h = marked (is_unclaimed id) db.outcome_inbox h
    Write-All {db} (deletes id) h = select-All P _ db.outcome_inbox h
    Write-All (stamps scope name now) h = h
    Write-All (notifies channel payload) h = h
    Write-All (answers id) h = h
    Write-All (sets name value) h = h

    pub Writes-All :
        {db after : Database X}
        → Writes db after
        → All P db.outcome_inbox
        → All P after.outcome_inbox
    Writes-All here h = h
    Writes-All (later r w) h = Write-All w (Writes-All r h)

  -- No row of that id is pending.
  abbrev pub IsTaken : ℤ → InboxRow X → Type 0
  IsTaken id r = is_unclaimed id r ≡ false

  IsTaken-marked :
      (id : ℤ) (r : InboxRow X) → IsTaken id r → IsTaken id (record r { claimed = true })
  IsTaken-marked id r h = ground arith

  claim_takes : (id : ℤ) (db : Database X) → All (IsTaken id) (claim id db).1.outcome_inbox
  unfolding claim
  claim_takes id db = takes db.outcome_inbox
    where
      one :
          (r : InboxRow X) (b : Bool)
          → is_unclaimed id r ≡ b
          → IsTaken id (if b then record r { claimed = true } else r)
      one r true e = ground arith
      one r false e = e

      takes :
          (rows : List (InboxRow X))
          → All (IsTaken id) (
              map {A = InboxRow X}
                (λ r. if is_unclaimed id r then record r { claimed = true } else r)
                rows)
      takes [] = tt
      takes (r ∷ rows) = (one r (is_unclaimed id r) refl, takes rows)

  -- On a connection that does not fail, the handler starts with a claim.
  process_claimed :
      (id : ℤ) (s : RunLoop X)
      → s.world.faults ≡ []
      → process_outcome_row id s
        ≡ handle_claimed id
            (first (map (λ r. r.payload_json) (select (is_unclaimed id) s.world.db.outcome_inbox)))
            (record s { world = calm (claim id s.world.db).1 })
  unfolding process_outcome_row store statement claim
  process_claimed id s h = rw h refl

  pub process_takes :
      (id : ℤ) (s : RunLoop X)
      → s.world.faults ≡ []
      → All (IsTaken id) (process_outcome_row id s).1.world.db.outcome_inbox
  process_takes id s h =
      let payload =
        first (map (λ r. r.payload_json) (select (is_unclaimed id) s.world.db.outcome_inbox)) in
      let t : RunLoop X = record s { world = calm (claim id s.world.db).1 } in
      rw (process_claimed id s h) (
        Writes-All (IsTaken id) (IsTaken-marked id) (claimed-Performs id payload t).0
          (claim_takes id s.world.db))

  select_taken :
      (id : ℤ) (rows : List (InboxRow X))
      → All (IsTaken id) rows
      → select (is_unclaimed id) rows ≡ []
  unfolding select
  select_taken id [] h = refl
  select_taken id (r ∷ rows) h = rw h.0 (select_taken id rows h.1)

  mark_taken :
      (id : ℤ) (rows : List (InboxRow X))
      → All (IsTaken id) rows
      → map (λ r. if is_unclaimed id r then record r { claimed = true } else r) rows ≡ rows
  mark_taken id [] h = refl
  mark_taken id (r ∷ rows) h = rw h.0 (ap (λ l. r ∷ l) (mark_taken id rows h.1))

  claim_taken :
      (id : ℤ) (db : Database X) → All (IsTaken id) db.outcome_inbox → claim id db ≡ (ok none, db)
  unfolding claim
  claim_taken id db h =
      rw (select_taken id db.outcome_inbox h, mark_taken id db.outcome_inbox h) refl

  passed_over :
      (id : ℤ) (t : RunLoop X)
      → t.world.faults ≡ []
      → All (IsTaken id) t.world.db.outcome_inbox
      → process_outcome_row id t ≡ (done tt, t)
  unfolding process_outcome_row store statement
  passed_over id t calm taken = rw calm (rw (claim_taken id t.world.db taken) refl)

  -- A row is handled once. After the handler of a row has run on a connection that did not fail, in
  -- whatever it ended, every later handler of that row passes it over and changes nothing: after any
  -- writes of the daemon, and with any counters, as after a restart.
  pub process_once :
      (id : ℤ) (s t : RunLoop X)
      → s.world.faults ≡ []
      → Writes (process_outcome_row id s).1.world.db t.world.db
      → t.world.faults ≡ []
      → process_outcome_row id t ≡ (done tt, t)
  process_once id s t h r k =
      passed_over id t k (Writes-All (IsTaken id) (IsTaken-marked id) r (process_takes id s h))
