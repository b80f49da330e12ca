-- ===== src/Daemon/Ends.antt =====
-- What becomes of a pending row of the inbox, on a connection that does not fail.
use satan_attrd.Prelude.{
  Bool, true, false, not, ◌≡◌, refl, sym, ap, ◌∙◌, ◌⊎◌, inl, inr, Option, some, List, [], ◌∷◌, map,
  if◌then◌else◌, arith,
}
use satan_attrd.Prelude.Int.{ℤ, eqb_ℤ}
use satan_attrd.Error.{ok}
use satan_attrd.Extern.{Extern}
use satan_attrd.Steps.{Step, done, continue, ◌>>=◌}
use satan_attrd.Store.Event.{EventInsert}
use satan_attrd.Store.Database.{InboxRow, Database, statement}
use satan_attrd.Store.Database.Calm.{calm}
use satan_attrd.Store.Operations.{select, first}
use satan_attrd.Rpc.{Checked, accepted, refused, Refusal, check_schema_major}
use satan_attrd.Dispatcher.Plan.{Snapshot}
use satan_attrd.Dispatcher.Input.{Projection}
use satan_attrd.RunLoop.Payload.{Rejection, accept, reject, InboxPayload}
use satan_attrd.RunLoop.Parse.{parse_inbox_payload}
use satan_attrd.RunLoop.Lru.{LruCounterMap}
use satan_attrd.RunLoop.Loop.{RunLoop, store}
use satan_attrd.RunLoop.Read.{read_projection}
use satan_attrd.RunLoop.Write.{store_events}
use satan_attrd.RunLoop.Write.Stored.{IsStorable, stored, store_events-calm}
use satan_attrd.RunLoop.Process.{
  is_unclaimed, claim, delete_row, delete_outcome_row, build_events, apply, handle_checked, handle,
  handle_claimed, process_outcome_row,
}
use satan_attrd.RunLoop.Process.Reads.{build_events-Keeps}
use satan_attrd.Daemon.Handlers.{build_events-Performs}

-- The version check or the parser refuses the payload.
abbrev pub IsRefused : (X : Extern) → X.Value → Type 0
IsRefused X v =
    ((why : Refusal) × (check_schema_major X v ≡ refused why))
    ⊎ ((why : Rejection) × (parse_inbox_payload X v ≡ reject why))

module _ {X : Extern} where
  bind_done :
      {A B : Type 0} (m : Step (RunLoop X) A) (k : A → Step (RunLoop X) B) (s t : RunLoop X) (a : A)
      → m s ≡ (done a, t)
      → (m >>= k) s ≡ k a t
  bind_done m k s t a h = ap (continue k) h

  -- The payload of the pending row.
  abbrev pub payload_of : ℤ → Database X → Option X.Value
  payload_of id db = first (map (λ r. r.payload_json) (select (is_unclaimed id) db.outcome_inbox))

  -- The inbox without the row.
  abbrev pub without : ℤ → Database X → Database X
  without id db = record db { outcome_inbox = select (λ r. not (eqb_ℤ r.id id)) db.outcome_inbox }

  abbrev pub at : Database X → LruCounterMap → RunLoop X
  at db counters = record { world = calm db; counters = counters }

  select_claimed :
      (id : ℤ) (rows : List (InboxRow X))
      → select
          (λ r. not (eqb_ℤ r.id id))
          (map (λ r. if is_unclaimed id r then record r { claimed = true } else r) rows)
        ≡ select (λ r. not (eqb_ℤ r.id id)) rows
  unfolding select
  select_claimed id [] = λ i. []
  select_claimed id (r ∷ rows) = step (is_unclaimed id r) refl (select_claimed id rows)
    where
      mark : InboxRow X → InboxRow X
      mark r = if is_unclaimed id r then record r { claimed = true } else r

      step :
          (b : Bool)
          → is_unclaimed id r ≡ b
          → select (λ r. not (eqb_ℤ r.id id)) (map mark rows)
            ≡ select (λ r. not (eqb_ℤ r.id id)) rows
          → select
              (λ r. not (eqb_ℤ r.id id))
              ((if b then record r { claimed = true } else r) ∷ map mark rows)
            ≡ select (λ r. not (eqb_ℤ r.id id)) (r ∷ rows)
      step true e ih = let same : eqb_ℤ r.id id ≡ true = ground arith in rw same ih
      step false e ih = λ i. if not (eqb_ℤ r.id id) then r ∷ ih i else ih i

  without-claim : (id : ℤ) (db : Database X) → without id (claim id db).1 ≡ without id db
  unfolding claim
  without-claim id db =
      ap (λ l. record db { outcome_inbox = l }) (select_claimed id db.outcome_inbox)

  delete-at :
      (id : ℤ) (db : Database X) (counters : LruCounterMap)
      → store (delete_outcome_row id) (at db counters) ≡ (done tt, at (without id db) counters)
  unfolding store delete_outcome_row delete_row statement
  delete-at id db counters = refl

  claim-at :
      (id : ℤ) (db : Database X) (counters : LruCounterMap)
      → process_outcome_row id (at db counters)
        ≡ handle_claimed id (payload_of id db) (at (claim id db).1 counters)
  unfolding process_outcome_row store statement claim
  claim-at id db counters = refl

  drop-at :
      (id : ℤ) (db : Database X) (counters : LruCounterMap)
      → store (delete_outcome_row id) (at (claim id db).1 counters)
        ≡ (done tt, at (without id db) counters)
  drop-at id db counters =
      delete-at id (claim id db).1 counters
      ∙ ap (λ d. (done tt, at d counters)) (without-claim id db)

  refuse :
      (id : ℤ) (v : X.Value) (s t : RunLoop X)
      → store (delete_outcome_row id) s ≡ (done tt, t)
      → IsRefused X v
      → handle id v s ≡ (done tt, t)
  unfolding handle
  refuse id v s t h (inl (why, e)) = rw e h
  refuse id v s t h (inr (why, e)) = rw e (either (check_schema_major X v))
    where
      either : (c : Checked) → handle_checked id c (reject why) s ≡ (done tt, t)
      either accepted = h
      either (refused w) = h

  -- A pending row whose payload the version check or the parser refuses is dropped, and nothing
  -- else changes, neither in the tables nor in the counters.
  pub process_refused :
      (id : ℤ) (db : Database X) (counters : LruCounterMap) (v : X.Value)
      → payload_of id db ≡ some v
      → IsRefused X v
      → process_outcome_row id (at db counters) ≡ (done tt, at (without id db) counters)
  process_refused id db counters v row h =
      claim-at id db counters
      ∙ ap (λ o. handle_claimed id o (at (claim id db).1 counters)) row
      ∙ refuse id v (at (claim id db).1 counters) (at (without id db) counters)
          (drop-at id db counters) h

  accept_handles :
      (id : ℤ) (v : X.Value) (p : InboxPayload X) (s : RunLoop X)
      → check_schema_major X v ≡ accepted
      → parse_inbox_payload X v ≡ accept p
      → handle id v s ≡ apply id p s
  unfolding handle
  accept_handles id v p s c q = rw (c, q) refl

  read-at :
      (id : ℤ) (db : Database X) (counters : LruCounterMap) (snap : Snapshot) (proj : Projection)
      → (read_projection (calm db)).0 ≡ ok (snap, proj)
      → store read_projection (at (claim id db).1 counters)
        ≡ (done (snap, proj), at (claim id db).1 counters)
  unfolding store read_projection statement claim
  read-at id db counters snap proj h = rw h refl

  IsStorable-claimed :
      (id : ℤ) (evs : List (EventInsert X)) (db : Database X)
      → IsStorable evs db
      → IsStorable evs (claim id db).1
  unfolding claim
  IsStorable-claimed id evs db h = record { valid = h.valid; new = h.new; ids = h.ids }

  -- The state after the events are built has the same tables.
  built :
      (p : InboxPayload X) (snap : Snapshot) (proj : Projection) (db : Database X)
      (counters : LruCounterMap) (evs : List (EventInsert X)) (t : RunLoop X)
      → build_events p snap proj (at db counters) ≡ (done evs, t)
      → t ≡ at db t.counters
  built p snap proj db counters evs t h =
      let same : t.world.db ≡ db =
        sym (ap (λ r. r.1.world.db) h) ∙ build_events-Keeps (λ d. d) p snap proj (at db counters) in
      let quiet : t.world.faults ≡ [] =
        sym (ap (λ r. r.1.world.faults) h)
        ∙ (build_events-Performs p snap proj (at db counters)).1 refl in
      λ i. record { world = record { db = same i; faults = quiet i }; counters = t.counters }

  store-at :
      (evs : List (EventInsert X)) (db : Database X) (counters : LruCounterMap)
      → IsStorable evs db
      → store (store_events evs) (at db counters) ≡ (done tt, at (stored evs db) counters)
  unfolding store
  store-at evs db counters h = rw (store_events-calm evs db h) refl

  apply-at :
      (id : ℤ) (db : Database X) (counters : LruCounterMap) (p : InboxPayload X) (snap : Snapshot)
      (proj : Projection) (evs : List (EventInsert X)) (t : RunLoop X)
      → (read_projection (calm db)).0 ≡ ok (snap, proj)
      → build_events p snap proj (at (claim id db).1 counters) ≡ (done evs, t)
      → IsStorable evs db
      → apply id p (at (claim id db).1 counters)
        ≡ (done tt, at (stored evs (without id db)) t.counters)
  unfolding apply
  apply-at id db counters p snap proj evs t r b h =
      let claimed : Database X = (claim id db).1 in
      bind_done (store read_projection) _ _ _ (snap, proj) (read-at id db counters snap proj r)
      ∙ bind_done (build_events p snap proj) _ _ _ evs
          (b ∙ ap (λ u. (done evs, u)) (built p snap proj claimed counters evs t b))
      ∙ bind_done (store (store_events evs)) _ _ _ tt
          (store-at evs claimed t.counters (IsStorable-claimed id evs db h))
      ∙ delete-at id (stored evs claimed) t.counters
      ∙ ap (λ d. (done tt, at (stored evs d) t.counters)) (without-claim id db)

  -- A pending row with a payload that is accepted, whose dispatch gives events that are storable, is
  -- handled to the end: the events are logged, projected, queued for audit and announced, in order,
  -- the row is deleted, and the counters are those after the dispatch.
  pub process_accepted :
      (id : ℤ) (db : Database X) (counters : LruCounterMap) (v : X.Value) (p : InboxPayload X)
      (snap : Snapshot) (proj : Projection) (evs : List (EventInsert X)) (t : RunLoop X)
      → payload_of id db ≡ some v
      → check_schema_major X v ≡ accepted
      → parse_inbox_payload X v ≡ accept p
      → (read_projection (calm db)).0 ≡ ok (snap, proj)
      → build_events p snap proj (at (claim id db).1 counters) ≡ (done evs, t)
      → IsStorable evs db
      → process_outcome_row id (at db counters)
        ≡ (done tt, at (stored evs (without id db)) t.counters)
  process_accepted id db counters v p snap proj evs t row c q r b h =
      claim-at id db counters
      ∙ ap (λ o. handle_claimed id o (at (claim id db).1 counters)) row
      ∙ accept_handles id v p (at (claim id db).1 counters) c q
      ∙ apply-at id db counters p snap proj evs t r b h
