-- ===== src/RunLoop/Write/Derived.antt =====
-- The table of attributes is what the log says: the loop that stores events projects each as it is
-- logged, and a rebuild replays the log.
use satan_attrd.Prelude.{
  String, Bool, true, false, not, ◌||◌, ◌≡◌, refl, ap, ◌∙◌, Option, none, some, List, [], ◌∷◌, ◌++◌,
  All, if◌then◌else◌,
}
use mathlib.Core.Path.{subst}
use satan_attrd.Extern.{Extern}
use satan_attrd.Store.Event.{EventInsert}
use satan_attrd.Store.Database.{AttributeRow, EventRow, Database}
use satan_attrd.Store.Database.Calm.{calm}
use satan_attrd.Store.Operations.{select, replay_le, order_by, row_of, put_row}
use satan_attrd.Store.Rebuild.{replayed}
use satan_attrd.Store.Rebuild.Content.{Content, content_at, decay_of, same_key, content_at-put_row}
use satan_attrd.Store.Rebuild.Laws.{last_event}
use satan_attrd.Store.Rebuild.Agrees.{order_by-snoc, select-snoc, last_event-snoc}
use satan_attrd.RunLoop.Write.{store_events}
use satan_attrd.RunLoop.Write.Stored.{
  IsStorable, stored, stored_one, stored_step, stored_none, store_events-calm,
}

module _ {X : Extern} where
  -- Where the log has an event for a key, the row of the key holds its value, time and evidence.
  abbrev pub Agrees : Option (EventRow X) → Option (Content X) → Type 0
  Agrees none c = Unit
  Agrees (some ev) none = ⊥
  Agrees (some ev) (some c) =
      (c.value ≡ ev.new_value) × (c.updated_at ≡ ev.ts) × (c.evidence_json ≡ ev.evidence_json)

  -- Of the events that are not disabled, the last for each key in replay order is in the table.
  abbrev pub IsDerived : Database X → Type 0
  IsDerived db =
      (s n : String) → Agrees (last_event s n (replayed false db)) (content_at s n db.attributes)

  -- Each event comes no earlier in replay order than those before it.
  abbrev pub AreLatest : List (EventInsert X) → List (EventRow X) → Type 0
  AreLatest [] rows = Unit
  AreLatest (ev ∷ evs) rows =
      All (λ r. replay_le r (row_of ev) ≡ true) rows × AreLatest evs (rows ++ row_of ev ∷ [])

  abbrev enabled : EventRow X → Bool
  enabled r = false || not r.disabled

  select-All :
      (P : EventRow X → Type 0) (rows : List (EventRow X))
      → All P rows
      → All P (select enabled rows)
  unfolding select
  select-All P [] h = tt
  select-All P (r ∷ rows) h = kept r.disabled (select enabled rows) (select-All P rows h.1)
    where
      kept :
          (b : Bool) (rest : List (EventRow X))
          → All P rest
          → All P (if false || not b then r ∷ rest else rest)
      kept false rest k = (h.0, k)
      kept true rest k = k

  abbrev replay_order : List (EventRow X) → List (EventRow X)
  replay_order rows = order_by replay_le (select enabled rows)

  -- What a rebuild would replay, with one event more.
  replay_order-snoc :
      (r : EventRow X) (rows : List (EventRow X))
      → All (λ q. replay_le q r ≡ true) rows
      → replay_order (rows ++ r ∷ [])
        ≡ (if r.disabled then replay_order rows else replay_order rows ++ r ∷ [])
  replay_order-snoc r rows h =
      ap (order_by replay_le) (select-snoc enabled rows r)
      ∙ split r.disabled (order_by-snoc replay_le (select enabled rows) r (select-All _ rows h))
    where
      split :
          (b : Bool)
          → order_by replay_le (select enabled rows ++ r ∷ []) ≡ replay_order rows ++ r ∷ []
          → order_by replay_le
              (if false || not b then select enabled rows ++ r ∷ [] else select enabled rows)
            ≡ (if b then replay_order rows else replay_order rows ++ r ∷ [])
      split false e = e
      split true e = refl

  -- The attributes with an event projected.
  abbrev after_row : EventRow X → List (AttributeRow X) → List (AttributeRow X)
  after_row r attributes =
      if r.disabled
      then attributes
      else put_row r.scope r.name r.new_value r.ts r.evidence_json attributes

  abbrev AreDerived : List (EventRow X) → List (AttributeRow X) → Type 0
  AreDerived rows attributes =
      (s n : String) → Agrees (last_event s n (replay_order rows)) (content_at s n attributes)

  Agrees-put :
      (r : EventRow X) (b : Bool) (l : Option (EventRow X)) (c : Option (Content X))
      → Agrees l c
      → Agrees (if b then some r else l) (
          if b
          then some (record {
            value = r.new_value;
            updated_at = r.ts;
            evidence_json = r.evidence_json;
            last_decay_at = decay_of c;
          })
          else c)
  Agrees-put r true l c h = (refl, refl, refl)
  Agrees-put r false l c h = h

  AreDerived-snoc :
      (r : EventRow X) (rows : List (EventRow X)) (attributes : List (AttributeRow X))
      → All (λ q. replay_le q r ≡ true) rows
      → AreDerived rows attributes
      → AreDerived (rows ++ r ∷ []) (after_row r attributes)
  AreDerived-snoc r rows attributes h d s n = rw (replay_order-snoc r rows h) (added r.disabled)
    where
      added :
          (b : Bool)
          → Agrees (last_event s n (if b then replay_order rows else replay_order rows ++ r ∷ [])) (
              content_at s n (
                if b
                then attributes
                else put_row r.scope r.name r.new_value r.ts r.evidence_json attributes))
      added true = d s n
      added false =
          rw
            (
              last_event-snoc s n (replay_order rows) r,
              content_at-put_row s n r.scope r.name r.new_value r.ts r.evidence_json attributes,
            )
            (Agrees-put r (same_key r.scope r.name s n) (last_event s n (replay_order rows))
              (content_at s n attributes) (d s n))

  stored_one-IsDerived :
      (ev : EventInsert X) (db : Database X)
      → All (λ r. replay_le r (row_of ev) ≡ true) db.events
      → IsDerived db
      → IsDerived (stored_one ev db)
  unfolding replayed row_of
  stored_one-IsDerived ev db h d = AreDerived-snoc (row_of ev) db.events db.attributes h d

  stored-IsDerived :
      (evs : List (EventInsert X)) (db : Database X)
      → AreLatest evs db.events
      → IsDerived db
      → IsDerived (stored evs db)
  stored-IsDerived [] db h d = subst IsDerived (stored_none db) d
  stored-IsDerived (ev ∷ evs) db h d =
      subst IsDerived (stored_step ev evs db)
        (stored-IsDerived evs (stored_one ev db) h.1 (stored_one-IsDerived ev db h.0 d))

  -- On a connection that does not fail, events that are storable, and of which each comes no earlier
  -- in replay order than all before it, are stored such that the table goes on to agree with the
  -- log: if before the last event that is not disabled, for each key, was in the table, so it is
  -- after.
  pub store_events-IsDerived :
      (evs : List (EventInsert X)) (db : Database X)
      → IsStorable evs db
      → AreLatest evs db.events
      → IsDerived db
      → IsDerived (store_events evs (calm db)).1.db
  store_events-IsDerived evs db h late d =
      rw (store_events-calm evs db h) (stored-IsDerived evs db late d)
