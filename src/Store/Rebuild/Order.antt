-- ===== src/Store/Rebuild/Order.antt =====
-- A rebuild does not depend on the order in which the database keeps the events.
use mathlib.Core.List.{Permᴰ}
use mathlib.Core.Path.{subst}
use satan_attrd.Prelude.{
  String, Bool, true, false, not, ◌||◌, ◌≡◌, ◌≢◌, ap, inl, inr, List, [], ◌∷◌, All, All-map, Apart,
  map, length, Bool-cases, if◌then◌else◌, arith,
}
use satan_attrd.Prelude.Int.{ℤ, leb_ℤ, eq_of_parts}
use satan_attrd.Error.{ok}
use satan_attrd.Extern.{Extern}
use satan_attrd.Store.Database.{EventRow, Database}
use satan_attrd.Store.Database.Calm.{calm}
use satan_attrd.Store.Operations.{select, replay_le}
use satan_attrd.Store.Operations.Log.{IsApart, IsLog}
use satan_attrd.Store.Operations.Order.{Ordered, IsTransitive, select-perm, order_by-perm}
use satan_attrd.Store.Rebuild.{zeroed, replayed, rebuild_projection}
use satan_attrd.Store.Rebuild.Laws.{IsStorable, put_all, rebuild_lem}

-- What PostgreSQL documents of its orders on TIMESTAMPTZ and on TEXT: they are total, and two texts
-- that come no later than one another are the same.
pub record HasOrders (X : Extern) : Type 0 where
  pub ts_total : (a b : X.DateTime) → X.ts_le a b ≡ false → X.ts_le b a ≡ true
  pub ts_trans : (a b c : X.DateTime) → X.ts_le a b ≡ true → X.ts_le b c ≡ true → X.ts_le a c ≡ true
  pub text_total : (s t : String) → X.text_le s t ≡ false → X.text_le t s ≡ true
  pub text_trans :
      (s t u : String) → X.text_le s t ≡ true → X.text_le t u ≡ true → X.text_le s u ≡ true
  pub text_antisym : (s t : String) → X.text_le s t ≡ true → X.text_le t s ≡ true → s ≡ t

module _ {X : Extern} (o : HasOrders X) where
  seq_ordered : (a b : ℤ) → a ≢ b → leb_ℤ a b ≡ not (leb_ℤ b a)
  seq_ordered a b h = elim (Bool-cases (leb_ℤ a b)) [
    | inl le ↦ elim (Bool-cases (leb_ℤ b a)) [
      | inl ge ↦ absurd (h (eq_of_parts a b (ground arith)))
      | inr gt ↦ ground arith
    ]
    | inr gt ↦ ground arith
  ]

  seq_apart :
      (a b : EventRow X)
      → IsApart a b
      → X.text_le a.run_id b.run_id ≡ true
      → X.text_le b.run_id a.run_id ≡ true
      → leb_ℤ a.seq b.seq ≡ not (leb_ℤ b.seq a.seq)
  seq_apart a b h p q = seq_ordered a.seq b.seq (h.1 (o.text_antisym a.run_id b.run_id p q))

  apart-Ordered : (a b : EventRow X) → IsApart a b → Ordered replay_le a b
  apart-Ordered a b h =
      ground (arith, o.ts_total a.ts b.ts, o.text_total a.run_id b.run_id, seq_apart a b h)

  replay_trans : IsTransitive (replay_le {X = X})
  replay_trans a b c h k = ground (
    arith,
    o.ts_trans a.ts b.ts c.ts,
    o.ts_trans c.ts a.ts b.ts,
    o.ts_trans b.ts c.ts a.ts,
    o.ts_total a.ts b.ts,
    o.ts_total b.ts c.ts,
    o.text_trans a.run_id b.run_id c.run_id,
    o.text_trans c.run_id a.run_id b.run_id,
    o.text_trans b.run_id c.run_id a.run_id,
    o.text_total a.run_id b.run_id,
    o.text_total b.run_id c.run_id,
  )

  log-Ordered : (rows : List (EventRow X)) → IsLog rows → Apart (Ordered replay_le) rows
  log-Ordered [] h = tt
  log-Ordered (r ∷ rows) h = (All-map _ _ (apart-Ordered r) rows h.0, log-Ordered rows h.1)

  select-All :
      (test : EventRow X → Bool) (P : EventRow X → Type 0) (rows : List (EventRow X))
      → All P rows
      → All P (select test rows)
  unfolding select
  select-All test P [] h = tt
  select-All test P (r ∷ rows) h = kept (test r) (select test rows) (select-All test P rows h.1)
    where
      kept :
          (b : Bool) (rest : List (EventRow X)) → All P rest → All P (if b then r ∷ rest else rest)
      kept true rest k = (h.0, k)
      kept false rest k = k

  select-Apart :
      (test : EventRow X → Bool) (R : EventRow X → EventRow X → Type 0) (rows : List (EventRow X))
      → Apart R rows
      → Apart R (select test rows)
  unfolding select
  select-Apart test R [] h = tt
  select-Apart test R (r ∷ rows) h =
      kept (test r) (select test rows) (select-All test (R r) rows h.0)
        (select-Apart test R rows h.1)
    where
      kept :
          (b : Bool) (rest : List (EventRow X))
          → All (R r) rest
          → Apart R rest
          → Apart R (if b then r ∷ rest else rest)
      kept true rest k l = (k, l)
      kept false rest k l = l

  -- The same events, kept in another order, are replayed in the same order.
  replayed-perm :
      (include_disabled : Bool) (db : Database X) (rows : List (EventRow X))
      → IsLog db.events
      → Permᴰ db.events rows
      → replayed include_disabled db ≡ replayed include_disabled (record db { events = rows })
  unfolding replayed
  replayed-perm include_disabled db rows log p =
      let test : EventRow X → Bool = λ r. include_disabled || not r.disabled in
      order_by-perm replay_le replay_trans (select-perm test p)
        (select-Apart test (Ordered replay_le) db.events (log-Ordered db.events log))

  -- On a connection that does not fail, where the orders are those that PostgreSQL documents, the
  -- log has distinct ids and distinct numbers in a run, and the selected events hold values in
  -- [0, 1], a rebuild gives the same result and the same table of attributes in whatever order the
  -- database keeps the events.
  pub rebuild-perm :
      (include_disabled : Bool) (db : Database X) (rows : List (EventRow X))
      → IsLog db.events
      → Permᴰ db.events rows
      → All IsStorable (replayed include_disabled db)
      → let a = rebuild_projection include_disabled (calm db) in
        let b = rebuild_projection include_disabled (calm (record db { events = rows })) in
        (a.0 ≡ b.0) × (a.1.db.attributes ≡ b.1.db.attributes)
  rebuild-perm include_disabled db rows log p h =
      let same = replayed-perm include_disabled db rows log p in
      let h' = subst (All IsStorable) same h in
      rw
        (
          rebuild_lem include_disabled db h,
          rebuild_lem include_disabled (record db { events = rows }) h',
        )
        (
          ap (λ evs. ok (length evs)) same,
          ap (λ evs. put_all evs (map (zeroed db.now) db.attributes)) same,
        )
