-- ===== src/RunLoop/Lru/Coherent.antt =====
-- When the recency order and the map of the counters agree, and the steps that keep it so.
use satan_attrd.Prelude.{
  ℕ, suc, ◌≤◌, ◌<◌, String, true, false, some, List, [], ◌∷◌, ◌++◌, ◌≡◌, refl, inl, inr, arith,
  length, length-append, leb, eq_iff, Bool-cases,
}
use satan_attrd.Store.Counter
use satan_attrd.Store.Counter.{Counter}
use satan_attrd.RunLoop.Lru.{Assoc, LruCounterMap, new, position, remove, put, touch, evict}
use satan_attrd.RunLoop.Lru.Lists.{
  mem, Distinct, keys, without, remove_at-position, mem-append_one, mem-without, Distinct-without,
  Distinct-append_one, length-without,
}
use satan_attrd.RunLoop.Lru.Entries.{
  mem-remove, mem-put, Distinct-remove, Distinct-put, length-remove, length-put,
}

-- No run stands twice in the order or in the map, both hold the same runs, and there are at most
-- `cap` of them, where `cap` is not 0.
pub record IsCoherent (m : LruCounterMap) : Type 0 where
  pub order_distinct : Distinct m.order
  pub keys_distinct : Distinct (keys m.map)
  pub same_runs : (k : String) → mem k m.order ≡ mem k (keys m.map)
  pub same_length : length m.order ≡ length m.map
  pub has_room : 0 < m.cap
  pub bounded : length m.map ≤ m.cap

pub new-IsCoherent : (cap : ℕ) → 0 < cap → IsCoherent (new cap)
unfolding mem
new-IsCoherent cap h = record {
  order_distinct = tt;
  keys_distinct = tt;
  same_runs = λ k. refl;
  same_length = refl;
  has_room = h;
  bounded = omega arith;
}

-- A run that is known moves to the back of the order, and nothing else changes.
pub touch_lem :
    (run_id : String) (m : LruCounterMap) (i : ℕ)
    → position run_id m.order ≡ some i
    → touch i m ≡ record m { order = without run_id m.order ++ run_id ∷ [] }
unfolding touch
touch_lem run_id m i h = rw (remove_at-position run_id m.order i h)

pub touch-IsCoherent :
    (run_id : String) (m : LruCounterMap)
    → mem run_id m.order ≡ true
    → IsCoherent m
    → IsCoherent (record m { order = without run_id m.order ++ run_id ∷ [] })
touch-IsCoherent run_id m known h = record {
  order_distinct =
      Distinct-append_one run_id (without run_id m.order)
        (ground (arith, mem-without run_id run_id m.order h.order_distinct, eq_iff run_id run_id))
        (Distinct-without run_id m.order h.order_distinct);
  keys_distinct = h.keys_distinct;
  same_runs = λ k. ground (
    arith,
    mem-append_one run_id k (without run_id m.order),
    mem-without run_id k m.order h.order_distinct,
    h.same_runs k,
    eq_iff run_id k,
  );
  same_length = omega (
    arith,
    length-append (without run_id m.order) (run_id ∷ []),
    length-without run_id m.order known,
    h.same_length,
  );
  has_room = h.has_room;
  bounded = h.bounded;
}

-- A full map loses the run at the front of the order.
pub evict_full :
    (m : LruCounterMap) (e : String) (rest : List String)
    → m.order ≡ e ∷ rest
    → leb m.cap (length m.map) ≡ true
    → evict m ≡ record m { order = rest; map = remove e m.map }
unfolding evict
evict_full m e rest h full = ground arith

evict_front :
    (cap : ℕ) (e : String) (rest : List String) (entries : Assoc Counter)
    → IsCoherent (record { cap = cap; order = e ∷ rest; map = entries })
    → IsCoherent (record { cap = cap; order = rest; map = remove e entries })
      × (length (remove e entries) < cap)
unfolding mem
evict_front cap e rest entries h = (
  record {
    order_distinct = h.order_distinct.1;
    keys_distinct = Distinct-remove e entries h.keys_distinct;
    same_runs = λ k. ground (arith, h.same_runs k, mem-remove e k entries, eq_iff e k);
    same_length = omega (arith, shorter, h.same_length);
    has_room = h.has_room;
    bounded = omega (arith, shorter, h.bounded);
  },
  omega (arith, shorter, h.bounded),
)
  where
    present : mem e (keys entries) ≡ true
    present = ground (arith, h.same_runs e, eq_iff e e)

    shorter : suc (length (remove e entries)) ≡ length entries
    shorter = length-remove e entries h.keys_distinct present

-- After the eviction step the map is still coherent and has room for one more run.
evict_at :
    (limit : ℕ) (order : List String) (entries : Assoc Counter)
    → let m : LruCounterMap = record { cap = limit; order = order; map = entries } in
      IsCoherent m → IsCoherent (evict m) × (length (evict m).map < (evict m).cap)
unfolding evict
evict_at limit [] entries h = elim (Bool-cases (leb limit (length entries))) [
  | inl full ↦ absurd (ground (arith, h.same_length, h.has_room))
  | inr spare ↦ rw spare (h, ground arith)
]
evict_at limit (e ∷ rest) entries h = elim (Bool-cases (leb limit (length entries))) [
  | inl full ↦ rw full (evict_front limit e rest entries h)
  | inr spare ↦ rw spare (h, ground arith)
]

pub evict-IsCoherent :
    (m : LruCounterMap)
    → IsCoherent m
    → IsCoherent (evict m) × (length (evict m).map < (evict m).cap)
evict-IsCoherent m h = evict_at m.cap m.order m.map h

pub evict_absent :
    (k : String) (limit : ℕ) (order : List String) (entries : Assoc Counter)
    → mem k order ≡ false
    → mem k (evict (record { cap = limit; order = order; map = entries })).order ≡ false
unfolding evict mem
evict_absent k limit [] entries h = ground arith
evict_absent k limit (e ∷ rest) entries h = ground arith

-- The map with a new run at the back.
abbrev pub admitted : String → LruCounterMap → LruCounterMap
admitted run_id m = record m { order = m.order ++ run_id ∷ []; map = put run_id Counter.new m.map }

pub admitted-IsCoherent :
    (run_id : String) (m : LruCounterMap)
    → mem run_id m.order ≡ false
    → length m.map < m.cap
    → IsCoherent m
    → IsCoherent (admitted run_id m)
admitted-IsCoherent run_id m fresh room h = record {
  order_distinct = Distinct-append_one run_id m.order fresh h.order_distinct;
  keys_distinct = Distinct-put run_id Counter.new m.map h.keys_distinct;
  same_runs = λ k.
      ground
        (arith, mem-append_one run_id k m.order, mem-put run_id k Counter.new m.map, h.same_runs k);
  same_length = ground (arith, longer, length-append m.order (run_id ∷ []), h.same_length);
  has_room = h.has_room;
  bounded = ground (arith, longer);
}
  where
    longer : length (put run_id Counter.new m.map) ≡ suc (length m.map)
    longer = ground (arith, length-put run_id Counter.new m.map, h.same_runs run_id)
