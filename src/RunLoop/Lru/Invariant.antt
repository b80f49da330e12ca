-- ===== src/RunLoop/Lru/Invariant.antt =====
-- `get_or_create` on a known run and on a new one, and that the map stays coherent.
use satan_attrd.Prelude.{
  ℕ, String, true, false, none, some, List, [], ◌∷◌, ◌++◌, ◌≡◌, inl, inr, arith, Bool-cases,
  Option-cases,
}
use satan_attrd.Store.Counter
use satan_attrd.Store.Counter.{Counter}
use satan_attrd.RunLoop.Lru.{
  LruCounterMap, position, lookup, put, touch, evict, order_for, or_default, get_or_create,
}
use satan_attrd.RunLoop.Lru.Lists.{mem, without, position-none, position-some}
use satan_attrd.RunLoop.Lru.Entries.{lookup-none, lookup_absent}
use satan_attrd.RunLoop.Lru.Coherent.{
  IsCoherent, touch_lem, touch-IsCoherent, evict-IsCoherent, evict_absent, admitted,
  admitted-IsCoherent,
}

order_for_known :
    (run_id : String) (m : LruCounterMap) (i : ℕ)
    → position run_id m.order ≡ some i
    → order_for run_id m ≡ touch i m
unfolding order_for
order_for_known run_id m i h = rw (h, order_for)

order_for_new :
    (run_id : String) (m : LruCounterMap)
    → position run_id m.order ≡ none
    → order_for run_id m ≡ record (evict m) { order = (evict m).order ++ run_id ∷ [] }
unfolding order_for
order_for_new run_id m h = rw (h, order_for)

or_default_known :
    (run_id : String) (m : LruCounterMap) (c : Counter)
    → lookup run_id m.map ≡ some c
    → or_default run_id m ≡ (m, c)
unfolding or_default
or_default_known run_id m c h = rw (h, or_default)

or_default-new :
    (run_id : String) (m : LruCounterMap)
    → lookup run_id m.map ≡ none
    → or_default run_id m ≡ (record m { map = put run_id Counter.new m.map }, Counter.new)
unfolding or_default
or_default-new run_id m h = rw (h, or_default)

-- A run in the order has a counter in the map.
pub known_counter :
    (run_id : String) (m : LruCounterMap)
    → mem run_id m.order ≡ true
    → IsCoherent m
    → (c : Counter) × (lookup run_id m.map ≡ some c)
known_counter run_id m known h = elim (Option-cases (lookup run_id m.map)) [
  | inl missing ↦ absurd (ground (arith, lookup-none run_id m.map missing, h.same_runs run_id))
  | inr found ↦ found
]

known_position :
    (run_id : String) (l : List String)
    → mem run_id l ≡ true
    → (i : ℕ) × (position run_id l ≡ some i)
known_position run_id l known = elim (Option-cases (position run_id l)) [
  | inl missing ↦ absurd (ground (arith, position-none run_id l missing))
  | inr found ↦ found
]

fresh_position :
    (run_id : String) (l : List String) → mem run_id l ≡ false → position run_id l ≡ none
fresh_position run_id l fresh = elim (Option-cases (position run_id l)) [
  | inl missing ↦ missing
  | inr (i, found) ↦ absurd (ground (arith, position-some run_id l i found))
]

-- A run that the order knows keeps its counter.
pub get_or_create_known :
    (run_id : String) (m : LruCounterMap) (c : Counter)
    → mem run_id m.order ≡ true
    → lookup run_id m.map ≡ some c
    → get_or_create m run_id ≡ (record m { order = without run_id m.order ++ run_id ∷ [] }, c)
unfolding get_or_create
get_or_create_known run_id m c known found =
    let (i, at) = known_position run_id m.order known in
    rw (order_for_known run_id m i at, touch_lem run_id m i at)
      (or_default_known run_id (record m { order = without run_id m.order ++ run_id ∷ [] }) c found)

-- A new run gets a counter at zero, after the eviction step.
pub get_or_create-new :
    (run_id : String) (m : LruCounterMap)
    → mem run_id m.order ≡ false
    → IsCoherent m
    → get_or_create m run_id ≡ (admitted run_id (evict m), Counter.new)
unfolding get_or_create
get_or_create-new run_id m fresh h =
    rw (order_for_new run_id m (fresh_position run_id m.order fresh))
      (or_default-new run_id (record (evict m) { order = (evict m).order ++ run_id ∷ [] }) absent)
  where
    absent : lookup run_id (evict m).map ≡ none
    absent = lookup_absent run_id (evict m).map (
        ground (
          arith,
          (evict-IsCoherent m h).0.same_runs run_id,
          evict_absent run_id m.cap m.order m.map fresh,
        ))

-- `get_or_create` keeps the map coherent: the bound, the agreement of order and map, and no
-- repetitions.
pub get_or_create-IsCoherent :
    (m : LruCounterMap) (run_id : String) → IsCoherent m → IsCoherent (get_or_create m run_id).0
get_or_create-IsCoherent m run_id h = elim (Bool-cases (mem run_id m.order)) [
  | inl known ↦
      let (c, found) = known_counter run_id m known h in
      rw (get_or_create_known run_id m c known found) (touch-IsCoherent run_id m known h)
  | inr fresh ↦ rw (get_or_create-new run_id m fresh h) (
      admitted-IsCoherent run_id (evict m) (evict_absent run_id m.cap m.order m.map fresh)
        (evict-IsCoherent m h).1 (evict-IsCoherent m h).0)
]
