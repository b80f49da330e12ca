-- ===== src/RunLoop/Lru.antt =====
-- src/run_loop.rs: the bounded map of per-run counters.
pub mod Lists
mod Entries
pub mod Coherent
pub mod Invariant
pub mod LastUse
pub mod Recency
pub mod Eviction
use satan_attrd.Prelude.{
  ℕ, zero, suc, ◌+◌, String, Bool, true, false, Option, none, some, List, [], ◌∷◌, ◌++◌, length,
  leb, str_eq, unwrap_or, if◌then◌else◌,
}
use satan_attrd.Store.Counter
use satan_attrd.Store.Counter.{Counter}

-- A `HashMap<String, V>`, as an association list: it is never iterated.
abbrev pub Assoc : Type 0 → Type 0
Assoc V = List (String × V)

module _ {V : Type 0} where
  unfoldable pub lookup : String → Assoc V → Option V
  lookup k [] = none
  lookup k ((j, v) ∷ m) = if str_eq j k then some v else lookup k m

  unfoldable pub remove : String → Assoc V → Assoc V
  remove k [] = []
  remove k ((j, v) ∷ m) = let rest = remove k m in if str_eq j k then rest else (j, v) ∷ rest

  -- Writes through the reference that `entry` gives.
  unfoldable pub put : String → V → Assoc V → Assoc V
  put k v [] = (k, v) ∷ []
  put k v ((j, w) ∷ m) = let rest = put k v m in if str_eq j k then (j, v) ∷ m else (j, w) ∷ rest

pub record LruCounterMap : Type 0 where
  pub cap : ℕ
  pub order : List String
  pub map : Assoc Counter

-- `COUNTER_LRU_CAP`
abbrev pub counter_lru_cap : ℕ
counter_lru_cap = 64

-- `LruCounterMap::new`
abbrev pub new : ℕ → LruCounterMap
new cap = record { cap = cap; order = []; map = [] }

-- `iter().position()`
unfoldable pub position : String → List String → Option ℕ
position k [] = none
position k (j ∷ l) =
    let rest = position k l in
    if str_eq j k then some 0 else elim rest [ none ↦ none | some i ↦ some (suc i) ]

-- `VecDeque::remove`: the list without the element at an index, and the element.
unfoldable pub remove_at : ℕ → List String → Option String × List String
remove_at i [] = (none, [])
remove_at zero (j ∷ l) = (some j, l)
remove_at (suc i) (j ∷ l) = let (x, rest) = remove_at i l in (x, j ∷ rest)

-- The `if let` of the position: the run is moved to the back.
unfoldable pub touch : ℕ → LruCounterMap → LruCounterMap
unfolding remove_at
touch pos m =
    let (touched, rest) = remove_at pos m.order in
    record m { order = rest ++ unwrap_or touched "" ∷ [] }

-- A full map drops the run at the front, if there is one.
unfoldable pub evict : LruCounterMap → LruCounterMap
unfolding remove
evict m =
    if leb m.cap (length m.map)
    then elim m.order [
      | [] ↦ m
      | evicted ∷ rest ↦ record m { order = rest; map = remove evicted m.map }
    ]
    else m

unfoldable pub order_for : String → LruCounterMap → LruCounterMap
order_for run_id m = elim (position run_id m.order) [
  | some pos ↦ touch pos m
  | none ↦ let m' = evict m in record m' { order = m'.order ++ run_id ∷ [] }
]

-- `entry(run_id).or_default()`
unfoldable pub or_default : String → LruCounterMap → LruCounterMap × Counter
or_default run_id m = elim (lookup run_id m.map) [
  | some c ↦ (m, c)
  | none ↦ (record m { map = put run_id Counter.new m.map }, Counter.new)
]

-- `get_or_create`, with the counter that the returned reference points to.
unfoldable pub get_or_create : LruCounterMap → String → LruCounterMap × Counter
get_or_create m run_id = or_default run_id (order_for run_id m)

-- `len` and `is_empty`
abbrev pub len : LruCounterMap → ℕ
len m = length m.map

abbrev pub is_empty : LruCounterMap → Bool
is_empty m = elim m.map [ [] ↦ true | _ ∷ _ ↦ false ]

-- What a dispatch does to the counter it was handed is seen in the map.
unfoldable pub write_counter : LruCounterMap → String → Counter → LruCounterMap
unfolding put
write_counter m run_id c = record m { map = put run_id c m.map }
