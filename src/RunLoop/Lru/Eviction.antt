-- ===== src/RunLoop/Lru/Eviction.antt =====
-- What eviction does to the other runs, and to the run that it drops.
use satan_attrd.Prelude.{
  String, true, false, none, some, List, ◌∷◌, ◌≡◌, ap, refl, arith, length, leb, str_eq, eq_iff,
  if◌then◌else◌,
}
use satan_attrd.Store.Counter
use satan_attrd.Store.Counter.{Counter}
use satan_attrd.RunLoop.Lru.{LruCounterMap, lookup, remove, get_or_create}
use satan_attrd.RunLoop.Lru.Lists.{mem}
use satan_attrd.RunLoop.Lru.Entries.{lookup-none, lookup-remove, lookup-put}
use satan_attrd.RunLoop.Lru.Coherent.{IsCoherent, admitted, evict_full}
use satan_attrd.RunLoop.Lru.Invariant.{get_or_create-new, get_or_create-IsCoherent}

module _ (m : LruCounterMap) (run_id e : String) (rest : List String) (h : IsCoherent m)
    (front : m.order ≡ e ∷ rest) (full : leb m.cap (length m.map) ≡ true)
    (fresh : mem run_id m.order ≡ false) where
  get_or_create_full :
      get_or_create m run_id
      ≡ (admitted run_id (record m { order = rest; map = remove e m.map }), Counter.new)
  get_or_create_full = rw (get_or_create-new run_id m fresh h, evict_full m e rest front full) refl

  front_differs : str_eq e run_id ≡ false
  unfolding mem
  front_differs = ground (arith, front, fresh)

  -- A new run in a full map drops the run at the front of the order and starts at zero; every
  -- other run keeps its counter.
  pub eviction_lookup :
      (k : String)
      → lookup k (get_or_create m run_id).0.map ≡ (
          if str_eq run_id k then some Counter.new else if str_eq e k then none else lookup k m.map)
  eviction_lookup k = rw (get_or_create_full) (simp (lookup-put, lookup-remove))

  -- The run that was dropped comes back with a counter at zero, so its numbers start at 1 again,
  -- whatever it had been given before.
  pub evicted_run_restarts : (get_or_create (get_or_create m run_id).0 e).1 ≡ Counter.new
  evicted_run_restarts =
      let m' = (get_or_create m run_id).0 in
      let coherent = get_or_create-IsCoherent m run_id h in
      let gone : lookup e m'.map ≡ none =
        ground
          (arith, eviction_lookup e, eq_iff run_id e, eq_iff e run_id, eq_iff e e, front_differs) in
      let dropped : mem e m'.order ≡ false =
        ground (arith, lookup-none e m'.map gone, coherent.same_runs e) in
      ap (λ r. r.1) (get_or_create-new e m' dropped coherent)
