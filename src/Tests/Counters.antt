-- ===== src/Tests/Counters.antt =====
-- The counters and their bounded map at concrete inputs.
use satan_attrd.Prelude.{◌≡◌, ◌⊎◌, none, [], ◌∷◌, arith, refl}
use satan_attrd.Prelude.Int.{pos, ◌+ℤ◌}
use satan_attrd.Store.Counter
use satan_attrd.Store.Counter.{Counter, next, i32_max, i32_min}
use satan_attrd.Store.Counter.Exhaustion.{next_twice}
use satan_attrd.RunLoop.Lru.{LruCounterMap, lookup, get_or_create}
use satan_attrd.RunLoop.Lru.Lists.{mem}
use satan_attrd.RunLoop.Lru.Coherent.{IsCoherent}
use satan_attrd.RunLoop.Lru.Invariant.{get_or_create-IsCoherent}
use satan_attrd.RunLoop.Lru.Eviction.{evicted_run_restarts}
use satan_attrd.RunLoop.Lru as Lru

-- The counter one number short of the largest gives it twice.
next_twice_example :
    (i32_max ≡ i32_max +ℤ pos 1)
    ⊎ ((i32_max ≡ i32_max)
        × (i32_max ≡ i32_max)
        × (next (record { inner = i32_min +ℤ pos 1 }) ≡ none))
unfolding next ◌+ℤ◌
next_twice_example =
    next_twice (record { inner = pos 2147483646 }) (record { inner = i32_max })
      (record { inner = i32_min }) i32_max i32_max (omega arith, omega arith) refl refl

-- A map of one place, held by one run that has been given three numbers.
abbrev held : LruCounterMap
held = record { cap = 1; order = "a" ∷ []; map = ("a", record { inner = pos 3 }) ∷ [] }

held-IsCoherent : IsCoherent held
unfolding mem
held-IsCoherent = record {
  order_distinct = (refl, tt);
  keys_distinct = (refl, tt);
  same_runs = λ k. refl;
  same_length = refl;
  has_room = omega arith;
  bounded = omega arith;
}

get_or_create-IsCoherent_example : IsCoherent (get_or_create held "b").0
get_or_create-IsCoherent_example = get_or_create-IsCoherent held "b" held-IsCoherent

evicted_run_restarts_example : (get_or_create (get_or_create held "b").0 "a").1 ≡ Counter.new
unfolding mem
evicted_run_restarts_example = evicted_run_restarts held "b" "a" [] held-IsCoherent refl refl refl
