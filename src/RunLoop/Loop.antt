-- ===== src/RunLoop/Loop.antt =====
-- src/run_loop.rs: the state of the run loop, and what reaches it from the store and the counters.
use satan_attrd.Prelude.{String, none, some}
use satan_attrd.Extern.{Extern}
use satan_attrd.Steps.{Ended, Step, ended, done, panicked}
use satan_attrd.Store.Counter.{Counter}
use satan_attrd.Store.Database.{World, Db}
use satan_attrd.Dispatcher.Emit.{Panics}
use satan_attrd.RunLoop.Lru
use satan_attrd.RunLoop.Lru.{LruCounterMap, counter_lru_cap, get_or_create, write_counter}

pub record RunLoop (X : Extern) : Type 0 where
  pub world : World X
  pub counters : LruCounterMap

module _ {X : Extern} where
  -- `RunLoop::new`
  abbrev pub new : World X → RunLoop X
  new world = record { world = world; counters = Lru.new counter_lru_cap }

  -- An operation of the store.
  unfoldable pub store : {A : Type 0} → Db X A → Step (RunLoop X) A
  store m s = let (r, w) = m s.world in (ended r, record s { world = w })

  abbrev pub counted : {E : Type 0} → String → RunLoop X → Panics E → Ended E × RunLoop X
  counted run_id s none = (panicked, s)
  counted run_id s (some (es, c)) =
      (done es, record s { counters = write_counter s.counters run_id c })

  -- A dispatch with the counter of a run. The numbers that it takes are seen in the map.
  unfoldable pub with_counter : {E : Type 0} → String → (Counter → Panics E) → Step (RunLoop X) E
  with_counter run_id dispatch s =
      let (counters, c) = get_or_create s.counters run_id in
      counted run_id (record s { counters = counters }) (dispatch c)
