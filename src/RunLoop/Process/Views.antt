-- ===== src/RunLoop/Process/Views.antt =====
-- The steps of the run loop that leave a view of the tables as it is.
use satan_attrd.Prelude.{none, some, ◌≡◌, refl, List, All}
use satan_attrd.Prelude.{String}
use satan_attrd.Extern.{Extern}
use satan_attrd.Steps.Keeps.{Keeps, Returns}
use satan_attrd.Store.Counter.{Counter}
use satan_attrd.Store.Database.{Database, Db}
use satan_attrd.Store.Database.Preserves.{Preserves}
use satan_attrd.Dispatcher.Emit.{Panics}
use satan_attrd.Dispatcher.Emit.Each.{AllOf}
use satan_attrd.RunLoop.Lru.{get_or_create}
use satan_attrd.RunLoop.Loop.{RunLoop, store, counted, with_counter}

module _ {X : Extern} {V : Type 0} (view : Database X → V) where
  -- The view, of the state of the run loop.
  abbrev pub seen : RunLoop X → V
  seen s = view s.world.db

  pub store-Keeps : {A : Type 0} (m : Db X A) → Preserves view m → Keeps seen (store m)
  unfolding store
  store-Keeps m h s = h s.world

  counted_keeps :
      {E : Type 0} (run_id : String) (s : RunLoop X) (r : Panics E)
      → seen (counted run_id s r).1 ≡ seen s
  counted_keeps run_id s none = refl
  counted_keeps run_id s (some (es, c)) = refl

  pub with_counter-Keeps :
      {E : Type 0} (run_id : String) (dispatch : Counter → Panics E)
      → Keeps seen (with_counter run_id dispatch)
  unfolding with_counter
  with_counter-Keeps run_id dispatch s =
      let (counters, c) = get_or_create s.counters run_id in
      counted_keeps run_id (record s { counters = counters }) (dispatch c)

module _ {X : Extern} where
  counted-Returns :
      {E : Type 0} (P : E → Type 0) (run_id : String) (s : RunLoop X) (r : Panics (List E))
      → AllOf P r
      → Returns (All P) (counted run_id s r)
  counted-Returns P run_id s none h = tt
  counted-Returns P run_id s (some (es, c)) h = h

  pub with_counter-Returns :
      {E : Type 0} (P : E → Type 0) (run_id : String) (dispatch : Counter → Panics (List E))
      → ((c : Counter) → AllOf P (dispatch c))
      → (s : RunLoop X) → Returns (All P) (with_counter run_id dispatch s)
  unfolding with_counter
  with_counter-Returns P run_id dispatch h s =
      let (counters, c) = get_or_create s.counters run_id in
      counted-Returns P run_id (record s { counters = counters }) (dispatch c) (h c)
