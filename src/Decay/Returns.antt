-- ===== src/Decay/Returns.antt =====
-- What is known after a step of the scheduler that ended in a value.
use mathlib.Core.Path.{subst}
use satan_attrd.Prelude.{Bool, true, false, sym, List, [], ◌∷◌}
use satan_attrd.Error.{Result, ok, err}
use satan_attrd.Extern.{Extern}
use satan_attrd.Steps.{ended, Step}
use satan_attrd.Steps.Keeps.{Keeps, ReturnsIn, holds_in}
use satan_attrd.Store.Database.{Database, statement}
use satan_attrd.Decay.{DayCounterState}
use satan_attrd.Decay.Views.{seen}
use satan_attrd.Decay.Tick.{DecayScheduler, store}

module _ {X : Extern} where
  -- If a statement gave a value, the value and the tables have the property.
  abbrev pub GivesIn : {A : Type 0} → (A → Database X → Type 0) → Result A × Database X → Type 0
  GivesIn Q (ok a, db) = Q a db
  GivesIn Q (err e, db) = Unit

  gives :
      {A : Type 0} (Q : A → Database X → Type 0) (r : Result A × Database X) (faults : List Bool)
      (state : DayCounterState)
      → GivesIn Q r
      → ReturnsIn
          (λ a (t : DecayScheduler X). Q a t.world.db)
          (
            ended r.0,
            record { world = record { db = r.1; faults = faults }; day_counter_state = state },
          )
  gives Q (ok a, db) faults state h = h
  gives Q (err e, db) faults state h = tt

  at_statement :
      {A : Type 0} (Q : A → Database X → Type 0) (f : Database X → Result A × Database X)
      (db : Database X) (faults : List Bool) (state : DayCounterState)
      → GivesIn Q (f db)
      → ReturnsIn
          (λ a (t : DecayScheduler X). Q a t.world.db)
          (store
            (statement f)
            (record { world = record { db = db; faults = faults }; day_counter_state = state }))
  unfolding store statement
  at_statement Q f db [] state h = gives Q (f db) [] state h
  at_statement Q f db (true ∷ later) state h = tt
  at_statement Q f db (false ∷ later) state h = gives Q (f db) later state h

  pub statement-ReturnsIn :
      {A : Type 0} (Q : A → Database X → Type 0) (f : Database X → Result A × Database X)
      (s : DecayScheduler X)
      → GivesIn Q (f s.world.db)
      → ReturnsIn (λ a (t : DecayScheduler X). Q a t.world.db) (store (statement f) s)
  statement-ReturnsIn Q f s h = at_statement Q f s.world.db s.world.faults s.day_counter_state h

  -- What keeps a view keeps what holds of it.
  pub kept-ReturnsIn :
      {A V : Type 0} (view : Database X → V) (Q : V → Type 0) (m : Step (DecayScheduler X) A)
      → Keeps (seen view) m
      → (s : DecayScheduler X) → Q (view s.world.db)
      → ReturnsIn (λ _ (t : DecayScheduler X). Q (view t.world.db)) (m s)
  kept-ReturnsIn view Q m h s q = holds_in (λ t. Q (view t.world.db)) (m s) (subst Q (sym (h s)) q)
