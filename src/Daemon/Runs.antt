-- ===== src/Daemon/Runs.antt =====
-- Operations whose effect on the tables is a sequence of writes, and which do not make a connection
-- fail that does not.

use satan_attrd.Prelude.{Bool, true, false, List, [], ◌∷◌, ◌≡◌, if◌then◌else◌}
use satan_attrd.Error.{Result, ok, err}
use satan_attrd.Extern.{Extern}
use satan_attrd.Store.Database.{Database, World, Db, ◌>>=◌, continue, statement}
use satan_attrd.Daemon.Writes.{Writes, here, Writes-trans}

module _ {X : Extern} where
  abbrev pub Moved : World X → World X → Type 0
  Moved w w' = Writes w.db w'.db × (w.faults ≡ [] → w'.faults ≡ [])

  pub Moved-refl : (w : World X) → Moved w w
  Moved-refl w = (here, λ h. h)

  pub Moved-trans : {a b c : World X} → Moved a b → Moved b c → Moved a c
  Moved-trans p q = (Writes-trans p.0 q.0, λ h. q.1 (p.1 h))

  -- An operation of the store.
  abbrev pub Runs : {A : Type 0} → Db X A → Type 0
  Runs m = (w : World X) → Moved w (m w).1

  continue-Runs :
      {A B : Type 0} (k : A → Db X B)
      → ((a : A) → Runs (k a))
      → (r : Result A × World X) → Moved r.1 (continue k r).1
  continue-Runs k h (ok a, w) = h a w
  continue-Runs k h (err e, w) = Moved-refl w

  pub bind-Runs :
      {A B : Type 0} (m : Db X A) (k : A → Db X B)
      → Runs m
      → ((a : A) → Runs (k a))
      → Runs (m >>= k)
  bind-Runs m k h hk w = Moved-trans (h w) (continue-Runs k hk (m w))

  at_statement :
      {A : Type 0} (f : Database X → Result A × Database X)
      → ((db : Database X) → Writes db (f db).1)
      → (db : Database X) (faults : List Bool)
      → Moved
          (record { db = db; faults = faults })
          (statement f (record { db = db; faults = faults })).1
  unfolding statement
  at_statement f h db [] = (h db, λ e. e)
  at_statement f h db (true ∷ rest) = (here, λ e. cc)
  at_statement f h db (false ∷ rest) = (h db, λ e. cc)

  pub statement-Runs :
      {A : Type 0} (f : Database X → Result A × Database X)
      → ((db : Database X) → Writes db (f db).1)
      → Runs (statement f)
  statement-Runs f h w = at_statement f h w.db w.faults

  pub if-Runs : {A : Type 0} (b : Bool) (m n : Db X A) → Runs m → Runs n → Runs (if b then m else n)
  if-Runs true m n h k = h
  if-Runs false m n h k = k
