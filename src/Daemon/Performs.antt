-- ===== src/Daemon/Performs.antt =====
-- Steps of a task with a state of its own, on the tables.
use satan_attrd.Extern.{Extern}
use satan_attrd.Steps.{Ended, Step, done, failed, panicked, continue, ◌>>=◌}
use satan_attrd.Store.Database.{World}
use satan_attrd.Daemon.Runs.{Moved, Moved-refl, Moved-trans}

module _ {X : Extern} {S : Type 0} (world : S → World X) where
  abbrev pub Performs : {A : Type 0} → Step S A → Type 0
  Performs m = (s : S) → Moved (world s) (world (m s).1)

  pub continue-Performs :
      {A B : Type 0} (k : A → Step S B)
      → ((a : A) → Performs (k a))
      → (r : Ended A × S) → Moved (world r.1) (world (continue k r).1)
  continue-Performs k h (done a, s) = h a s
  continue-Performs k h (failed e, s) = Moved-refl (world s)
  continue-Performs k h (panicked, s) = Moved-refl (world s)

  pub bind-Performs :
      {A B : Type 0} (m : Step S A) (k : A → Step S B)
      → Performs m
      → ((a : A) → Performs (k a))
      → Performs (m >>= k)
  bind-Performs m k h hk s = Moved-trans (h s) (continue-Performs k hk (m s))
