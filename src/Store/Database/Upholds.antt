-- ===== src/Store/Database/Upholds.antt =====
-- Operations that uphold an invariant of the tables, whichever statements fail.
use mathlib.Core.Path.{subst}
use satan_attrd.Prelude.{Bool, true, false, List, [], ◌∷◌, sym}
use satan_attrd.Error.{Result, ok, err}
use satan_attrd.Extern.{Extern}
use satan_attrd.Store.Database.{
  Database, World, Db, ◌>>=◌, continue, statement, transaction, end_transaction,
}
use satan_attrd.Store.Database.Preserves.{Preserves}

module _ {X : Extern} (P : Database X → Type 0) where
  abbrev pub Upholds : {A : Type 0} → Db X A → Type 0
  Upholds m = (w : World X) → P w.db → P (m w).1.db

  continue-Upholds :
      {A B : Type 0} (k : A → Db X B)
      → ((a : A) → Upholds (k a))
      → (r : Result A × World X) → P r.1.db
      → P (continue k r).1.db
  continue-Upholds k h (ok a, w) p = h a w p
  continue-Upholds k h (err e, w) p = p

  pub bind-Upholds :
      {A B : Type 0} (m : Db X A) (k : A → Db X B)
      → Upholds m
      → ((a : A) → Upholds (k a))
      → Upholds (m >>= k)
  bind-Upholds m k h hk w p = continue-Upholds k hk (m w) (h w p)

  at_statement :
      {A : Type 0} (f : Database X → Result A × Database X)
      → ((db : Database X) → P db → P (f db).1)
      → (db : Database X) (faults : List Bool) → P db
      → P (statement f (record { db = db; faults = faults })).1.db
  unfolding statement
  at_statement f h db [] p = h db p
  at_statement f h db (true ∷ later) p = p
  at_statement f h db (false ∷ later) p = h db p

  pub statement-Upholds :
      {A : Type 0} (f : Database X → Result A × Database X)
      → ((db : Database X) → P db → P (f db).1)
      → Upholds (statement f)
  statement-Upholds f h w p = at_statement f h w.db w.faults p

  at_end :
      {A : Type 0} (before : Database X) (r : Result A × World X)
      → P before
      → P r.1.db
      → P (end_transaction before r).1.db
  at_end before (ok a, w) p q = q
  at_end before (err e, w) p q = p

  pub transaction-Upholds : {A : Type 0} (m : Db X A) → Upholds m → Upholds (transaction m)
  unfolding transaction
  transaction-Upholds m h w p = at_end w.db (m w) p (h w p)

-- An invariant of a view is upheld by what preserves the view.
pub view-Upholds :
    {X : Extern} {V A : Type 0} (Q : V → Type 0) (view : Database X → V) (m : Db X A)
    → Preserves view m
    → Upholds (λ db. Q (view db)) m
view-Upholds Q view m h w p = subst Q (sym (h w)) p
