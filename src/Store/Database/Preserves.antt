-- ===== src/Store/Database/Preserves.antt =====
-- Operations that leave a view of the tables as it is, whichever statements fail.
use satan_attrd.Prelude.{Bool, true, false, List, [], ◌∷◌, ◌≡◌, ◌∙◌, refl}
use satan_attrd.Error.{Result, ok, err}
use satan_attrd.Extern.{Extern}
use satan_attrd.Store.Database.{Database, World, Db, ◌>>=◌, continue, statement}

module _ {X : Extern} {V : Type 0} (view : Database X → V) where
  abbrev pub Preserves : {A : Type 0} → Db X A → Type 0
  Preserves m = (w : World X) → view (m w).1.db ≡ view w.db

  continue-Preserves :
      {A B : Type 0} (k : A → Db X B)
      → ((a : A) → Preserves (k a))
      → (r : Result A × World X) → view (continue k r).1.db ≡ view r.1.db
  continue-Preserves k h (ok a, w) = h a w
  continue-Preserves k h (err e, w) = refl

  pub bind-Preserves :
      {A B : Type 0} (m : Db X A) (k : A → Db X B)
      → Preserves m
      → ((a : A) → Preserves (k a))
      → Preserves (m >>= k)
  bind-Preserves m k h hk w = continue-Preserves k hk (m w) ∙ h w

  statement_preserves :
      {A : Type 0} (f : Database X → Result A × Database X)
      → ((db : Database X) → view (f db).1 ≡ view db)
      → (db : Database X) (faults : List Bool)
      → view (statement f (record { db = db; faults = faults })).1.db ≡ view db
  unfolding statement
  statement_preserves f h db [] = h db
  statement_preserves f h db (true ∷ later) = refl
  statement_preserves f h db (false ∷ later) = h db

  pub statement-Preserves :
      {A : Type 0} (f : Database X → Result A × Database X)
      → ((db : Database X) → view (f db).1 ≡ view db)
      → Preserves (statement f)
  statement-Preserves f h w = statement_preserves f h w.db w.faults
