-- ===== src/Store/Database/Calm.antt =====
-- Statements on a connection that does not fail, and the sequencing of operations.
use satan_attrd.Prelude.{[], ◌≡◌, ap, refl, arith}
use satan_attrd.Error.{Error, Result, ok, err}
use satan_attrd.Extern.{Extern}
use satan_attrd.Store.Database.{
  Database, World, Db, ◌>>=◌, continue, statement, transaction, end_transaction,
}

module _ {X : Extern} where
  -- A world whose connection does not fail.
  abbrev pub calm : Database X → World X
  calm db = record { db = db; faults = [] }

  pub statement-calm :
      {A : Type 0} (f : Database X → Result A × Database X) (db db' : Database X) (r : Result A)
      → f db ≡ (r, db')
      → statement f (calm db) ≡ (r, calm db')
  unfolding statement
  statement-calm f db db' r h = ap (λ p. (p.0, calm p.1)) h

  pub bind_ok :
      {A B : Type 0} (m : Db X A) (f : A → Db X B) (w w' : World X) (a : A)
      → m w ≡ (ok a, w')
      → (m >>= f) w ≡ f a w'
  bind_ok m f w w' a h = ap (continue f) h

  pub bind_err :
      {A B : Type 0} (m : Db X A) (f : A → Db X B) (w w' : World X) (e : Error)
      → m w ≡ (err e, w')
      → (m >>= f) w ≡ (err e, w')
  bind_err m f w w' e h = ap (continue f) h

  pub transaction_ok :
      {A : Type 0} (m : Db X A) (w w' : World X) (a : A)
      → m w ≡ (ok a, w')
      → transaction m w ≡ (ok a, w')
  unfolding transaction
  transaction_ok m w w' a h = ap (end_transaction w.db) h

  pub transaction_atomic :
      {A : Type 0} (m : Db X A) (w : World X) (e : Error)
      → (transaction m w).0 ≡ err e
      → (transaction m w).1.db ≡ w.db
  unfolding transaction
  transaction_atomic m w e h = rolled_back w.db (m w) e h
    where
      rolled_back :
          {A : Type 0} (before : Database X) (r : Result A × World X) (e : Error)
          → (end_transaction before r).0 ≡ err e
          → (end_transaction before r).1.db ≡ before
      rolled_back before (ok a, w) e h = ground arith
      rolled_back before (err e', w) e h = refl
