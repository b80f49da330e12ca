-- ===== src/Steps.antt =====
-- Steps of a task on its state, which end in a value, an error or a panic.
pub mod Keeps
use satan_attrd.Error.{Error, Result, ok, err}

pub data Ended (A : Type 0) : Type 0 where
  done : A → Ended A
  failed : Error → Ended A
  panicked : Ended A

abbrev pub Step : Type 0 → Type 0 → Type 0
Step S A = S → Ended A × S

abbrev pub ended : {A : Type 0} → Result A → Ended A
ended (ok a) = done a
ended (err e) = failed e

module _ {S : Type 0} where
  abbrev pub return : {A : Type 0} → A → Step S A
  return a s = (done a, s)

  abbrev pub fail : {A : Type 0} → Error → Step S A
  fail e s = (failed e, s)

  abbrev pub continue : {A B : Type 0} → (A → Step S B) → Ended A × S → Ended B × S
  continue f (done a, s) = f a s
  continue f (failed e, s) = (failed e, s)
  continue f (panicked, s) = (panicked, s)

  infixl 5 ◌>>=◌ ◌>>◌
  abbrev pub ◌>>=◌ : {A B : Type 0} → Step S A → (A → Step S B) → Step S B
  ◌>>=◌ m f s = continue f (m s)

  abbrev pub ◌>>◌ : {A B : Type 0} → Step S A → Step S B → Step S B
  m >> k = m >>= λ _. k
