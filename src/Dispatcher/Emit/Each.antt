-- ===== src/Dispatcher/Emit/Each.antt =====
-- A property of every event that the shared loop can build.
use satan_attrd.Prelude.{Bool, true, false, Option, none, some, List, [], ◌∷◌, All}
use satan_attrd.Prelude.Int.{ℤ}
use satan_attrd.Store.Counter
use satan_attrd.Store.Counter.{Counter}
use satan_attrd.Dispatcher.Emit.{Panics, push, emit}

-- Unless the computation panicked, all its events have the property.
abbrev pub AllOf : {E : Type 0} → (E → Type 0) → Panics (List E) → Type 0
AllOf P none = Unit
AllOf P (some (es, c)) = All P es

push-AllOf :
    {E : Type 0} (P : E → Type 0) (e : E) (r : Panics (List E))
    → P e
    → AllOf P r
    → AllOf P (push e r)
push-AllOf P e none p h = tt
push-AllOf P e (some (es, c)) p h = (p, h)

after_next :
    {E A : Type 0} (P : E → Type 0) (event : A → ℤ → E) (x : A) (rest : Counter → Panics (List E))
    (r : Option (ℤ × Counter))
    → ((s : ℤ) → P (event x s))
    → ((c : Counter) → AllOf P (rest c))
    → AllOf P (elim r [ none ↦ none | some (seq, c') ↦ push (event x seq) (rest c') ])
after_next P event x rest none h k = tt
after_next P event x rest (some (seq, c')) h k = push-AllOf P (event x seq) (rest c') (h seq) (k c')

by_skip :
    {E : Type 0} (P : E → Type 0) (b : Bool) (r r' : Panics (List E))
    → AllOf P r
    → AllOf P r'
    → AllOf P (elim b [ true ↦ r | false ↦ r' ])
by_skip P true r r' h h' = h
by_skip P false r r' h h' = h'

-- A property of every event that the loop can build holds of all that it returns, whatever the
-- counter.
pub emit-AllOf :
    {E A : Type 0} (P : E → Type 0) (skip : A → Bool) (event : A → ℤ → E)
    → ((x : A) (s : ℤ) → P (event x s))
    → (xs : List A) (c : Counter) → AllOf P (emit skip event xs c)
unfolding emit
emit-AllOf P skip event h [] c = tt
emit-AllOf P skip event h (x ∷ xs) c =
    let rest = emit-AllOf P skip event h xs in
    by_skip P (skip x) (emit skip event xs c)
      (elim (Counter.next c) [
        | none ↦ none
        | some (seq, c') ↦ push (event x seq) (emit skip event xs c')
      ])
      (rest c) (after_next P event x (emit skip event xs) (Counter.next c) (h x) rest)
