-- ===== src/Dispatcher/Emit.antt =====
-- src/dispatcher.rs: the loop that the dispatchers share. An item is skipped, or the counter
-- allocates a number and one event is pushed.
pub mod Laws
pub mod Each
use satan_attrd.Prelude.{
  ℕ, zero, suc, ◌+◌, ◌≤◌, Bool, true, false, Option, none, some, List, [], ◌∷◌, ◌≡◌, refl, inl, inr,
  arith, Bool-cases, if◌then◌else◌, length, All, map,
}
use satan_attrd.Prelude.Int.{ℤ, pos, ◌+ℤ◌, ◌≤ℤ◌, ◌<ℤ◌}
use satan_attrd.Store.Counter
use satan_attrd.Store.Counter.{Counter}

-- What a computation that may panic returns: `none` is a panic.
abbrev pub Panics : Type 0 → Type 0
Panics A = Option (A × Counter)

-- The items that are not skipped.
unfoldable pub kept : {A : Type 0} → (A → Bool) → List A → List A
kept skip [] = []
kept skip (x ∷ xs) = let rest = kept skip xs in if skip x then rest else x ∷ rest

-- The events of a list of items, numbered from `n + 1`.
unfoldable pub numbered : {E A : Type 0} → (A → ℤ → E) → ℕ → List A → List E
numbered event n [] = []
numbered event n (x ∷ xs) = event x (pos (suc n)) ∷ numbered event (suc n) xs

abbrev pub push : {E : Type 0} → E → Panics (List E) → Panics (List E)
push e none = none
push e (some (es, c)) = some (e ∷ es, c)

unfoldable pub emit : {E A : Type 0} → (A → Bool) → (A → ℤ → E) → List A → Counter → Panics (List E)
emit skip event [] c = some ([], c)
emit skip event (x ∷ xs) c = elim (skip x) [
  | true ↦ emit skip event xs c
  | false ↦ elim (Counter.next c) [
    | none ↦ none
    | some (seq, c') ↦ push (event x seq) (emit skip event xs c')
  ]
]

-- With room in the counter the loop gives one event for each kept item, in order, with
-- consecutive numbers, and leaves the counter at the last number.
pub emit_lem :
    {E A : Type 0} (skip : A → Bool) (event : A → ℤ → E) (n : ℕ) (xs : List A)
    → pos (n + length (kept skip xs)) ≤ℤ Counter.i32_max
    → emit skip event xs (record { inner = pos n })
      ≡ some (numbered event n (kept skip xs), record { inner = pos (n + length (kept skip xs)) })
unfolding emit kept numbered
emit_lem skip event n [] h = ground arith
emit_lem skip event n (x ∷ xs) h = elim (Bool-cases (skip x)) [
  | inl out ↦ ground (arith, emit_lem skip event n xs)
  | inr stays ↦ ground (arith, emit_lem skip event (suc n) xs, Counter.next-pos n)
]
