-- ===== src/Dispatcher/Emit/Laws.antt =====
-- What holds of the events that the shared loop numbers.
use satan_attrd.Prelude.{
  ℕ, zero, suc, ◌+◌, Bool, List, [], ◌∷◌, ◌≡◌, refl, inl, inr, Bool-cases, length, length-map, All,
  map, some,
}
use satan_attrd.Prelude.Int.{ℤ, pos, ◌≤ℤ◌}
use satan_attrd.Store.Counter
use satan_attrd.Store.Counter.{Counter}
use satan_attrd.Dispatcher.Emit.{Panics, emit, kept, numbered, emit_lem}

-- The numbers n + 1, …, n + k.
abbrev pub seqs_from : ℕ → ℕ → List ℤ
seqs_from n zero = []
seqs_from n (suc k) = pos (suc n) ∷ seqs_from (suc n) k

module _ {E A : Type 0} where
  pub map-numbered :
      {B : Type 0} (f : E → B) (key : A → B) (event : A → ℤ → E)
      → ((x : A) (s : ℤ) → f (event x s) ≡ key x)
      → (n : ℕ) (xs : List A) → map f (numbered event n xs) ≡ map key xs
  unfolding numbered
  map-numbered f key event h n [] = refl
  map-numbered f key event h n (x ∷ xs) =
      cc (h x (pos (suc n)), map-numbered f key event h (suc n) xs)

  pub seqs-numbered :
      (seq : E → ℤ) (event : A → ℤ → E)
      → ((x : A) (s : ℤ) → seq (event x s) ≡ s)
      → (n : ℕ) (xs : List A) → map seq (numbered event n xs) ≡ seqs_from n (length xs)
  unfolding numbered
  seqs-numbered seq event h n [] = refl
  seqs-numbered seq event h n (x ∷ xs) =
      cc (h x (pos (suc n)), seqs-numbered seq event h (suc n) xs)

  pub All-numbered :
      (P : E → Type 0) (event : A → ℤ → E) (n : ℕ) (xs : List A)
      → All (λ x. (s : ℤ) → P (event x s)) xs
      → All P (numbered event n xs)
  unfolding numbered
  All-numbered P event n [] h = tt
  All-numbered P event n (x ∷ xs) h = (h.0 (pos (suc n)), All-numbered P event (suc n) xs h.1)

module _ {A : Type 0} (skip : A → Bool) where
  pub All-kept : (P : A → Type 0) (xs : List A) → All P xs → All P (kept skip xs)
  unfolding kept
  All-kept P [] h = tt
  All-kept P (x ∷ xs) h = elim (Bool-cases (skip x)) [
    | inl out ↦ rw out (All-kept P xs h.1)
    | inr stays ↦ rw stays (h.0, All-kept P xs h.1)
  ]

-- What a dispatcher returns when the counter stands at `n`: no panic, events with these names and
-- the numbers from n + 1 on, each with the property, and the counter at the last number.
pub record Emitted {E : Type 0} {N : Type 0} (name : E → N) (seq : E → ℤ) (P : E → Type 0) (n : ℕ)
    (names : List N) (result : Panics (List E)) : Type 0 where
  pub events : List E
  pub returned : result ≡ some (events, record { inner = pos (n + length names) })
  pub names_are : map name events ≡ names
  pub seqs_are : map seq events ≡ seqs_from n (length names)
  pub each : All P events

pub emit-Emitted :
    {E A N : Type 0} (skip : A → Bool) (event : A → ℤ → E) (name : E → N) (seq : E → ℤ)
    (key : A → N) (P : E → Type 0) (n : ℕ) (xs : List A)
    → ((x : A) (s : ℤ) → name (event x s) ≡ key x)
    → ((x : A) (s : ℤ) → seq (event x s) ≡ s)
    → All (λ x. (s : ℤ) → P (event x s)) xs
    → pos (n + length (map key (kept skip xs))) ≤ℤ Counter.i32_max
    → Emitted name seq P n (map key (kept skip xs)) (emit skip event xs (record { inner = pos n }))
emit-Emitted skip event name seq key P n xs names seqs each room = record {
  events = numbered event n (kept skip xs);
  returned = rw length-map (emit_lem skip event n xs (rw length-map at room));
  names_are = map-numbered name key event names n (kept skip xs);
  seqs_are = rw length-map (seqs-numbered seq event seqs n (kept skip xs));
  each =
      All-numbered P event n (kept skip xs) (All-kept skip (λ x. (s : ℤ) → P (event x s)) xs each);
}
