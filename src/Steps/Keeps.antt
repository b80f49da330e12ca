-- ===== src/Steps/Keeps.antt =====
-- Steps that leave a view of the state as it is, on every end or on every end but a value.
use satan_attrd.Prelude.{◌≡◌, ◌∙◌, refl}
use satan_attrd.Steps.{Ended, done, failed, panicked, Step, continue, ◌>>=◌}

module _ {S V : Type 0} (view : S → V) where
  abbrev pub Keeps : {A : Type 0} → Step S A → Type 0
  Keeps m = (s : S) → view (m s).1 ≡ view s

  -- Unless it ended in a value, the view is as it was before.
  abbrev pub KeptUnlessDone : {A : Type 0} → S → Ended A × S → Type 0
  KeptUnlessDone before (done a, s) = Unit
  KeptUnlessDone before (failed e, s) = view s ≡ view before
  KeptUnlessDone before (panicked, s) = view s ≡ view before

  abbrev pub KeepsUnlessDone : {A : Type 0} → Step S A → Type 0
  KeepsUnlessDone m = (s : S) → KeptUnlessDone s (m s)

  continue-Keeps :
      {A B : Type 0} (k : A → Step S B)
      → ((a : A) → Keeps (k a))
      → (r : Ended A × S) → view (continue k r).1 ≡ view r.1
  continue-Keeps k h (done a, s) = h a s
  continue-Keeps k h (failed e, s) = refl
  continue-Keeps k h (panicked, s) = refl

  pub bind-Keeps :
      {A B : Type 0} (m : Step S A) (k : A → Step S B)
      → Keeps m
      → ((a : A) → Keeps (k a))
      → Keeps (m >>= k)
  bind-Keeps m k h hk s = continue-Keeps k hk (m s) ∙ h s

  pub kept_before :
      {A : Type 0} (before after : S)
      → view after ≡ view before
      → (r : Ended A × S) → KeptUnlessDone after r
      → KeptUnlessDone before r
  kept_before before after e (done a, s) h = tt
  kept_before before after e (failed err, s) h = h ∙ e
  kept_before before after e (panicked, s) h = h ∙ e

  continue_kept :
      {A B : Type 0} (k : A → Step S B)
      → ((a : A) → KeepsUnlessDone (k a))
      → (before : S) (r : Ended A × S) → view r.1 ≡ view before
      → KeptUnlessDone before (continue k r)
  continue_kept k h before (done a, s) e = kept_before before s e (k a s) (h a s)
  continue_kept k h before (failed err, s) e = e
  continue_kept k h before (panicked, s) e = e

  pub bind-KeepsUnlessDone :
      {A B : Type 0} (m : Step S A) (k : A → Step S B)
      → Keeps m
      → ((a : A) → KeepsUnlessDone (k a))
      → KeepsUnlessDone (m >>= k)
  bind-KeepsUnlessDone m k h hk s = continue_kept k hk s (m s) (h s)

-- If it ended in a value, the value has the property.
abbrev pub Returns : {S A : Type 0} → (A → Type 0) → Ended A × S → Type 0
Returns P (done a, s) = P a
Returns P (failed e, s) = Unit
Returns P (panicked, s) = Unit

module _ {S : Type 0} where
  continue-Returns :
      {A B : Type 0} (P : B → Type 0) (k : A → Step S B)
      → ((a : A) (s : S) → Returns P (k a s))
      → (r : Ended A × S) → Returns P (continue k r)
  continue-Returns P k h (done a, s) = h a s
  continue-Returns P k h (failed e, s) = tt
  continue-Returns P k h (panicked, s) = tt

  pub bind-Returns :
      {A B : Type 0} (P : B → Type 0) (m : Step S A) (k : A → Step S B)
      → ((a : A) (s : S) → Returns P (k a s))
      → (s : S) → Returns P ((m >>= k) s)
  bind-Returns P m k h s = continue-Returns P k h (m s)

module _ {S V : Type 0} (view : S → V) where
  continue-Keeps_if :
      {A B : Type 0} (P : A → Type 0) (k : A → Step S B)
      → ((a : A) → P a → Keeps view (k a))
      → (r : Ended A × S) → Returns P r
      → view (continue k r).1 ≡ view r.1
  continue-Keeps_if P k h (done a, s) p = h a p s
  continue-Keeps_if P k h (failed e, s) p = refl
  continue-Keeps_if P k h (panicked, s) p = refl

  -- What follows may use what is known of the value.
  pub bind-Keeps_if :
      {A B : Type 0} (P : A → Type 0) (m : Step S A) (k : A → Step S B)
      → Keeps view m
      → ((s : S) → Returns P (m s))
      → ((a : A) → P a → Keeps view (k a))
      → Keeps view (m >>= k)
  bind-Keeps_if P m k h p hk s = continue-Keeps_if P k hk (m s) (p s) ∙ h s

-- If it ended in a value, the value and the state have the property.
abbrev pub ReturnsIn : {S A : Type 0} → (A → S → Type 0) → Ended A × S → Type 0
ReturnsIn P (done a, s) = P a s
ReturnsIn P (failed e, s) = Unit
ReturnsIn P (panicked, s) = Unit

module _ {S V : Type 0} (view : S → V) where
  continue-Keeps_in :
      {A B : Type 0} (P : A → S → Type 0) (k : A → Step S B)
      → ((a : A) (s : S) → P a s → view (k a s).1 ≡ view s)
      → (r : Ended A × S) → ReturnsIn P r
      → view (continue k r).1 ≡ view r.1
  continue-Keeps_in P k h (done a, s) p = h a s p
  continue-Keeps_in P k h (failed e, s) p = refl
  continue-Keeps_in P k h (panicked, s) p = refl

  -- What follows may use what is known of the value and of the state.
  pub bind-Keeps_in :
      {A B : Type 0} (P : A → S → Type 0) (m : Step S A) (k : A → Step S B) (s : S)
      → view (m s).1 ≡ view s
      → ReturnsIn P (m s)
      → ((a : A) (s : S) → P a s → view (k a s).1 ≡ view s)
      → view ((m >>= k) s).1 ≡ view s
  bind-Keeps_in P m k s h p hk = continue-Keeps_in P k hk (m s) p ∙ h

  -- What every end keeps is known of the state after a value.
  pub kept_in :
      {A : Type 0} (before : S) (r : Ended A × S)
      → view r.1 ≡ view before
      → ReturnsIn (λ a s. view s ≡ view before) r
  kept_in before (done a, s) h = h
  kept_in before (failed e, s) h = tt
  kept_in before (panicked, s) h = tt

module _ {S : Type 0} where
  continue-ReturnsIn :
      {A B : Type 0} (P : A → S → Type 0) (Q : B → S → Type 0) (k : A → Step S B)
      → ((a : A) (s : S) → P a s → ReturnsIn Q (k a s))
      → (r : Ended A × S) → ReturnsIn P r
      → ReturnsIn Q (continue k r)
  continue-ReturnsIn P Q k h (done a, s) p = h a s p
  continue-ReturnsIn P Q k h (failed e, s) p = tt
  continue-ReturnsIn P Q k h (panicked, s) p = tt

  -- What is known after the first step is known before the second.
  pub bind-ReturnsIn :
      {A B : Type 0} (P : A → S → Type 0) (Q : B → S → Type 0) (m : Step S A) (k : A → Step S B)
      (s : S)
      → ReturnsIn P (m s)
      → ((a : A) (t : S) → P a t → ReturnsIn Q (k a t))
      → ReturnsIn Q ((m >>= k) s)
  bind-ReturnsIn P Q m k s p h = continue-ReturnsIn P Q k h (m s) p

  -- What holds at every end holds after a value.
  pub holds_in : {A : Type 0} (P : S → Type 0) (r : Ended A × S) → P r.1 → ReturnsIn (λ a s. P s) r
  holds_in P (done a, s) p = p
  holds_in P (failed e, s) p = tt
  holds_in P (panicked, s) p = tt

  pub both_in :
      {A : Type 0} (P Q : A → S → Type 0) (r : Ended A × S)
      → ReturnsIn P r
      → ReturnsIn Q r
      → ReturnsIn (λ a s. P a s × Q a s) r
  both_in P Q (done a, s) p q = (p, q)
  both_in P Q (failed e, s) p q = tt
  both_in P Q (panicked, s) p q = tt

  pub map_in :
      {A : Type 0} (P Q : A → S → Type 0)
      → ((a : A) (s : S) → P a s → Q a s)
      → (r : Ended A × S) → ReturnsIn P r
      → ReturnsIn Q r
  map_in P Q h (done a, s) p = h a s p
  map_in P Q h (failed e, s) p = tt
  map_in P Q h (panicked, s) p = tt
