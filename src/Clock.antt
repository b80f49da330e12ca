-- ===== src/Clock.antt =====
-- src/clock.rs: the clock that reads the time of the system, and the one that is set by hand. A
-- handle on the second is the index of its cell among the mutexes; a clone is the same handle. A sum
-- of a time and a duration, which panics out of range, and the time of the system are parameters.
use satan_attrd.Prelude.{
  ℕ, zero, suc, Bool, true, false, Option, none, some, ◌≡◌, refl, ap, ◌∙◌, sym, List, [], ◌∷◌, ◌++◌,
  length, ◌==◌, if◌then◌else◌, arith,
}
use satan_attrd.Prelude.Int.{ℤ}

pub record Mutex (A : Type 0) : Type 0 where
  pub value : A
  pub poisoned : Bool

-- `LockResult`: the guard, or an error that holds the guard.
pub data LockResult (A : Type 0) : Type 0 where
  locked poison_error : A → LockResult A

abbrev pub lock : {A : Type 0} → Mutex A → LockResult A
lock m = if m.poisoned then poison_error m.value else locked m.value

-- `unwrap_or_else(PoisonError::into_inner)`
abbrev pub into_guard : {A : Type 0} → LockResult A → A
into_guard (locked a) = a
into_guard (poison_error a) = a

abbrev pub FakeClock : Type 0
FakeClock = ℕ

abbrev pub clone : FakeClock → FakeClock
clone c = c

-- The calls that change a clock.
pub data Change (DateTime : Type 0) : Type 0 where
  set_to : DateTime → Change DateTime
  advance_by : ℤ → Change DateTime

module _ {DateTime : Type 0} where
  -- `SystemClock::now`
  abbrev pub system_now : DateTime → DateTime
  system_now utc_now = utc_now

  -- `FakeClock::new`
  abbrev pub new : DateTime → List (Mutex DateTime) → FakeClock × List (Mutex DateTime)
  new now cells = (length cells, cells ++ record { value = now; poisoned = false } ∷ [])

  -- The value that a guard gives; a handle always has its cell.
  unfoldable pub guard : FakeClock → List (Mutex DateTime) → Option DateTime
  guard c [] = none
  guard zero (m ∷ cells) = some (into_guard (lock m))
  guard (suc c) (m ∷ cells) = guard c cells

  -- What a holder of the guard does to the cell.
  unfoldable pub write :
      (Mutex DateTime → Mutex DateTime) → FakeClock → List (Mutex DateTime) → List (Mutex DateTime)
  write f c [] = []
  write f zero (m ∷ cells) = f m ∷ cells
  write f (suc c) (m ∷ cells) = m ∷ write f c cells

  unfoldable pub set : FakeClock → DateTime → List (Mutex DateTime) → List (Mutex DateTime)
  set c now cells = write (λ m. record m { value = now }) c cells

  -- A sum out of range panics while the guard is held, which poisons the mutex.
  abbrev pub summed : Mutex DateTime → Option DateTime → Mutex DateTime
  summed m none = record m { poisoned = true }
  summed m (some t) = record m { value = t }

  -- `*guard += by`
  abbrev pub added : (DateTime → ℤ → Option DateTime) → ℤ → Mutex DateTime → Mutex DateTime
  added add by m = summed m (add (into_guard (lock m)) by)

  unfoldable pub advance :
      (DateTime → ℤ → Option DateTime)
      → FakeClock
      → ℤ
      → List (Mutex DateTime)
      → List (Mutex DateTime)
  advance add c by cells = write (added add by) c cells

  -- `Clock::now` of the fake clock
  abbrev pub now : FakeClock → List (Mutex DateTime) → Option DateTime
  now c cells = guard c cells

  abbrev or_kept : DateTime → Option DateTime → DateTime
  or_kept t none = t
  or_kept t (some u) = u

  some_injective : {t u : DateTime} → some t ≡ some u → t ≡ u
  some_injective {t} e = ap (or_kept t) e

  module _ (add : DateTime → ℤ → Option DateTime) where
    unfoldable pub change :
        FakeClock → Change DateTime → List (Mutex DateTime) → List (Mutex DateTime)
    change c (set_to t) cells = set c t cells
    change c (advance_by d) cells = advance add c d cells

    -- Calls through handles, in order; a panic of one is caught by its caller.
    unfoldable pub changes :
        List (FakeClock × Change DateTime) → List (Mutex DateTime) → List (Mutex DateTime)
    changes [] cells = cells
    changes ((c, x) ∷ rest) cells = changes rest (change c x cells)

    -- The time of a clock on its own: a sum out of range leaves it.
    abbrev pub shown : Change DateTime → DateTime → DateTime
    shown (set_to t) before = t
    shown (advance_by d) before = or_kept before (add before d)

    abbrev pub history : FakeClock → List (FakeClock × Change DateTime) → DateTime → DateTime
    history c [] t = t
    history c ((d, x) ∷ rest) t = history c rest (if d == c then shown x t else t)

    same_guard : (m : Mutex DateTime) → into_guard (lock m) ≡ m.value
    same_guard m = by m.poisoned
      where
        by : (b : Bool) → into_guard (if b then poison_error m.value else locked m.value) ≡ m.value
        by true = refl
        by false = refl

    -- What a write through one handle does to the time that another shows.
    guard-write :
        (f : Mutex DateTime → Mutex DateTime) (t t' : DateTime)
        → ((m : Mutex DateTime) → m.value ≡ t → (f m).value ≡ t')
        → (c d : FakeClock) (cells : List (Mutex DateTime)) → guard c cells ≡ some t
        → guard c (write f d cells) ≡ some (if d == c then t' else t)
    unfolding guard write
    guard-write f t t' h c d [] e = absurd (ground arith)
    guard-write f t t' h zero zero (m ∷ cells) e =
        ap some (same_guard (f m) ∙ h m (sym (same_guard m) ∙ some_injective e))
    guard-write f t t' h zero (suc d) (m ∷ cells) e = ground (arith, e)
    guard-write f t t' h (suc c) zero (m ∷ cells) e = ground (arith, e)
    guard-write f t t' h (suc c) (suc d) (m ∷ cells) e =
        ground (arith, guard-write f t t' h c d cells e)

    added_value :
        (d : ℤ) (m : Mutex DateTime) (t : DateTime)
        → m.value ≡ t
        → (added add d m).value ≡ shown (advance_by d) t
    added_value d m t h = by (add (into_guard (lock m)) d) (ap (λ v. add v d) (same_guard m ∙ h))
      where
        by : (o : Option DateTime) → o ≡ add t d → (summed m o).value ≡ or_kept t (add t d)
        by none e = h ∙ ap (or_kept t) e
        by (some u) e = ap (or_kept t) e

    guard-change :
        (c d : FakeClock) (x : Change DateTime) (cells : List (Mutex DateTime)) (t : DateTime)
        → guard c cells ≡ some t
        → guard c (change d x cells) ≡ some (if d == c then shown x t else t)
    unfolding change set advance
    guard-change c d (set_to u) cells t e =
        guard-write (λ m. record m { value = u }) t u (λ m h. refl) c d cells e
    guard-change c d (advance_by n) cells t e =
        guard-write (added add n) t (shown (advance_by n) t) (λ m h. added_value n m t h) c d cells
          e

    guard-changes :
        (c : FakeClock) (calls : List (FakeClock × Change DateTime)) (cells : List (Mutex DateTime))
        (t : DateTime)
        → guard c cells ≡ some t
        → guard c (changes calls cells) ≡ some (history c calls t)
    unfolding changes
    guard-changes c [] cells t e = e
    guard-changes c ((d, x) ∷ calls) cells t e =
        guard-changes c calls (change d x cells) (if d == c then shown x t else t)
          (guard-change c d x cells t e)

    guard-new :
        (t : DateTime) (cells : List (Mutex DateTime))
        → guard (length cells) (cells ++ record { value = t; poisoned = false } ∷ []) ≡ some t
    unfolding guard
    guard-new t [] = refl
    guard-new t (m ∷ cells) = guard-new t cells

    -- After any calls through any handles, panics of `advance` included, a new clock and each clone
    -- of it show its first time with the calls through its own handles applied in order, where a sum
    -- out of range leaves the time as it was.
    pub now-changes :
        (t : DateTime) (cells : List (Mutex DateTime)) (calls : List (FakeClock × Change DateTime))
        → let (c, cells') = new t cells in
          now (clone c) (changes calls cells') ≡ some (history c calls t)
    unfolding changes
    now-changes t cells calls =
        guard-changes (length cells) calls (cells ++ record { value = t; poisoned = false } ∷ []) t
          (guard-new t cells)
