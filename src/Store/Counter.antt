-- ===== src/Store/Counter.antt =====
-- src/store.rs: the per-run sequence counter, an `AtomicI32`.
pub mod Exhaustion
use satan_attrd.Prelude.{ℕ, suc, ◌-◌, ◌^◌, ◌≤◌, ◌≡◌, ◌⊎◌, Option, none, some, arith, if◌then◌else◌}
use satan_attrd.Prelude.Int.{ℤ, pos, negsuc, ◌+ℤ◌, ◌-ℤ◌, ◌≤ℤ◌, ◌<ℤ◌, ltb_ℤ, eqb_ℤ, int_laws}

abbrev pub i32_max : ℤ
i32_max = pos (2 ^ 31 - 1)

abbrev pub i32_min : ℤ
i32_min = negsuc (2 ^ 31 - 1)

pub record Counter : Type 0 where
  pub inner : ℤ

-- `Counter::new`
abbrev pub new : Counter
new = record { inner = pos 0 }

-- `Counter::resuming_from`
abbrev pub resuming_from : ℤ → Counter
resuming_from prior_max = record { inner = prior_max }

-- `Counter::peek`
abbrev pub peek : Counter → ℤ
peek c = c.inner

-- `fetch_add(1)` wraps from the largest value to the smallest.
unfoldable pub wrapping_suc : ℤ → ℤ
unfolding ◌+ℤ◌
wrapping_suc n = if eqb_ℤ n i32_max then i32_min else n +ℤ pos 1

unfoldable pub saturating_suc : ℤ → ℤ
unfolding ◌+ℤ◌
saturating_suc n = if eqb_ℤ n i32_max then i32_max else n +ℤ pos 1

-- `Counter::next`: `none` is the panic of its `assert!`.
unfoldable pub next : Counter → Option (ℤ × Counter)
unfolding wrapping_suc saturating_suc
next c =
    let allocated = saturating_suc c.inner in
    if ltb_ℤ (pos 0) allocated
    then some (allocated, record { inner = wrapping_suc c.inner })
    else none

-- In the range of `i32`.
abbrev pub IsI32 : ℤ → Type 0
IsI32 n = (i32_min ≤ℤ n) × (n ≤ℤ i32_max)

-- Below the largest value a counter that is not negative gives the next number and keeps it.
pub next-below :
    (n : ℤ)
    → pos 0 ≤ℤ n
    → n <ℤ i32_max
    → next (record { inner = n }) ≡ some (n +ℤ pos 1, record { inner = n +ℤ pos 1 })
unfolding next
next-below n h k = ground (arith)

pub next-pos :
    (n : ℕ)
    → pos (suc n) ≤ℤ i32_max
    → next (record { inner = pos n }) ≡ some (pos (suc n), record { inner = pos (suc n) })
unfolding next
next-pos n h = ground arith
