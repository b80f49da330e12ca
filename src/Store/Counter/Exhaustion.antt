-- ===== src/Store/Counter/Exhaustion.antt =====
-- What the counter does on its whole range, the largest `i32` included.
use satan_attrd.Prelude.{◌≡◌, ◌⊎◌, ◌↔◌, none, some, arith}
use satan_attrd.Prelude.Int.{ℤ, pos, ◌<ℤ◌, ◌+ℤ◌}
use satan_attrd.Store.Counter.{Counter, next, i32_max, IsI32}

-- A counter panics exactly when it is negative, which for a counter that began at 0 or above is
-- when it has wrapped around.
pub next_panics : (c : Counter) → IsI32 c.inner → (next c ≡ none) ↔ (c.inner <ℤ pos 0)
unfolding next
next_panics c h = ground arith

-- Of two numbers that a counter gives one after the other, the second is the successor of the
-- first; or both are the largest `i32`, and the next call panics.
pub next_twice :
    (c c1 c2 : Counter) (a b : ℤ)
    → IsI32 c.inner
    → next c ≡ some (a, c1)
    → next c1 ≡ some (b, c2)
    → (b ≡ a +ℤ pos 1) ⊎ ((a ≡ i32_max) × (b ≡ i32_max) × (next c2 ≡ none))
unfolding next
next_twice c c1 c2 a b h k l = ground arith
