-- ===== src/Tests/Clocks.antt =====
-- A clock that is set by hand, at concrete inputs.
use satan_attrd.Prelude.{ℕ, ◌+◌, true, false, Option, none, some, ◌≡◌, [], ◌∷◌}
use satan_attrd.Prelude.Int.{ℤ, pos, negsuc}
use satan_attrd.Clock as Clock
use satan_attrd.Clock.{Mutex, clone, set_to, advance_by, now-changes}

-- Times before 0 are out of range.
abbrev later : ℕ → ℤ → Option ℕ
later t (pos n) = some (t + n)
later t (negsuc n) = none

-- Two hours pass, then a sum out of range panics, then another clock is set.
now-changes_example :
    Clock.now (clone 1) (
      Clock.changes later
        ((1, advance_by (pos 2)) ∷ (1, advance_by (negsuc 0)) ∷ (0, set_to 9) ∷ [])
        (record { value = 4; poisoned = true } ∷ record { value = 7; poisoned = false } ∷ []))
    ≡ some 9
now-changes_example =
    now-changes later 7 (record { value = 4; poisoned = true } ∷ [])
      ((1, advance_by (pos 2)) ∷ (1, advance_by (negsuc 0)) ∷ (0, set_to 9) ∷ [])
