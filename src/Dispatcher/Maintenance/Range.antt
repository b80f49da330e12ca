-- ===== src/Dispatcher/Maintenance/Range.antt =====
-- The decay step stays in range, and what its dispatch returns.
use satan_attrd.Prelude.{ℕ, suc, ◌≡◌, refl, true, none, some, [], ◌∷◌, arith, if◌then◌else◌}
use satan_attrd.Prelude.Int.{ℤ, pos, ◌≤ℤ◌, ◌<ℤ◌, int_laws}
use satan_attrd.F64.{F64, add, lt, nought}
use satan_attrd.F64.Order.{IsExact, add-le_self, add-le-one, in_range_iff}
use satan_attrd.Error.{ok}
use satan_attrd.Extern.{Extern}
use satan_attrd.Types.Caps.{range_clamp}
use satan_attrd.Store.Counter
use satan_attrd.Store.Counter.{Counter}
use satan_attrd.Store.Event.{EventInsert, in_range, validate}
use satan_attrd.Dispatcher.Input.{MaintenanceInput}
use satan_attrd.Dispatcher.Maintenance.{
  decay_delta, decayed, maintenance_event, dispatch_maintenance,
}

decay_delta_neg : decay_delta <ℤ nought
unfolding decay_delta
decay_delta_neg = omega arith

-- From a value in [0, 1] a decay step ends in [0, 1], with no exception near its ends.
decayed-in_range : (v : F64) → in_range v ≡ true → in_range (decayed v).0 ≡ true
unfolding decayed
decayed-in_range v h =
    ground
      (arith, add-le-one v decay_delta (omega (int_laws, decay_delta_neg, (in_range_iff v).0 h)))

-- A decay step never raises a value that is not negative.
decayed-le : (v : F64) → IsExact v → nought ≤ℤ v → (decayed v).0 ≤ℤ v
unfolding decayed
decayed-le v exact h =
    ground (arith, add-le_self v decay_delta exact (omega (arith, decay_delta_neg)))

-- The cap is recorded exactly when the step was cut at 0.
decayed_caps :
    (v : F64) → (decayed v).1 ≡ (if lt (add v decay_delta) nought then range_clamp ∷ [] else [])
unfolding decayed
decayed_caps v = ground arith

module _ {X : Extern} (input : MaintenanceInput X) where
  maintenance_event-valid :
      (v : F64) (s : ℤ) → in_range v ≡ true → validate (maintenance_event input v s) ≡ ok tt
  unfolding maintenance_event validate
  maintenance_event-valid v s h = rw (h, decayed-in_range v h)

  -- For a target with a binary64 value in [0, 1], and a counter with room for one number, the
  -- dispatch of a decay returns one event with the next number for that target, which starts
  -- from the stored value, does not raise it, and passes the structural check of `insert_event`.
  pub dispatch_maintenance_valid :
      (n : ℕ) (v : F64)
      → input.projection input.target ≡ some v
      → IsExact v
      → in_range v ≡ true
      → pos (suc n) ≤ℤ Counter.i32_max
      → (ev : EventInsert X) × (dispatch_maintenance input (record { inner = pos n })
          ≡ some (ev ∷ [], record { inner = pos (suc n) }))
        × (ev.seq ≡ pos (suc n))
        × (ev.name ≡ input.target)
        × (ev.old_value ≡ v)
        × (ev.new_value ≤ℤ v)
        × (validate ev ≡ ok tt)
  unfolding dispatch_maintenance maintenance_event
  dispatch_maintenance_valid n v stored exact h room = (
    maintenance_event input v (pos (suc n)),
    ground (arith, Counter.next-pos n),
    refl,
    refl,
    refl,
    decayed-le v exact ((in_range_iff v).0 h).0,
    maintenance_event-valid v (pos (suc n)) h,
  )

  -- A target that the projection lacks panics, whatever the counter.
  pub dispatch_maintenance_missing :
      (c : Counter) → input.projection input.target ≡ none → dispatch_maintenance input c ≡ none
  unfolding dispatch_maintenance
  dispatch_maintenance_missing c h = ground arith
