-- ===== src/Dispatcher/Plan/Friction.antt =====
-- What the friction cap of `plan_for` restrains, and what it leaves alone.
use satan_attrd.Prelude.{◌&&◌, true, false, ◌≡◌, ◌∙◌, List, [], ◌∷◌, arith}
use satan_attrd.Prelude.Int.{◌≤ℤ◌}
use satan_attrd.F64.{F64, add, sub, clamp, lt, nought, one}
use satan_attrd.F64.Order.{sub-le-one, max_bounds, one_pos}
use satan_attrd.Types.Attribute.{AttributeName, friction}
use satan_attrd.Types.Caps.{Cap}
use satan_attrd.Dispatcher.Plan
use satan_attrd.Dispatcher.Plan.{Snapshot, is_friction, friction_bound, cap_friction, plan_for}
use satan_attrd.Dispatcher.Plan.Bounds.{cap_friction_off}

-- The inhibitors are not negative, as the table's CHECK guarantees.
pub record IsInhibiting (snap : Snapshot) : Type 0 where
  pub doubt : nought ≤ℤ snap.doubt
  pub shame : nought ≤ℤ snap.shame

pub friction_bound_range :
    (snap : Snapshot)
    → IsInhibiting snap
    → (nought ≤ℤ friction_bound snap) × (friction_bound snap ≤ℤ one)
unfolding friction_bound
friction_bound_range snap h =
    max_bounds (sub (sub one snap.doubt) snap.shame) one
      (sub-le-one (sub one snap.doubt) snap.shame (sub-le-one one snap.doubt (omega arith) h.doubt)
        h.shame)
      (omega (arith, one_pos))

cap_friction-le :
    (delta_in value : F64) (snap : Snapshot)
    → lt nought delta_in ≡ true
    → (cap_friction friction delta_in value snap).0 ≤ℤ friction_bound snap
unfolding cap_friction
cap_friction-le delta_in value snap h = ground arith

clamp_range-le :
    (v bound : F64) (caps : List Cap)
    → v ≤ℤ bound
    → nought ≤ℤ bound
    → (Plan.clamp_range v caps).0 ≤ℤ bound
unfolding Plan.clamp_range clamp
clamp_range-le v bound caps h k = ground arith

-- Where doubt and shame are not negative, a rise of friction ends at or below the bound
-- max(0, 1 - doubt - shame) of the snapshot, whatever the old value and the size of the rise.
pub friction_restrained :
    (delta_in old_value : F64) (snap : Snapshot)
    → IsInhibiting snap
    → lt nought delta_in ≡ true
    → (plan_for friction delta_in old_value snap).new_value ≤ℤ friction_bound snap
unfolding plan_for
friction_restrained delta_in old_value snap h rises =
    let (v, caps) = cap_friction friction delta_in (add old_value delta_in) snap in
    clamp_range-le v (friction_bound snap) caps
      (cap_friction-le delta_in (add old_value delta_in) snap rises) (friction_bound_range snap h).0

-- For every other attribute, and for a delta that is not positive, the plan does not depend on
-- the snapshot.
pub plan_ignores_snapshot :
    (name : AttributeName) (delta_in old_value : F64) (snap other : Snapshot)
    → (is_friction name && lt nought delta_in) ≡ false
    → plan_for name delta_in old_value snap ≡ plan_for name delta_in old_value other
unfolding plan_for
plan_ignores_snapshot name delta_in old_value snap other h = simp (
  cap_friction_off name delta_in (add old_value delta_in) snap h,
  cap_friction_off name delta_in (add old_value delta_in) other h,
)

clamp_range_untouched :
    (v : F64) (caps : List Cap)
    → (Plan.clamp_range v caps).1 ≡ []
    → (caps ≡ []) × ((Plan.clamp_range v caps).0 ≡ v)
unfolding Plan.clamp_range
clamp_range_untouched v [] h = ground arith
clamp_range_untouched v (c ∷ caps) h = ground arith

cap_friction_untouched :
    (name : AttributeName) (delta_in value : F64) (snap : Snapshot)
    → (cap_friction name delta_in value snap).1 ≡ []
    → (cap_friction name delta_in value snap).0 ≡ value
unfolding cap_friction
cap_friction_untouched name delta_in value snap h = ground arith

-- A plan with no cap recorded takes the whole delta.
pub uncapped_plan :
    (name : AttributeName) (delta_in old_value : F64) (snap : Snapshot)
    → (plan_for name delta_in old_value snap).caps_applied ≡ []
    → (plan_for name delta_in old_value snap).new_value ≡ add old_value delta_in
unfolding plan_for
uncapped_plan name delta_in old_value snap h =
    let (v, caps) = cap_friction name delta_in (add old_value delta_in) snap in
    let (none_before, kept) = clamp_range_untouched v caps h in
    kept ∙ cap_friction_untouched name delta_in (add old_value delta_in) snap none_before
