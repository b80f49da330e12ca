-- ===== src/Dispatcher/Outcome/Caps.antt =====
-- A first outcome never meets the friction cap.
use satan_attrd.Prelude.{◌&&◌, false, ◌≡◌, List, [], ◌∷◌, ◌⊎◌, arith, refl}
use satan_attrd.F64.{F64, add, lt, nought}
use satan_attrd.Types.Attribute.{
  AttributeName, curiosity, friction, shame, doubt, hunger, suspicion, brooding, metamorphosis,
}
use satan_attrd.Types.Outcome.{OutcomeReason}
use satan_attrd.Types.Caps.{Cap, range_clamp}
use satan_attrd.Dispatcher.Weight.{Confidence, weight_delta}
use satan_attrd.Dispatcher.Weight.Bounds.{friction_falls}
use satan_attrd.Dispatcher.Plan
use satan_attrd.Dispatcher.Plan.{Snapshot, is_friction, cap_friction, plan_for}
use satan_attrd.Dispatcher.Plan.Bounds.{cap_friction_off}
use satan_attrd.Dispatcher.Tables.{base_deltas, base_of}
use satan_attrd.Dispatcher.Plan.Friction.{plan_ignores_snapshot}

-- The caps that leave friction unrestrained.
abbrev pub IsUnrestrained : List Cap → Type 0
IsUnrestrained caps = (caps ≡ []) ⊎ (caps ≡ range_clamp ∷ [])

no_rise :
    (r : OutcomeReason) (c : Confidence) (name : AttributeName)
    → (is_friction name && lt nought (weight_delta (base_of (base_deltas r) name) c)) ≡ false
unfolding is_friction
no_rise r c curiosity = refl
no_rise r c hunger = refl
no_rise r c suspicion = refl
no_rise r c doubt = refl
no_rise r c friction = friction_falls r c
no_rise r c shame = refl
no_rise r c brooding = refl
no_rise r c metamorphosis = refl

clamp_range-IsUnrestrained : (v : F64) → IsUnrestrained (Plan.clamp_range v []).1
unfolding Plan.clamp_range
clamp_range-IsUnrestrained v = ground arith

-- The plan of a first outcome, of any classification, confidence and attribute, never records the
-- friction cap, and does not depend on the snapshot.
pub outcome-IsUnrestrained :
    (r : OutcomeReason) (c : Confidence) (name : AttributeName) (old_value : F64)
    (snap other : Snapshot)
    → IsUnrestrained
        (plan_for name (weight_delta (base_of (base_deltas r) name) c) old_value snap).caps_applied
      × (plan_for name (weight_delta (base_of (base_deltas r) name) c) old_value snap
          ≡ plan_for name (weight_delta (base_of (base_deltas r) name) c) old_value other)
unfolding plan_for
outcome-IsUnrestrained r c name old_value snap other =
    let d = weight_delta (base_of (base_deltas r) name) c in
    (
      rw (cap_friction_off name d (add old_value d) snap (no_rise r c name))
          (clamp_range-IsUnrestrained (add old_value d)),
      plan_ignores_snapshot name d old_value snap other (no_rise r c name),
    )
