-- ===== src/Dispatcher/Plan.antt =====
-- src/dispatcher.rs: the caps and the range clamp on one attribute.
pub mod Bounds
pub mod Friction
use satan_attrd.Prelude.{Bool, ◌&&◌, List, [], ◌∷◌, ◌++◌, if◌then◌else◌}
use satan_attrd.F64.{F64, add, sub, abs, max, clamp, lt, nought, one, epsilon}
use satan_attrd.Types.Attribute.{AttributeName, friction}
use satan_attrd.Types.Caps.{Cap, friction_cap, range_clamp}

pub record Snapshot : Type 0 where
  pub doubt : F64
  pub shame : F64

pub record AttributePlan : Type 0 where
  pub name : AttributeName
  pub old_value : F64
  pub new_value : F64
  pub delta : F64
  pub caps_applied : List Cap

unfoldable pub is_friction : AttributeName → Bool
is_friction friction = Bool.true
is_friction _ = Bool.false

-- `(1.0 - snap.doubt - snap.shame).max(0.0)`
unfoldable pub friction_bound : Snapshot → F64
unfolding sub max one
friction_bound snap = max (sub (sub one snap.doubt) snap.shame) nought

-- The first step of `plan_for`: the value and the caps so far.
unfoldable pub cap_friction : AttributeName → F64 → F64 → Snapshot → F64 × List Cap
unfolding is_friction
cap_friction name delta_in value snap =
    if is_friction name && lt nought delta_in && lt (friction_bound snap) value
    then (friction_bound snap, friction_cap ∷ [])
    else (value, [])

-- The second step of `plan_for`.
unfoldable pub clamp_range : F64 → List Cap → F64 × List Cap
clamp_range value caps =
    let clamped = clamp value nought one in
    if lt epsilon (abs (sub clamped value))
    then (clamped, caps ++ range_clamp ∷ [])
    else (value, caps)

unfoldable pub plan_for : AttributeName → F64 → F64 → Snapshot → AttributePlan
plan_for name delta_in old_value snap =
    let (capped, caps) = cap_friction name delta_in (add old_value delta_in) snap in
    let (new_value, all_caps) = clamp_range capped caps in
    record {
      name = name;
      old_value = old_value;
      new_value = new_value;
      delta = sub new_value old_value;
      caps_applied = all_caps;
    }
