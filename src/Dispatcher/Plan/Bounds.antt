-- ===== src/Dispatcher/Plan/Bounds.antt =====
-- How far `plan_for` keeps a value in range, and which values slip through.
use satan_attrd.Prelude.{
  ◌&&◌, true, false, ◌≡◌, inl, inr, refl, ◌∙◌, ap, List, [], arith, Bool-cases,
}
use satan_attrd.Prelude.Int.{◌<ℤ◌, ◌+ℤ◌, int_laws}
use satan_attrd.F64.{F64, add, sub, abs, clamp, lt, nought, one, epsilon}
use satan_attrd.F64.Order.{
  clamp_range, sub_near, one_pos, epsilon_pos, sub_gap, InGap, InGap-not_in_range,
}
use satan_attrd.Types.Attribute.{AttributeName}
use satan_attrd.Types.Caps.{Cap}
use satan_attrd.Error.{err, value_out_of_range}
use satan_attrd.Extern.{Extern}
use satan_attrd.Store.Event.{EventInsert, in_range, validate}
use satan_attrd.Dispatcher.Plan
use satan_attrd.Dispatcher.Plan.{Snapshot, AttributePlan, is_friction, cap_friction, plan_for}

-- Within twice EPSILON of the range.
abbrev pub NearRange : F64 → Type 0
NearRange x = (nought <ℤ x +ℤ (epsilon +ℤ epsilon)) × (x <ℤ one +ℤ (epsilon +ℤ epsilon))

clamp_range_near : (v : F64) (caps : List Cap) → NearRange (Plan.clamp_range v caps).0
unfolding Plan.clamp_range
clamp_range_near v caps = elim (Bool-cases (lt epsilon (abs (sub (clamp v nought one) v)))) [
  | inl far ↦
      rw far (omega (int_laws, clamp_range v nought one (omega (arith, one_pos)), epsilon_pos))
  | inr close ↦ rw close (
      omega (
        int_laws,
        clamp_range v nought one (omega (arith, one_pos)),
        sub_near (clamp v nought one) v close,
      ))
]

-- Whatever the delta, the old value and the snapshot, the new value lies within 2 EPSILON of [0, 1].
pub plan_for-NearRange :
    (name : AttributeName) (delta_in old_value : F64) (snap : Snapshot)
    → NearRange (plan_for name delta_in old_value snap).new_value
unfolding plan_for
plan_for-NearRange name delta_in old_value snap =
    let (v, caps) = cap_friction name delta_in (add old_value delta_in) snap in
    clamp_range_near v caps

clamp_range_gap : (v : F64) (caps : List Cap) → InGap v → Plan.clamp_range v caps ≡ (v, caps)
unfolding Plan.clamp_range
clamp_range_gap v caps h = rw (sub_gap v h)

pub cap_friction_off :
    (name : AttributeName) (delta_in value : F64) (snap : Snapshot)
    → (is_friction name && lt nought delta_in) ≡ false
    → cap_friction name delta_in value snap ≡ (value, [])
unfolding cap_friction
cap_friction_off name delta_in value snap other = rw other

plan_gap :
    (name : AttributeName) (delta_in old_value : F64) (snap : Snapshot)
    → (is_friction name && lt nought delta_in) ≡ false
    → InGap (add old_value delta_in)
    → ((plan_for name delta_in old_value snap).new_value ≡ add old_value delta_in)
      × ((plan_for name delta_in old_value snap).caps_applied ≡ [])
unfolding plan_for
plan_gap name delta_in old_value snap other gap =
    rw (cap_friction_off name delta_in (add old_value delta_in) snap other)
      (rw (clamp_range_gap (add old_value delta_in) [] gap) (refl, refl))

validate_refuses :
    {X : Extern} (ev : EventInsert X)
    → in_range ev.old_value ≡ true
    → in_range ev.new_value ≡ false
    → validate ev ≡ err (value_out_of_range ev.new_value)
unfolding validate
validate_refuses ev h k = rw (h, k)

-- A value outside [0, 1] by at most EPSILON is planned as it is, with no cap recorded, and the
-- structural check of `insert_event` refuses every event with that new value.
pub plan_gap_refused :
    {X : Extern} (name : AttributeName) (delta_in old_value : F64) (snap : Snapshot)
    (ev : EventInsert X)
    → (is_friction name && lt nought delta_in) ≡ false
    → InGap (add old_value delta_in)
    → in_range old_value ≡ true
    → ev.old_value ≡ old_value
    → ev.new_value ≡ (plan_for name delta_in old_value snap).new_value
    → ((plan_for name delta_in old_value snap).caps_applied ≡ [])
      × (validate ev ≡ err (value_out_of_range (add old_value delta_in)))
plan_gap_refused name delta_in old_value snap ev other gap old_ok e f =
    let (new, caps) = plan_gap name delta_in old_value snap other gap in
    let value : ev.new_value ≡ add old_value delta_in = f ∙ new in
    (
      caps,
      validate_refuses ev (rw e old_ok) (rw value (InGap-not_in_range (add old_value delta_in) gap))
          ∙ ap (λ v. err (value_out_of_range v)) value,
    )
