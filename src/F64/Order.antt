-- ===== src/F64/Order.antt =====
-- Order facts about the operations of `f64`, from the monotone rounding.
use mathlib.Core.Path.{subst}
use satan_attrd.Prelude.{true, ◌↔◌, ◌≡◌, refl, ◌&&◌, ◌⊎◌, inl, inr, false, arith}
use satan_attrd.Prelude.Int.{ℤ, ◌≤ℤ◌, ◌<ℤ◌, ◌+ℤ◌, ◌-ℤ◌, neg, int_laws}
use satan_attrd.F64.{F64, round, add, sub, abs, max, clamp, lt, le, nought, one, epsilon}
use satan_attrd.F64.Round.{
  round_mono, round-one, round_two_epsilon, round-epsilon, round-neg-epsilon, round-neg_two_epsilon,
}

pub one_pos : nought <ℤ one
unfolding one
one_pos = omega arith

pub epsilon_pos : nought <ℤ epsilon
unfolding epsilon
epsilon_pos = omega arith

pub epsilon-lt-one : epsilon <ℤ one
unfolding epsilon one
epsilon-lt-one = omega arith

add_lem : (a b : F64) → add a b ≡ round (a +ℤ b)
unfolding add
add_lem a b = refl

sub_lem : (a b : F64) → sub a b ≡ round (a -ℤ b)
unfolding sub
sub_lem a b = refl

pub add_mono : (a b c d : F64) → a ≤ℤ b → c ≤ℤ d → add a c ≤ℤ add b d
add_mono a b c d h k = simp add_lem (round_mono (a +ℤ c) (b +ℤ d) (omega int_laws))

-- A sum that is at most 1 before rounding is at most 1 after it.
pub add-le-one : (a b : F64) → a +ℤ b ≤ℤ one → add a b ≤ℤ one
add-le-one a b h = simp add_lem (rw round-one at (round_mono (a +ℤ b) one h))

pub clamp_range : (x lo hi : F64) → lo ≤ℤ hi → (lo ≤ℤ clamp x lo hi) × (clamp x lo hi ≤ℤ hi)
unfolding clamp
clamp_range x lo hi h = ground arith

pub clamp_inside : (x lo hi : F64) → lo ≤ℤ x → x ≤ℤ hi → clamp x lo hi ≡ x
unfolding clamp
clamp_inside x lo hi h k = ground arith

abs_parts : (x : F64) → (x ≤ℤ abs x) × (neg x ≤ℤ abs x)
unfolding abs
abs_parts x = ground arith

round_far : (z : ℤ) → epsilon +ℤ epsilon ≤ℤ z → epsilon +ℤ epsilon ≤ℤ round z
round_far z h = rw round_two_epsilon at (round_mono (epsilon +ℤ epsilon) z h)

round_far_below : (z : ℤ) → z ≤ℤ neg (epsilon +ℤ epsilon) → round z ≤ℤ neg (epsilon +ℤ epsilon)
round_far_below z h = rw round-neg_two_epsilon at (round_mono z (neg (epsilon +ℤ epsilon)) h)

small : (z : F64) → lt epsilon (abs z) ≡ false → (z ≤ℤ epsilon) × (neg z ≤ℤ epsilon)
small z h = ground (arith, abs_parts z)

-- A difference that is not more than EPSILON in size is less than 2 EPSILON before rounding.
pub sub_near :
    (x y : F64)
    → lt epsilon (abs (sub x y)) ≡ false
    → (x <ℤ y +ℤ (epsilon +ℤ epsilon)) × (y <ℤ x +ℤ (epsilon +ℤ epsilon))
sub_near x y h = (omega (int_laws, not_above), omega (int_laws, not_below))
  where
    bounds : (round (x -ℤ y) ≤ℤ epsilon) × (neg (round (x -ℤ y)) ≤ℤ epsilon)
    bounds = rw sub_lem at (small (sub x y) h)

    not_above : ¬ (y +ℤ (epsilon +ℤ epsilon) ≤ℤ x)
    not_above far = omega (int_laws, bounds, epsilon_pos, round_far (x -ℤ y) (omega int_laws))

    not_below : ¬ (x +ℤ (epsilon +ℤ epsilon) ≤ℤ y)
    not_below far = omega (int_laws, bounds, epsilon_pos, round_far_below (x -ℤ y) (omega int_laws))

-- Values outside [0, 1] by at most EPSILON.
abbrev pub InGap : F64 → Type 0
InGap x = ((neg epsilon ≤ℤ x) × (x <ℤ nought)) ⊎ ((one <ℤ x) × (x ≤ℤ one +ℤ epsilon))

abs_small : (z : F64) → neg epsilon ≤ℤ z → z ≤ℤ epsilon → lt epsilon (abs z) ≡ false
unfolding abs
abs_small z h k = ground arith

round-within :
    (z : ℤ) → neg epsilon ≤ℤ z → z ≤ℤ epsilon → (neg epsilon ≤ℤ round z) × (round z ≤ℤ epsilon)
round-within z h k = (
  rw round-neg-epsilon at (round_mono (neg epsilon) z h),
  rw round-epsilon at (round_mono z epsilon k),
)

clamp_below : (x : F64) → x <ℤ nought → clamp x nought one ≡ nought
unfolding clamp
clamp_below x h = ground arith

clamp_above : (x : F64) → one <ℤ x → clamp x nought one ≡ one
unfolding clamp
clamp_above x h = ground (arith, one_pos)

sub_within :
    (x y : F64) → neg epsilon ≤ℤ x -ℤ y → x -ℤ y ≤ℤ epsilon → lt epsilon (abs (sub x y)) ≡ false
sub_within x y h k =
    let (low, up) = round-within (x -ℤ y) h k in rw sub_lem (abs_small (round (x -ℤ y)) low up)

-- The distance of such a value from the range is not more than EPSILON.
pub sub_gap : (x : F64) → InGap x → lt epsilon (abs (sub (clamp x nought one) x)) ≡ false
sub_gap x (inl h) =
    rw (clamp_below x h.1)
      (sub_within nought x (omega (int_laws, epsilon_pos)) (omega (int_laws, epsilon_pos)))
sub_gap x (inr h) =
    rw (clamp_above x h.0)
      (sub_within one x (omega (int_laws, epsilon_pos)) (omega (int_laws, epsilon_pos)))

pub InGap-not_in_range : (x : F64) → InGap x → (le nought x && le x one) ≡ false
InGap-not_in_range x (inl h) = ground arith
InGap-not_in_range x (inr h) = ground arith

pub sub-le-one : (a b : F64) → a ≤ℤ one → nought ≤ℤ b → sub a b ≤ℤ one
sub-le-one a b h k = rw sub_lem (rw round-one at (round_mono (a -ℤ b) one (omega int_laws)))

pub max_bounds :
    (a hi : F64) → a ≤ℤ hi → nought ≤ℤ hi → (nought ≤ℤ max a nought) × (max a nought ≤ℤ hi)
unfolding max
max_bounds a hi h k = ground arith

-- A value that rounding keeps: every finite binary64 value is one.
abbrev pub IsExact : ℤ → Type 0
IsExact x = round x ≡ x

pub add-le_self : (a b : F64) → IsExact a → b ≤ℤ nought → add a b ≤ℤ a
add-le_self a b exact h =
    rw add_lem (subst (λ r. round (a +ℤ b) ≤ℤ r) exact (round_mono (a +ℤ b) a (omega int_laws)))

pub in_range_iff : (x : F64) → ((le nought x && le x one) ≡ true) ↔ ((nought ≤ℤ x) × (x ≤ℤ one))
in_range_iff x = ground arith
