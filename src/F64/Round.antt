-- ===== src/F64/Round.antt =====
-- Rounding is monotone, and exact on 0, 1 and EPSILON.
use native.Mathlib.Nat.{
  pow-le-pow_right, pow-suc, add-zero, add-suc, mul-le-mul_right, le-div_iff_mul-le,
  div-mul-le_self, le_trans, div-add-mod', mul-div_cancel, mul-mod_left,
}
use native.Mathlib.Decide.{dec_lt}
use native.Mathlib.Numerals.{add-one}
use satan_attrd.Prelude.{
  ap, ℕ, zero, suc, ◌+◌, ◌*◌, ◌/◌, ◌%◌, ◌^◌, ◌≤◌, ◌<◌, ◌≡◌, refl, arith, ◌⊎◌, ltb, inl, inr,
  Bool-cases,
}
use satan_attrd.Prelude.Int.{ℤ, pos, negsuc, pos_part, neg_part, neg_ℕ, ◌≤ℤ◌, ◌+ℤ◌, neg}
use satan_attrd.F64.{snap, nearest, exponent, round_magnitude, round, nought, one, epsilon, binades}

pow_pos : (e : ℕ) → 0 < 2 ^ e
pow_pos zero = omega arith
pow_pos (suc e) = omega (arith, pow-suc 2 e, pow_pos e)

pow_mono : (i j : ℕ) → i ≤ j → 2 ^ i ≤ 2 ^ j
pow_mono i j h = pow-le-pow_right (omega arith) h

module _ (d : ℕ) where
  snap-le : (q r : ℕ) → snap d q r ≤ (q + 1) * d
  unfolding snap
  snap-le q r = ground arith

  le-snap : (q r : ℕ) → q * d ≤ snap d q r
  unfolding snap
  le-snap q r = ground arith

  -- Within one step of the grid the larger rest goes no lower.
  snap_mono : (q r s : ℕ) → r ≤ s → snap d q r ≤ snap d q s
  unfolding snap
  snap_mono q r s h = ground arith

  snap_step : (p q r s : ℕ) → p < q → snap d p r ≤ snap d q s
  snap_step p q r s h = omega (arith, snap-le p r, le-snap q s, mul-le-mul_right d h, add-one p)

  snap_lex : (p q r s : ℕ) → (p < q) ⊎ ((p ≡ q) × (r ≤ s)) → snap d p r ≤ snap d q s
  snap_lex p q r s (inl h) = snap_step p q r s h
  snap_lex p q r s (inr (e, h)) = rw e (snap_mono q r s h)

div_mono : (d m n : ℕ) → 0 < d → m ≤ n → m / d ≤ n / d
div_mono d m n p h = (le-div_iff_mul-le {x = m / d} {y = n} p).1 (le_trans (div-mul-le_self m d) h)

mod_mono : (d m n : ℕ) → m ≤ n → m / d ≡ n / d → m % d ≤ n % d
mod_mono d m n h e = omega (arith, div-add-mod' m d, div-add-mod' n d, ap (λ q. q * d) e)

div-mod_lex : (d m n : ℕ) → 0 < d → m ≤ n → (m / d < n / d) ⊎ ((m / d ≡ n / d) × (m % d ≤ n % d))
div-mod_lex d m n p h = elim (dec_lt (m / d) (n / d)) [
  | yes lower ↦ inl lower
  | no other ↦
      let same : m / d ≡ n / d = omega (arith, div_mono d m n p h) in
      inr (same, mod_mono d m n h same)
]

nearest_mono : (d m n : ℕ) → 0 < d → m ≤ n → nearest d m ≤ nearest d n
unfolding nearest
nearest_mono d m n p h = snap_lex d (m / d) (n / d) (m % d) (n % d) (div-mod_lex d m n p h)

-- A multiple is its own nearest multiple.
nearest-mul : (d k : ℕ) → 0 < d → nearest d (k * d) ≡ k * d
unfolding nearest
nearest-mul d k p = rw (mul-div_cancel k p, mul-mod_left k d) (unfold snap in ground arith)

pow_shift : (e : ℕ) → 2 ^ (e + 53) ≡ 2 ^ (suc e + 52)
pow_shift e = ap (λ i. 2 ^ i) (omega arith)

exponent_bounds : (fuel e n : ℕ) → (e ≤ exponent fuel e n) × (exponent fuel e n ≤ e + fuel)
unfolding exponent
exponent_bounds zero e n = omega arith
exponent_bounds (suc fuel) e n = ground (arith, exponent_bounds fuel (suc e) n)

exponent_mono : (fuel e m n : ℕ) → m ≤ n → exponent fuel e m ≤ exponent fuel e n
unfolding exponent
exponent_mono zero e m n h = omega arith
exponent_mono (suc fuel) e m n h =
    ground (arith, exponent_mono fuel (suc e) m n h, exponent_bounds fuel (suc e) n)

-- Where the search for the exponent stops below its end, the value fits 53 digits.
exponent-fits : (fuel e n : ℕ) → exponent fuel e n < e + fuel → n < 2 ^ (exponent fuel e n + 53)
unfolding exponent
exponent-fits zero e n h = absurd (omega arith)
exponent-fits (suc fuel) e n h = ground (arith, exponent-fits fuel (suc e) n)

-- Below the exponent found, the value does not fit.
exponent-least : (fuel e n : ℕ) → e < exponent fuel e n → 2 ^ (exponent fuel e n + 52) ≤ n
unfolding exponent
exponent-least zero e n h = absurd (omega arith)
exponent-least (suc fuel) e n h = elim (Bool-cases (ltb n (2 ^ (e + 53)))) [
  | inl fits ↦ absurd (stops (exponent (suc fuel) e n) (rw (fits, exponent)) h)
  | inr long ↦
      rw (long, exponent)
        (elim (dec_lt (suc e) (exponent fuel (suc e) n)) [
          | yes more ↦ exponent-least fuel (suc e) n more
          | no last ↦ rw (at_end last) (rw (← pow_shift e) (ground arith))
        ])
]
  where
    stops : (k : ℕ) → k ≡ e → ¬ (e < k)
    stops k p q = omega arith

    at_end : ¬ (suc e < exponent fuel (suc e) n) → exponent fuel (suc e) n ≡ suc e
    at_end last = omega (arith, exponent_bounds fuel (suc e) n)

-- A power of two on the grid is a grid point.
pow_add : (e k : ℕ) → 2 ^ (e + k) ≡ 2 ^ k * 2 ^ e
pow_add e zero = rw add-zero (omega arith)
pow_add e (suc k) = omega (
  arith,
  ap (λ i. 2 ^ i) (add-suc e k),
  pow-suc 2 (e + k),
  ap (λ t. t * 2 ^ e) (pow-suc 2 k),
  pow_add e k,
)

nearest-pow : (e k : ℕ) → nearest (2 ^ e) (2 ^ (e + k)) ≡ 2 ^ (e + k)
nearest-pow e k = rw (pow_add e k) (nearest-mul (2 ^ e) (2 ^ k) (pow_pos e))

-- A value that fits 53 digits above 2^e stays at or below 2^(e + 53).
nearest_short : (e n : ℕ) → n < 2 ^ (e + 53) → nearest (2 ^ e) n ≤ 2 ^ (e + 53)
nearest_short e n h =
    omega (arith, nearest-pow e 53, nearest_mono (2 ^ e) n (2 ^ (e + 53)) (pow_pos e) (omega arith))

nearest_long : (e n : ℕ) → 2 ^ (e + 52) ≤ n → 2 ^ (e + 52) ≤ nearest (2 ^ e) n
nearest_long e n h =
    omega (arith, nearest-pow e 52, nearest_mono (2 ^ e) (2 ^ (e + 52)) n (pow_pos e) h)

nearest_across :
    (d e m n : ℕ)
    → d < e
    → m < 2 ^ (d + 53)
    → 2 ^ (e + 52) ≤ n
    → nearest (2 ^ d) m ≤ nearest (2 ^ e) n
nearest_across d e m n h short long = omega (
  arith,
  nearest_short d m short,
  nearest_long e n long,
  pow_mono (d + 53) (e + 52) (omega arith),
)

nearest-exponent_mono :
    (fuel e m n : ℕ) → m ≤ n → nearest (2 ^ exponent fuel e m) m ≤ nearest (2 ^ exponent fuel e n) n
nearest-exponent_mono fuel e m n h = elim (dec_lt (exponent fuel e m) (exponent fuel e n)) [
  | yes lower ↦
      nearest_across (exponent fuel e m) (exponent fuel e n) m n lower
        (exponent-fits fuel e m (omega (arith, exponent_bounds fuel e n)))
        (exponent-least fuel e n (omega (arith, exponent_bounds fuel e m)))
  | no other ↦
      let same : exponent fuel e m ≡ exponent fuel e n =
        omega (arith, exponent_mono fuel e m n h) in
      rw same (nearest_mono (2 ^ exponent fuel e n) m n (pow_pos (exponent fuel e n)) h)
]

round_magnitude_mono : (m n : ℕ) → m ≤ n → round_magnitude m ≤ round_magnitude n
unfolding round_magnitude
round_magnitude_mono m n h = nearest-exponent_mono binades 0 m n h

neg_ℕ_parts : (n : ℕ) → (pos_part (neg_ℕ n) ≡ 0) × (neg_part (neg_ℕ n) ≡ n)
neg_ℕ_parts zero = (refl, refl)
neg_ℕ_parts (suc n) = (refl, refl)

-- Rounding is monotone.
pub round_mono : (a b : ℤ) → a ≤ℤ b → round a ≤ℤ round b
unfolding round
round_mono (pos m) (pos n) h = omega (arith, round_magnitude_mono m n (omega arith))
round_mono (pos m) (negsuc n) h = absurd (omega arith)
round_mono (negsuc m) (pos n) h = omega (arith, neg_ℕ_parts (round_magnitude (suc m)))
round_mono (negsuc m) (negsuc n) h = omega (
  arith,
  neg_ℕ_parts (round_magnitude (suc m)),
  neg_ℕ_parts (round_magnitude (suc n)),
  round_magnitude_mono (suc n) (suc m) (omega arith),
)

pub round-one : round one ≡ one
unfolding round round_magnitude one
round-one = refl

pub round-epsilon : round epsilon ≡ epsilon
unfolding round round_magnitude epsilon
round-epsilon = refl

-- Twice EPSILON, the first value whose distance from 1 is more than EPSILON.
pub round_two_epsilon : round (epsilon +ℤ epsilon) ≡ epsilon +ℤ epsilon
unfolding round round_magnitude epsilon ◌+ℤ◌
round_two_epsilon = refl

pub round-neg_two_epsilon : round (neg (epsilon +ℤ epsilon)) ≡ neg (epsilon +ℤ epsilon)
unfolding round round_magnitude epsilon neg ◌+ℤ◌
round-neg_two_epsilon = refl

pub round-neg-epsilon : round (neg epsilon) ≡ neg epsilon
unfolding round round_magnitude epsilon neg
round-neg-epsilon = refl

pub round-nought : round nought ≡ nought
unfolding round round_magnitude
round-nought = refl
