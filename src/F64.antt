-- ===== src/F64.antt =====
-- The part of Rust's `f64` that the program computes with.
pub mod Round
pub mod Order
use satan_attrd.Prelude.{
  ℕ, zero, suc, ◌+◌, ◌*◌, ◌/◌, ◌%◌, ◌^◌, Bool, true, false, ◌&&◌, ◌||◌, ltb, ◌==◌, if◌then◌else◌,
}
use satan_attrd.Prelude.Int.{
  ℤ, pos, negsuc, pos_part, neg_part, neg_ℕ, sub_ℕ, neg, ltb_ℤ, leb_ℤ, eqb_ℤ, ◌+ℤ◌, ◌-ℤ◌,
}

-- A finite binary64 value, as the integer multiple of 2^-1074 that it is.
abbrev pub F64 : Type 0
F64 = ℤ

-- `q` multiples of `d` and a rest `r` go to the nearer multiple; a tie goes to the even one.
unfoldable pub snap : ℕ → ℕ → ℕ → ℕ
snap d q r = if ltb d (2 * r) || (2 * r == d && q % 2 == 1) then (q + 1) * d else q * d

-- The multiple of `d` nearest to `n`.
unfoldable pub nearest : ℕ → ℕ → ℕ
unfolding snap
nearest d n = snap d (n / d) (n % d)

-- The least exponent from `e` on at which `n` has at most 53 binary digits.
unfoldable pub exponent : ℕ → ℕ → ℕ → ℕ
exponent zero e n = e
exponent (suc fuel) e n = elim (ltb n (2 ^ (e + 53))) [ true ↦ e | false ↦ exponent fuel (suc e) n ]

-- Binary64 has 2046 binades of normal and subnormal values.
abbrev pub binades : ℕ
binades = 2045

unfoldable pub round_magnitude : ℕ → ℕ
unfolding nearest exponent
round_magnitude n = nearest (2 ^ exponent binades 0 n) n

-- Round to nearest, ties to even.
unfoldable pub round : ℤ → F64
round (pos n) = pos (round_magnitude n)
round (negsuc n) = neg_ℕ (round_magnitude (suc n))

unfoldable pub add : F64 → F64 → F64
unfolding round round_magnitude ◌+ℤ◌
add a b = round (a +ℤ b)

unfoldable pub sub : F64 → F64 → F64
unfolding round round_magnitude ◌-ℤ◌
sub a b = round (a -ℤ b)

-- The product of two magnitudes counts 2^-2148, so its last 1074 digits are below the grid.
mul_magnitude : ℕ → ℕ → ℕ
unfolding nearest exponent
mul_magnitude m n = nearest (2 ^ exponent binades 1074 (m * n)) (m * n) / 2 ^ 1074

unfoldable pub mul : F64 → F64 → F64
unfolding mul_magnitude
mul (pos m) (pos n) = pos (mul_magnitude m n)
mul (pos m) (negsuc n) = neg_ℕ (mul_magnitude m (suc n))
mul (negsuc m) (pos n) = neg_ℕ (mul_magnitude (suc m) n)
mul (negsuc m) (negsuc n) = pos (mul_magnitude (suc m) (suc n))

abbrev pub lt : F64 → F64 → Bool
lt = ltb_ℤ

abbrev pub le : F64 → F64 → Bool
le = leb_ℤ

abbrev pub eq : F64 → F64 → Bool
eq = eqb_ℤ

-- `f64::abs`
unfoldable pub abs : F64 → F64
unfolding neg
abs a = if lt a (pos 0) then neg a else a

-- `f64::max`
unfoldable pub max : F64 → F64 → F64
max a b = if lt a b then b else a

-- `f64::clamp`
unfoldable pub clamp : F64 → F64 → F64 → F64
clamp x lo hi = if lt x lo then lo else if lt hi x then hi else x

abbrev pub nought : F64
nought = pos 0

unfoldable pub one : F64
one = pos (2 ^ 1074)

-- `f64::EPSILON`
unfoldable pub epsilon : F64
epsilon = pos (2 ^ 1022)
