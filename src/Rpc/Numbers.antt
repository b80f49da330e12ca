-- ===== src/Rpc/Numbers.antt =====
-- What the program uses of `str::parse` on integers, and of `split`.
pub mod Major
use Prim.Native.Char.{code}
use Prim.Native.String.{[], ◌∷◌}
use satan_attrd.Prelude.{
  ℕ, ◌+◌, ◌*◌, ◌-◌, ◌^◌, String, Option, none, some, ◌&&◌, leb, ◌==◌, if◌then◌else◌,
}
use satan_attrd.Prelude.Int.{ℤ, pos, neg_ℕ}

-- `split('.').next()`
unfoldable pub before_dot : String → String
before_dot [] = []
before_dot (c ∷ s) = let rest = before_dot s in if code c == 46 then [] else c ∷ rest

-- The digits after those that made `acc`, where the number stays at most `limit`.
unfoldable pub digits_from : ℕ → ℕ → String → Option ℕ
digits_from limit acc [] = some acc
digits_from limit acc (c ∷ s) =
    let acc' = acc * 10 + (code c - 48) in
    let rest = digits_from limit acc' s in
    if leb 48 (code c) && leb (code c) 57 && leb acc' limit then rest else none

-- A text of digits, at least one.
unfoldable pub digits : ℕ → String → Option ℕ
unfolding digits_from
digits limit [] = none
digits limit (c ∷ s) = digits_from limit 0 (c ∷ s)

-- `parse::<u32>`: a sign `+` is taken, and no `-`.
unfoldable pub parse_u32 : String → Option ℕ
unfolding digits
parse_u32 [] = none
parse_u32 (c ∷ s) = if code c == 43 then digits (2 ^ 32 - 1) s else digits (2 ^ 32 - 1) (c ∷ s)

abbrev signed : (ℕ → ℤ) → Option ℕ → Option ℤ
signed f none = none
signed f (some n) = some (f n)

-- `parse::<i32>`
unfoldable pub parse_i32 : String → Option ℤ
unfolding digits
parse_i32 [] = none
parse_i32 (c ∷ s) =
    if code c == 43
    then signed pos (digits (2 ^ 31 - 1) s)
    else if code c == 45
    then signed neg_ℕ (digits (2 ^ 31) s)
    else signed pos (digits (2 ^ 31 - 1) (c ∷ s))
