-- ===== src/Rpc/Numbers/Major.antt =====
-- The part of a version before its first dot, and the texts that `parse::<u32>` reads as 1.
use Prim.Native.Char.{Char, code}
use Prim.Native.String as Text
use Prim.Native.String.append
use text.Mathlib.TextEquality.{Char-path}
use satan_attrd.Prelude.{
  ℕ, zero, suc, ◌≤◌, ◌-◌, ◌^◌, ◌*◌, ◌+◌, String, Bool, true, false, ◌||◌, ◌==◌, some, ◌≡◌, ◌⊎◌, inl,
  inr, refl, ap, sym, ◌∙◌, str_append, if◌then◌else◌, arith,
}
use satan_attrd.Rpc.Numbers.{before_dot, digits_from, digits, parse_u32}

unfoldable pub has_dot : String → Bool
has_dot Text.[] = false
has_dot (Text.◌∷◌ c s) = let rest = has_dot s in code c == 46 || rest

-- The text up to the first dot, or all of a text with no dot.
abbrev pub IsBeforeDot : String → String → Type 0
IsBeforeDot m s =
    (has_dot m ≡ false) × ((s ≡ m) ⊎ ((rest : String) × (s ≡ str_append m (str_append "." rest))))

append-nil : (t : String) → str_append Text.[] t ≡ t
append-nil t i = append.nil t i

append-cons : (c : Char) (s t : String) → str_append (Text.◌∷◌ c s) t ≡ Text.◌∷◌ c (str_append s t)
append-cons c s t i = append.cons c s t i

same_char : (c d : Char) (s : String) → code c ≡ code d → Text.◌∷◌ c s ≡ Text.◌∷◌ d s
same_char c d s h i = Text.◌∷◌ (Char-path c d h i) s

before_dot-IsBeforeDot : (s : String) → IsBeforeDot (before_dot s) s
unfolding before_dot has_dot
before_dot-IsBeforeDot Text.[] = (refl, inl refl)
before_dot-IsBeforeDot (Text.◌∷◌ c s) = at_char (code c == 46) refl (before_dot-IsBeforeDot s)
  where
    longer :
        IsBeforeDot (before_dot s) s
        → (code c == 46) ≡ false
        → IsBeforeDot (Text.◌∷◌ c (before_dot s)) (Text.◌∷◌ c s)
    longer (h, inl same) e = (ground arith, inl (ap (Text.◌∷◌ c) same))
    longer (h, inr (rest, same)) e = (
      ground arith,
      inr (rest, ap (Text.◌∷◌ c) same ∙ sym (append-cons c (before_dot s) (str_append "." rest))),
    )

    at_char :
        (b : Bool)
        → (code c == 46) ≡ b
        → IsBeforeDot (before_dot s) s
        → IsBeforeDot (if b then Text.[] else Text.◌∷◌ c (before_dot s)) (Text.◌∷◌ c s)
    at_char true e k = (
      refl,
      inr (
        s,
        same_char c "." s (ground arith)
            ∙ sym (
                append-nil (str_append "." s)
                ∙ (append-cons "." Text.[] s ∙ ap (Text.◌∷◌ ".") (append-nil s))),
      ),
    )
    at_char false e k = longer k e

before_dot-dotted :
    (m rest : String) → has_dot m ≡ false → before_dot (str_append m (str_append "." rest)) ≡ m
unfolding before_dot has_dot
before_dot-dotted Text.[] rest h =
    ap before_dot (append-nil (str_append "." rest) ∙ append-cons "." Text.[] rest)
before_dot-dotted (Text.◌∷◌ c m) rest h =
    ap before_dot (append-cons c m (str_append "." rest)) ∙ ground (arith, before_dot-dotted m rest)

before_dot-plain : (m : String) → has_dot m ≡ false → before_dot m ≡ m
unfolding before_dot has_dot
before_dot-plain Text.[] h = refl
before_dot-plain (Text.◌∷◌ c m) h = ground (arith, before_dot-plain m)

IsBeforeDot-before_dot : (m s : String) → IsBeforeDot m s → before_dot s ≡ m
IsBeforeDot-before_dot m s (h, inl same) = ap before_dot same ∙ before_dot-plain m h
IsBeforeDot-before_dot m s (h, inr (rest, same)) = ap before_dot same ∙ before_dot-dotted m rest h

-- Zeros, and the digit 1.
abbrev pub zeros_one : ℕ → String
zeros_one zero = "1"
zeros_one (suc n) = Text.◌∷◌ "0" (zeros_one n)

-- A text that `u32` reads as 1: zeros and the digit 1, with or without a sign.
abbrev pub IsOne : String → Type 0
IsOne m = (n : ℕ) × ((m ≡ zeros_one n) ⊎ (m ≡ Text.◌∷◌ "+" (zeros_one n)))

digits_from-le : (limit acc n : ℕ) (s : String) → digits_from limit acc s ≡ some n → acc ≤ n
unfolding digits_from
digits_from-le limit acc n Text.[] h = ground arith
digits_from-le limit acc n (Text.◌∷◌ c s) h =
    ground (arith, digits_from-le limit (acc * 10 + (code c - 48)) n s)

after_one : (limit : ℕ) (s : String) → digits_from limit 1 s ≡ some 1 → s ≡ Text.[]
unfolding digits_from
after_one limit Text.[] h = refl
after_one limit (Text.◌∷◌ c s) h =
    absurd (ground (arith, digits_from-le limit (1 * 10 + (code c - 48)) 1 s))

first_digit :
    (limit : ℕ) (c : Char) (s : String)
    → digits_from limit 0 (Text.◌∷◌ c s) ≡ some 1
    → (digits_from limit (code c - 48) s ≡ some 1) × (48 ≤ code c)
unfolding digits_from
first_digit limit c s h = (ground arith, ground arith)

nothing_read : (limit : ℕ) → digits_from limit 0 Text.[] ≡ some 1 → ⊥
unfolding digits_from
nothing_read limit h = ground arith

digits_from-one :
    (limit : ℕ) (s : String) → digits_from limit 0 s ≡ some 1 → (n : ℕ) × (s ≡ zeros_one n)
digits_from-one limit Text.[] h = absurd (nothing_read limit h)
digits_from-one limit (Text.◌∷◌ c s) h =
    at_digit (code c - 48) refl (first_digit limit c s h) (digits_from-one limit s)
  where
    at_digit :
        (d : ℕ)
        → code c - 48 ≡ d
        → (digits_from limit d s ≡ some 1) × (48 ≤ code c)
        → (digits_from limit 0 s ≡ some 1 → (n : ℕ) × (s ≡ zeros_one n))
        → (n : ℕ) × (Text.◌∷◌ c s ≡ zeros_one n)
    at_digit zero e k ih =
        let (n, same) = ih k.0 in
        (suc n, same_char c "0" s (omega (arith, e, k.1)) ∙ ap (Text.◌∷◌ "0") same)
    at_digit (suc zero) e k ih = (
      zero,
      same_char c "1" s (omega (arith, e, k.1)) ∙ ap (Text.◌∷◌ "1") (after_one limit s k.0),
    )
    at_digit (suc (suc d)) e k ih =
        absurd (omega (arith, digits_from-le limit (suc (suc d)) 1 s k.0))

one-digits : (limit n : ℕ) → 1 ≤ limit → digits_from limit 0 (zeros_one n) ≡ some 1
unfolding digits_from
one-digits limit zero h = ground arith
one-digits limit (suc n) h = ground (arith, one-digits limit n h)

digits-one : (limit : ℕ) (s : String) → digits limit s ≡ some 1 → (n : ℕ) × (s ≡ zeros_one n)
unfolding digits
digits-one limit Text.[] h = absurd (ground arith)
digits-one limit (Text.◌∷◌ c s) h = digits_from-one limit (Text.◌∷◌ c s) h

zeros_one-digits : (limit n : ℕ) → 1 ≤ limit → digits limit (zeros_one n) ≡ some 1
unfolding digits
zeros_one-digits limit zero h = one-digits limit zero h
zeros_one-digits limit (suc n) h = one-digits limit (suc n) h

parse_u32-IsOne : (m : String) → parse_u32 m ≡ some 1 → IsOne m
unfolding parse_u32
parse_u32-IsOne Text.[] h = absurd (ground arith)
parse_u32-IsOne (Text.◌∷◌ c s) h = at_sign (code c == 43) refl h
  where
    at_sign :
        (b : Bool)
        → (code c == 43) ≡ b
        → (if b then digits (2 ^ 32 - 1) s else digits (2 ^ 32 - 1) (Text.◌∷◌ c s)) ≡ some 1
        → IsOne (Text.◌∷◌ c s)
    at_sign true e k =
        let (n, same) = digits-one (2 ^ 32 - 1) s k in
        (n, inr (same_char c "+" s (ground arith) ∙ ap (Text.◌∷◌ "+") same))
    at_sign false e k = let (n, same) = digits-one (2 ^ 32 - 1) (Text.◌∷◌ c s) k in (n, inl same)

IsOne-parse_u32 : (m : String) → IsOne m → parse_u32 m ≡ some 1
unfolding parse_u32
IsOne-parse_u32 m (zero, inl same) =
    ap parse_u32 same ∙ zeros_one-digits (2 ^ 32 - 1) zero (omega arith)
IsOne-parse_u32 m (suc n, inl same) =
    ap parse_u32 same ∙ zeros_one-digits (2 ^ 32 - 1) (suc n) (omega arith)
IsOne-parse_u32 m (n, inr same) = ap parse_u32 same ∙ zeros_one-digits (2 ^ 32 - 1) n (omega arith)

-- The major number of a text is 1 exactly when its part before the first dot reads as 1.
pub major-IsOne :
    (s : String) → parse_u32 (before_dot s) ≡ some 1 → (m : String) × IsBeforeDot m s × IsOne m
major-IsOne s h = (before_dot s, before_dot-IsBeforeDot s, parse_u32-IsOne (before_dot s) h)

pub IsOne-major : (m s : String) → IsBeforeDot m s → IsOne m → parse_u32 (before_dot s) ≡ some 1
IsOne-major m s h one = ap parse_u32 (IsBeforeDot-before_dot m s h) ∙ IsOne-parse_u32 m one
