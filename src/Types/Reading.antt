-- ===== src/Types/Reading.antt =====
-- Parsers that compare a text with one text after the other.
use mathlib.Core.Path.{subst}
use satan_attrd.Prelude.{String, Bool, true, false, ◌≡◌, refl, arith, str_eq, eq_iff, if◌then◌else◌}
use satan_attrd.Error.{Result, ok, err}

-- A result that, if it is a value, is read from the text of the value.
abbrev pub IsReadFrom : {A : Type 0} → (A → String) → String → Result A → Type 0
IsReadFrom as_str s (ok x) = s ≡ as_str x
IsReadFrom as_str s (err e) = Unit

module _ {A : Type 0} (as_str : A → String) (s : String) where
  by_test :
      (b : Bool) (x : A) (rest : Result A)
      → (b ≡ true → s ≡ as_str x)
      → IsReadFrom as_str s rest
      → IsReadFrom as_str s (if b then ok x else rest)
  by_test true x rest h k = h refl
  by_test false x rest h k = k

  -- One comparison in front of a parser.
  pub test-IsReadFrom :
      (x : A) (rest : Result A)
      → IsReadFrom as_str s rest
      → IsReadFrom as_str s (if str_eq s (as_str x) then ok x else rest)
  test-IsReadFrom x rest k =
      by_test (str_eq s (as_str x)) x rest (λ same. ground (arith, eq_iff s (as_str x))) k

  pub read_lem : (r : Result A) (x : A) → IsReadFrom as_str s r → r ≡ ok x → s ≡ as_str x
  read_lem r x h e = subst (IsReadFrom as_str s) e h
