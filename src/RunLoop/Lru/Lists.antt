-- ===== src/RunLoop/Lru/Lists.antt =====
-- Facts about lists of run ids without repetition, and about the association lists.
use satan_attrd.Prelude.{
  ℕ, zero, suc, String, Bool, true, false, ◌||◌, none, some, List, [], ◌∷◌, ◌++◌, ◌≡◌, refl, arith,
  length, str_eq, eq_iff, map, if◌then◌else◌,
}
use satan_attrd.RunLoop.Lru.{Assoc, position, remove_at}

unfoldable pub mem : String → List String → Bool
mem k [] = false
mem k (j ∷ l) = str_eq j k || mem k l

-- No run id stands twice.
abbrev pub Distinct : List String → Type 0
Distinct [] = Unit
Distinct (j ∷ l) = (mem j l ≡ false) × Distinct l

-- The list without the first place of a run id.
unfoldable pub without : String → List String → List String
without k [] = []
without k (j ∷ l) = let rest = without k l in if str_eq j k then l else j ∷ rest

abbrev pub keys : {V : Type 0} → Assoc V → List String
keys m = map (λ e. e.0) m

pub position-none : (k : String) (l : List String) → position k l ≡ none → mem k l ≡ false
unfolding position mem
position-none k [] h = refl
position-none k (j ∷ l) h = ground (arith, position-none k l)

pub position-some : (k : String) (l : List String) (i : ℕ) → position k l ≡ some i → mem k l ≡ true
unfolding position mem
position-some k [] i h = ground arith
position-some k (j ∷ l) zero h = ground (arith, position-some k l zero)
position-some k (j ∷ l) (suc i) h = ground (arith, position-some k l i)

-- The position found is that of the run id: removing it takes the run id out.
pub remove_at-position :
    (k : String) (l : List String) (i : ℕ)
    → position k l ≡ some i
    → remove_at i l ≡ (some k, without k l)
unfolding position remove_at without
remove_at-position k [] i h = ground arith
remove_at-position k (j ∷ l) zero h = ground (arith, eq_iff j k)
remove_at-position k (j ∷ l) (suc i) h = ground (arith, remove_at-position k l i)

pub mem-append_one :
    (k j : String) (l : List String) → mem j (l ++ k ∷ []) ≡ (mem j l || str_eq k j)
unfolding mem
mem-append_one k j [] = ground arith
mem-append_one k j (i ∷ l) = ground (arith, mem-append_one k j l)

pub mem-without :
    (k j : String) (l : List String)
    → Distinct l
    → mem j (without k l) ≡ (if str_eq k j then false else mem j l)
unfolding mem without
mem-without k j [] h = ground arith
mem-without k j (i ∷ l) h =
    ground (arith, mem-without k j l h.1, eq_iff i k, eq_iff i j, eq_iff k j)

pub Distinct-without : (k : String) (l : List String) → Distinct l → Distinct (without k l)
unfolding without
Distinct-without k [] h = tt
Distinct-without k (j ∷ l) h = ground (arith, Distinct-without k l h.1, mem-without k j l h.1)

pub Distinct-append_one :
    (k : String) (l : List String) → mem k l ≡ false → Distinct l → Distinct (l ++ k ∷ [])
unfolding mem
Distinct-append_one k [] h d = (refl, tt)
Distinct-append_one k (j ∷ l) h d =
    ground (arith, Distinct-append_one k l, mem-append_one k j l, eq_iff j k, eq_iff k j)

pub length-without :
    (k : String) (l : List String) → mem k l ≡ true → suc (length (without k l)) ≡ length l
unfolding mem without
length-without k [] h = ground arith
length-without k (j ∷ l) h = ground (arith, length-without k l)
