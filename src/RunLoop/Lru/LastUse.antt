-- ===== src/RunLoop/Lru/LastUse.antt =====
-- The runs in the order of their last use.
use satan_attrd.Prelude.{
  String, true, false, ◌||◌, List, [], ◌∷◌, ◌++◌, ◌≡◌, refl, eq_iff, if◌then◌else◌, arith,
}
use satan_attrd.RunLoop.Lru.Lists.{mem, Distinct, without, mem-append_one}

-- Each run once, at the place of its last use.
unfoldable pub by_last_use : List String → List String
by_last_use [] = []
by_last_use (k ∷ ks) = let rest = by_last_use ks in if mem k ks then rest else k ∷ rest

pub mem-by_last_use : (k : String) (ks : List String) → mem k (by_last_use ks) ≡ mem k ks
unfolding by_last_use mem
mem-by_last_use k [] = refl
mem-by_last_use k (j ∷ ks) = ground (arith, mem-by_last_use k ks, eq_iff j k)

pub without_absent : (k : String) (l : List String) → mem k l ≡ false → without k l ≡ l
unfolding mem without
without_absent k [] h = refl
without_absent k (j ∷ l) h = ground (arith, without_absent k l)

pub by_last_use-snoc :
    (k : String) (ks : List String)
    → by_last_use (ks ++ k ∷ []) ≡ without k (by_last_use ks) ++ k ∷ []
unfolding by_last_use mem without
by_last_use-snoc k [] = refl
by_last_use-snoc k (j ∷ ks) = ground (
  arith,
  by_last_use-snoc k ks,
  mem-append_one k j ks,
  mem-by_last_use j ks,
  mem-by_last_use k ks,
  eq_iff j k,
  eq_iff k j,
  without_absent k (by_last_use ks),
)

pub without-append :
    (k : String) (l r : List String)
    → without k (l ++ r) ≡ (if mem k l then without k l ++ r else l ++ without k r)
unfolding mem without
without-append k [] r = refl
without-append k (j ∷ l) r = ground (arith, without-append k l r)

pub by_last_use-Distinct : (ks : List String) → Distinct (by_last_use ks)
unfolding by_last_use
by_last_use-Distinct [] = tt
by_last_use-Distinct (k ∷ ks) = ground (arith, by_last_use-Distinct ks, mem-by_last_use k ks)

pub mem-append : (k : String) (l r : List String) → mem k (l ++ r) ≡ (mem k l || mem k r)
unfolding mem
mem-append k [] r = refl
mem-append k (j ∷ l) r = ground (arith, mem-append k l r)

-- In a list without repetition what stands at the end does not stand before.
pub only_at_end :
    (k : String) (l r : List String) → Distinct (l ++ r) → mem k r ≡ true → mem k l ≡ false
unfolding mem
only_at_end k [] r d h = refl
only_at_end k (j ∷ l) r d h =
    ground (arith, only_at_end k l r d.1, mem-append j l r, eq_iff j k, d.0, h)
