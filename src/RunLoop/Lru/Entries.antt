-- ===== src/RunLoop/Lru/Entries.antt =====
-- Facts about the association lists: lookups and keys after `remove` and `put`.
use satan_attrd.Prelude.{
  suc, String, true, false, ◌||◌, none, some, [], ◌∷◌, ◌≡◌, refl, arith, length, str_eq, eq_iff,
  if◌then◌else◌,
}
use satan_attrd.RunLoop.Lru.{Assoc, lookup, remove, put}
use satan_attrd.RunLoop.Lru.Lists.{mem, Distinct, keys}

module _ {V : Type 0} where
  pub lookup-remove :
      (k j : String) (m : Assoc V)
      → lookup j (remove k m) ≡ (if str_eq k j then none else lookup j m)
  unfolding lookup remove
  lookup-remove k j [] = ground arith
  lookup-remove k j ((i, v) ∷ m) =
      ground (arith, lookup-remove k j m, eq_iff i k, eq_iff i j, eq_iff k j)

  pub lookup-put :
      (k j : String) (v : V) (m : Assoc V)
      → lookup j (put k v m) ≡ (if str_eq k j then some v else lookup j m)
  unfolding lookup put
  lookup-put k j v [] = refl
  lookup-put k j v ((i, w) ∷ m) =
      ground (arith, lookup-put k j v m, eq_iff i k, eq_iff i j, eq_iff k j)

  pub lookup-none : (k : String) (m : Assoc V) → lookup k m ≡ none → mem k (keys m) ≡ false
  unfolding lookup mem
  lookup-none k [] h = refl
  lookup-none k ((j, v) ∷ m) h = ground (arith, lookup-none k m)

  pub lookup_absent : (k : String) (m : Assoc V) → mem k (keys m) ≡ false → lookup k m ≡ none
  unfolding lookup mem
  lookup_absent k [] h = refl
  lookup_absent k ((j, v) ∷ m) h = ground (arith, lookup_absent k m)

  pub mem-remove :
      (k j : String) (m : Assoc V)
      → mem j (keys (remove k m)) ≡ (if str_eq k j then false else mem j (keys m))
  unfolding remove mem
  mem-remove k j [] = ground arith
  mem-remove k j ((i, v) ∷ m) = ground (arith, mem-remove k j m, eq_iff i k, eq_iff i j, eq_iff k j)

  pub mem-put :
      (k j : String) (v : V) (m : Assoc V)
      → mem j (keys (put k v m)) ≡ (mem j (keys m) || str_eq k j)
  unfolding put mem
  mem-put k j v [] = ground arith
  mem-put k j v ((i, w) ∷ m) = ground (arith, mem-put k j v m, eq_iff i k, eq_iff i j, eq_iff k j)

  pub Distinct-remove :
      (k : String) (m : Assoc V) → Distinct (keys m) → Distinct (keys (remove k m))
  unfolding remove
  Distinct-remove k [] h = tt
  Distinct-remove k ((j, v) ∷ m) h = ground (arith, Distinct-remove k m h.1, mem-remove k j m)

  pub Distinct-put :
      (k : String) (v : V) (m : Assoc V) → Distinct (keys m) → Distinct (keys (put k v m))
  unfolding put mem
  Distinct-put k v [] h = (refl, tt)
  Distinct-put k v ((j, w) ∷ m) h =
      ground (arith, Distinct-put k v m h.1, mem-put k j v m, eq_iff j k, eq_iff k j)

  remove_absent : (k : String) (m : Assoc V) → mem k (keys m) ≡ false → remove k m ≡ m
  unfolding remove mem
  remove_absent k [] h = refl
  remove_absent k ((j, v) ∷ m) h = ground (arith, remove_absent k m)

  pub length-remove :
      (k : String) (m : Assoc V)
      → Distinct (keys m)
      → mem k (keys m) ≡ true
      → suc (length (remove k m)) ≡ length m
  unfolding remove mem
  length-remove k [] d h = ground arith
  length-remove k ((j, v) ∷ m) d h =
      ground (arith, length-remove k m d.1, remove_absent k m, eq_iff j k)

  pub length-put :
      (k : String) (v : V) (m : Assoc V)
      → length (put k v m) ≡ (if mem k (keys m) then length m else suc (length m))
  unfolding put mem
  length-put k v [] = refl
  length-put k v ((j, w) ∷ m) = ground (arith, length-put k v m)
