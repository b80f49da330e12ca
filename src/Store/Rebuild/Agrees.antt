-- ===== src/Store/Rebuild/Agrees.antt =====
-- The table of attributes agrees with the log: what the loop over the events writes as it goes is
-- what a rebuild would write.
use satan_attrd.Prelude.{
  String, Bool, true, ◌≡◌, refl, ap, ◌∙◌, some, List, [], ◌∷◌, ◌++◌, All, if◌then◌else◌, arith,
}
use satan_attrd.Extern.{Extern}
use satan_attrd.Store.Database.{EventRow}
use satan_attrd.Store.Operations.{select, order_by, insert_ordered}
use satan_attrd.Store.Rebuild.Content.{same_key}
use satan_attrd.Store.Rebuild.Laws.{last_event}

insert_before :
    {A : Type 0} (le : A → A → Bool) (x y : A) (zs : List A)
    → le x y ≡ true
    → insert_ordered le x (zs ++ y ∷ []) ≡ insert_ordered le x zs ++ y ∷ []
unfolding insert_ordered
insert_before le x y [] h = rw h refl
insert_before le x y (z ∷ zs) h = ground (arith, insert_before le x y zs h)

-- A row that comes no earlier than all others is the last.
pub order_by-snoc :
    {A : Type 0} (le : A → A → Bool) (xs : List A) (y : A)
    → All (λ x. le x y ≡ true) xs
    → order_by le (xs ++ y ∷ []) ≡ order_by le xs ++ y ∷ []
unfolding order_by insert_ordered
order_by-snoc le [] y h = refl
order_by-snoc le (x ∷ xs) y h =
    ap (insert_ordered le x) (order_by-snoc le xs y h.1) ∙ insert_before le x y (order_by le xs) h.0

pub select-snoc :
    {A : Type 0} (test : A → Bool) (xs : List A) (y : A)
    → select test (xs ++ y ∷ []) ≡ (if test y then select test xs ++ y ∷ [] else select test xs)
unfolding select
select-snoc test [] y = ground arith
select-snoc test (x ∷ xs) y = ground (arith, select-snoc test xs y)

module _ {X : Extern} where
  pub last_event-snoc :
      (s n : String) (rows : List (EventRow X)) (r : EventRow X)
      → last_event s n (rows ++ r ∷ [])
        ≡ (if same_key r.scope r.name s n then some r else last_event s n rows)
  unfolding last_event
  last_event-snoc s n [] r = refl
  last_event-snoc s n (q ∷ rows) r = ground (arith, last_event-snoc s n rows r)
