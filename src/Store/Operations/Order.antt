-- ===== src/Store/Operations/Order.antt =====
-- ORDER BY: the rows come out in an order that does not depend on the order in which they are kept.
use mathlib.Core.List.{Permᴰ}
use mathlib.Core.List.Permᴰ
use mathlib.Core.Path.{subst}
use satan_attrd.Prelude.{
  Bool, true, false, not, ◌≡◌, refl, ap, ◌∙◌, List, [], ◌∷◌, All, Apart, if◌then◌else◌, arith,
}
use satan_attrd.Store.Operations.{select, insert_ordered, order_by}

All-perm : {A : Type 0} (P : A → Type 0) {xs ys : List A} → Permᴰ xs ys → All P xs → All P ys
All-perm P Permᴰ.nil h = tt
All-perm P (Permᴰ.cons e p) h = (subst P e h.0, All-perm P p h.1)
All-perm P (Permᴰ.swap e f) h = (subst P f h.1.0, (subst P e h.0, h.1.1))
All-perm P (Permᴰ.trans p q) h = All-perm P q (All-perm P p h)

pub Apart-perm :
    {A : Type 0} (R : A → A → Type 0)
    → ((x y : A) → R x y → R y x)
    → {xs ys : List A} → Permᴰ xs ys
    → Apart R xs
    → Apart R ys
Apart-perm R turn Permᴰ.nil h = tt
Apart-perm R turn (Permᴰ.cons {l₂ = l₂} e p) h =
    (subst (λ x. All (R x) l₂) e (All-perm (R _) p h.0), Apart-perm R turn p h.1)
Apart-perm R turn (Permᴰ.swap {a} {b} {a'} {b'} {l} e f) h =
    let first : R a' b' = subst (λ x. R x b') f (subst (R b) e (turn a b h.0.0)) in
    ((first, subst (λ x. All (R x) l) f h.1.0), (subst (λ x. All (R x) l) e h.0.1, h.1.1))
Apart-perm R turn (Permᴰ.trans p q) h = Apart-perm R turn q (Apart-perm R turn p h)

pub select-perm :
    {A : Type 0} (test : A → Bool) {xs ys : List A}
    → Permᴰ xs ys
    → Permᴰ (select test xs) (select test ys)
unfolding select
select-perm test Permᴰ.nil = Permᴰ.nil
select-perm {A} test (Permᴰ.cons {a} {b} {l₁} {l₂} e p) =
    subst (λ x. Permᴰ (select test (a ∷ l₁)) (select test (x ∷ l₂))) e
      (head (test a) (select test l₁) (select test l₂) (select-perm test p))
  where
    head :
        (t : Bool) (xs ys : List A)
        → Permᴰ xs ys
        → Permᴰ (if t then a ∷ xs else xs) (if t then a ∷ ys else ys)
    head true xs ys h = Permᴰ.cons refl h
    head false xs ys h = h
select-perm {A} test (Permᴰ.swap {a} {b} {a'} {b'} {l} e f) =
    subst (λ y. Permᴰ (select test (a ∷ b ∷ l)) (select test (y ∷ b' ∷ l))) f
      (subst (λ x. Permᴰ (select test (a ∷ b ∷ l)) (select test (b ∷ x ∷ l))) e
        (two (test a) (test b) (select test l)))
  where
    two :
        (t u : Bool) (xs : List A)
        → Permᴰ
            (if t then a ∷ (if u then b ∷ xs else xs) else (if u then b ∷ xs else xs))
            (if u then b ∷ (if t then a ∷ xs else xs) else (if t then a ∷ xs else xs))
    two true true xs = Permᴰ.swap refl refl
    two true false xs = Permᴰ.refl (a ∷ xs)
    two false true xs = Permᴰ.refl (b ∷ xs)
    two false false xs = Permᴰ.refl xs
select-perm test (Permᴰ.trans p q) = Permᴰ.trans (select-perm test p) (select-perm test q)

module _ {A : Type 0} (le : A → A → Bool) where
  -- Of two rows exactly one comes no later than the other.
  abbrev pub Ordered : A → A → Type 0
  Ordered x y = le x y ≡ not (le y x)

  abbrev pub IsTransitive : Type 0
  IsTransitive = (x y z : A) → le x y ≡ true → le y z ≡ true → le x z ≡ true

  pub turned : (x y : A) → Ordered x y → Ordered y x
  turned x y h = ground arith

  module _ (trans : IsTransitive) where
    insert_comm :
        (x y : A) (zs : List A)
        → Ordered x y
        → insert_ordered le x (insert_ordered le y zs)
          ≡ insert_ordered le y (insert_ordered le x zs)
    unfolding insert_ordered
    insert_comm x y [] h = ground arith
    insert_comm x y (z ∷ zs) h = ground (arith, h, insert_comm x y zs h, trans x y z, trans y x z)

    pub order_by-perm :
        {xs ys : List A} → Permᴰ xs ys → Apart Ordered xs → order_by le xs ≡ order_by le ys
    unfolding order_by
    order_by-perm Permᴰ.nil h = refl
    order_by-perm (Permᴰ.cons {a} {b} {l₁} {l₂} e p) h =
        ap (λ x. insert_ordered le x (order_by le l₁)) e
        ∙ ap (insert_ordered le b) (order_by-perm p h.1)
    order_by-perm (Permᴰ.swap {a} {b} {a'} {b'} {l} e f) h =
        insert_comm a b (order_by le l) h.0.0
        ∙ ap (λ y. insert_ordered le y (insert_ordered le a (order_by le l))) f
        ∙ ap (λ x. insert_ordered le a' (insert_ordered le x (order_by le l))) e
    order_by-perm (Permᴰ.trans {l₁} {l₂} {l₃} p q) h =
        order_by-perm p h ∙ order_by-perm q (Apart-perm Ordered turned p h)
