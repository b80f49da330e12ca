-- ===== src/Store/Operations/Log.antt =====
-- The log of events: an insert keeps the ids, and the numbers of a run, distinct.
use satan_attrd.Prelude.{
  Bool, true, false, ◌&&◌, ◌≡◌, ◌≢◌, inl, inr, List, [], ◌∷◌, ◌++◌, All, Apart, Apart-snoc,
  Bool-cases, str_eq, eq_iff, arith,
}
use satan_attrd.Prelude.Int.{ℤ, eqb_ℤ}
use satan_attrd.Prelude.Int.{eq_of_parts}
use satan_attrd.Error.{ok}
use satan_attrd.Prelude.{All-map, refl}
use satan_attrd.Extern.{Extern}
use satan_attrd.Store.Database.{EventRow, Database}
use satan_attrd.Store.Operations.{any, insert_row}

none_of : {A : Type 0} (p : A → Bool) (xs : List A) → any p xs ≡ false → All (λ x. p x ≡ false) xs
none_of p [] h = tt
none_of p (x ∷ xs) h = (ground arith, none_of p xs (ground arith))

no_other : {A : Type 0} (p : A → Bool) (xs : List A) → All (λ x. p x ≡ false) xs → any p xs ≡ false
no_other p [] h = refl
no_other p (x ∷ xs) h = rw (h.0, no_other p xs h.1) refl

eqb_eq : (a b : ℤ) → eqb_ℤ a b ≡ true → a ≡ b
eqb_eq a b h = eq_of_parts a b (ground arith)

pub eqb_refl : (a : ℤ) → eqb_ℤ a a ≡ true
eqb_refl a = ground arith

All-middle : {A : Type 0} (P : A → Type 0) (xs ys : List A) (y : A) → All P (xs ++ y ∷ ys) → P y
All-middle P [] ys y h = h.0
All-middle P (x ∷ xs) ys y h = All-middle P xs ys y h.1

module _ {X : Extern} where
  -- Two rows have different ids, and different numbers if they are of one run.
  abbrev pub IsApart : EventRow X → EventRow X → Type 0
  IsApart a b = (a.id ≢ b.id) × (a.run_id ≡ b.run_id → a.seq ≢ b.seq)

  abbrev pub IsLog : List (EventRow X) → Type 0
  IsLog rows = Apart IsApart rows

  apart :
      (row r : EventRow X)
      → str_eq r.id row.id ≡ false
      → (str_eq r.run_id row.run_id && eqb_ℤ r.seq row.seq) ≡ false
      → IsApart r row
  apart row r h k = (
    λ e. ground (arith, eq_iff r.id row.id),
    λ e f. ground (arith, eq_iff r.run_id row.run_id, eqb_refl r.seq),
  )

  both :
      (row : EventRow X) (rows : List (EventRow X))
      → All (λ r. str_eq r.id row.id ≡ false) rows
      → All (λ r. (str_eq r.run_id row.run_id && eqb_ℤ r.seq row.seq) ≡ false) rows
      → All (λ r. IsApart r row) rows
  both row [] h k = tt
  both row (r ∷ rows) h k = (apart row r h.0 k.0, both row rows h.1 k.1)

  pub insert_row-IsLog :
      (row : EventRow X) (db : Database X) → IsLog db.events → IsLog (insert_row row db).1.events
  unfolding insert_row
  insert_row-IsLog row db p = elim (Bool-cases (any (λ r. str_eq r.id row.id) db.events)) [
    | inl taken ↦ rw taken p
    | inr new ↦
        rw new
          (elim (Bool-cases
            (any (λ r. str_eq r.run_id row.run_id && eqb_ℤ r.seq row.seq) db.events)) [
              | inl taken ↦ rw taken p
              | inr fresh ↦ rw fresh (
                  Apart-snoc IsApart db.events row
                    (both row db.events (none_of _ db.events new) (none_of _ db.events fresh)) p)
            ])
  ]

  -- The log has only rows added at its end.
  abbrev pub Extends : List (EventRow X) → List (EventRow X) → Type 0
  Extends before after = (added : List (EventRow X)) × (after ≡ before ++ added)

  differ_id : (row r : EventRow X) → IsApart r row → str_eq r.id row.id ≡ false
  differ_id row r h = elim (Bool-cases (str_eq r.id row.id)) [
    | inl same ↦ absurd (h.0 ((eq_iff r.id row.id).0 same))
    | inr other ↦ other
  ]

  differ_seq :
      (row r : EventRow X)
      → IsApart r row
      → (str_eq r.run_id row.run_id && eqb_ℤ r.seq row.seq) ≡ false
  differ_seq row r h = elim (Bool-cases (str_eq r.run_id row.run_id)) [
    | inr other ↦ rw other refl
    | inl same ↦ rw same (elim (Bool-cases (eqb_ℤ r.seq row.seq)) [
      | inl equal ↦ absurd (h.1 ((eq_iff r.run_id row.run_id).0 same) (eqb_eq r.seq row.seq equal))
      | inr other ↦ other
    ])
  ]

  -- A row that is apart from all of the log is inserted.
  pub insert_row_new :
      (row : EventRow X) (db : Database X)
      → All (λ r. IsApart r row) db.events
      → insert_row row db ≡ (ok tt, record db { events = db.events ++ row ∷ [] })
  unfolding insert_row
  insert_row_new row db h =
      rw
        (
          no_other (λ r. str_eq r.id row.id) db.events (All-map _ _ (differ_id row) db.events h),
          no_other (λ r. str_eq r.run_id row.run_id && eqb_ℤ r.seq row.seq) db.events
              (All-map _ _ (differ_seq row) db.events h),
        )
        refl

  -- A member of a log is apart from those before it.
  pub IsLog-before :
      (xs ys : List (EventRow X)) (y : EventRow X)
      → IsLog (xs ++ y ∷ ys)
      → All (λ x. IsApart x y) xs
  IsLog-before [] ys y h = tt
  IsLog-before (x ∷ xs) ys y h = (All-middle (IsApart x) xs ys y h.0, IsLog-before xs ys y h.1)
