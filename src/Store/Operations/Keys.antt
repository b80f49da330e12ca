-- ===== src/Store/Operations/Keys.antt =====
-- The keys of the table of attributes: an upsert and a stamp keep them distinct.
use satan_attrd.Prelude.{
  String, Bool, true, false, Option, some, ◌≡◌, ◌≢◌, inl, inr, List, [], ◌∷◌, All, Apart, map,
  Bool-cases, eq_iff, if◌then◌else◌, arith,
}
use satan_attrd.F64.{F64}
use satan_attrd.Extern.{Extern}
use satan_attrd.Store.Event.{in_range}
use satan_attrd.Store.Database.{AttributeRow, Database}
use satan_attrd.Store.Operations.{is_key, put_row, upsert_row}

module _ {X : Extern} where
  -- Two rows have different keys.
  abbrev pub DiffersIn : AttributeRow X → AttributeRow X → Type 0
  DiffersIn a b = a.scope ≡ b.scope → a.name ≢ b.name

  abbrev pub IsKeyed : List (AttributeRow X) → Type 0
  IsKeyed rows = Apart DiffersIn rows

  module _ (scope name : String) (v : F64) (t : X.DateTime) (e : X.Value) where
    abbrev fresh : AttributeRow X
    fresh = record {
      scope = scope;
      name = name;
      value = v;
      updated_at = t;
      evidence_json = e;
      last_decay_at = Option.none;
    }

    abbrev written : AttributeRow X → AttributeRow X
    written r = record r { value = v; updated_at = t; evidence_json = e }

    differs_in :
        (x : AttributeRow X) (rows : List (AttributeRow X))
        → DiffersIn x fresh
        → All (DiffersIn x) rows
        → All (DiffersIn x) (put_row scope name v t e rows)
    unfolding put_row
    differs_in x [] h p = (h, tt)
    differs_in x (r ∷ rows) h p =
        either (is_key scope name r) (put_row scope name v t e rows) (differs_in x rows h p.1)
      where
        either :
            (b : Bool) (rest : List (AttributeRow X))
            → All (DiffersIn x) rest
            → All (DiffersIn x) (if b then written r ∷ rows else r ∷ rest)
        either true rest q = p
        either false rest q = (p.0, q)

    not_key : (r : AttributeRow X) → is_key scope name r ≡ false → DiffersIn r fresh
    unfolding is_key
    not_key r h p q = ground (arith, eq_iff r.scope scope, eq_iff r.name name)

    put_row-IsKeyed :
        (rows : List (AttributeRow X)) → IsKeyed rows → IsKeyed (put_row scope name v t e rows)
    unfolding put_row
    put_row-IsKeyed [] p = (tt, tt)
    put_row-IsKeyed (r ∷ rows) p = elim (Bool-cases (is_key scope name r)) [
      | inl found ↦ rw found p
      | inr other ↦ rw other (differs_in r rows (not_key r other) p.0, put_row-IsKeyed rows p.1)
    ]

    pub upsert_row-IsKeyed :
        (db : Database X)
        → IsKeyed db.attributes
        → IsKeyed (upsert_row scope name v t e db).1.attributes
    unfolding upsert_row
    upsert_row-IsKeyed db p = elim (Bool-cases (in_range v)) [
      | inl inside ↦ rw inside (put_row-IsKeyed db.attributes p)
      | inr outside ↦ rw outside p
    ]

  abbrev stamped : X.DateTime → Bool → AttributeRow X → AttributeRow X
  stamped now b r = if b then record r { last_decay_at = some now } else r

  stamped_differs :
      (test : AttributeRow X → Bool) (now : X.DateTime) (b : Bool) (x : AttributeRow X)
      (rows : List (AttributeRow X))
      → All (DiffersIn x) rows
      → All (DiffersIn (stamped now b x)) (map (λ r. stamped now (test r) r) rows)
  stamped_differs test now b x [] p = tt
  stamped_differs test now b x (r ∷ rows) p =
      (either b (test r), stamped_differs test now b x rows p.1)
    where
      either : (b c : Bool) → DiffersIn (stamped now b x) (stamped now c r)
      either true true = p.0
      either true false = p.0
      either false true = p.0
      either false false = p.0

  pub stamped-IsKeyed :
      (test : AttributeRow X → Bool) (now : X.DateTime) (rows : List (AttributeRow X))
      → IsKeyed rows
      → IsKeyed (map (λ r. if test r then record r { last_decay_at = some now } else r) rows)
  stamped-IsKeyed test now [] p = tt
  stamped-IsKeyed test now (r ∷ rows) p =
      (stamped_differs test now (test r) r rows p.0, stamped-IsKeyed test now rows p.1)
