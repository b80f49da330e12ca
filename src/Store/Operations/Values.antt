-- ===== src/Store/Operations/Values.antt =====
-- The values of the table of attributes stay in [0, 1].
use satan_attrd.Prelude.{
  String, Bool, true, false, Option, ◌≡◌, List, [], ◌∷◌, All, map, inl, inr, Bool-cases,
  if◌then◌else◌,
}
use satan_attrd.F64.{F64}
use satan_attrd.Extern.{Extern}
use satan_attrd.Store.Event.{in_range}
use satan_attrd.Store.Database.{AttributeRow, Database}
use satan_attrd.Store.Operations.{is_key, put_row, upsert_row}

abbrev pub IsInRange : {X : Extern} → AttributeRow X → Type 0
IsInRange r = in_range r.value ≡ true

-- Every value of the table is in [0, 1].
abbrev pub AllInRange : {X : Extern} → Database X → Type 0
AllInRange db = All IsInRange db.attributes

module _ {X : Extern} where
  put_row-in_range :
      (scope name : String) (v : F64) (t : X.DateTime) (e : X.Value) (rows : List (AttributeRow X))
      → in_range v ≡ true
      → All IsInRange rows
      → All IsInRange (put_row scope name v t e rows)
  unfolding put_row
  put_row-in_range scope name v t e [] h p = (h, tt)
  put_row-in_range scope name v t e (r ∷ rows) h p =
      split (is_key scope name r) _ _ (h, p.1) (p.0, put_row-in_range scope name v t e rows h p.1)
    where
      split :
          (b : Bool) (l m : List (AttributeRow X))
          → All IsInRange l
          → All IsInRange m
          → All IsInRange (if b then l else m)
      split true l m hl hm = hl
      split false l m hl hm = hm

  pub upsert_row-AllInRange :
      (scope name : String) (v : F64) (t : X.DateTime) (e : X.Value) (db : Database X)
      → AllInRange db
      → AllInRange (upsert_row scope name v t e db).1
  unfolding upsert_row
  upsert_row-AllInRange scope name v t e db p = elim (Bool-cases (in_range v)) [
    | inl inside ↦ rw inside (put_row-in_range scope name v t e db.attributes inside p)
    | inr outside ↦ rw outside p
  ]

  pub stamped-IsInRange :
      (test : AttributeRow X → Bool) (now : X.DateTime) (rows : List (AttributeRow X))
      → All IsInRange rows
      → All IsInRange
          (map (λ r. if test r then record r { last_decay_at = Option.some now } else r) rows)
  stamped-IsInRange test now [] p = tt
  stamped-IsInRange test now (r ∷ rows) p =
      (stamped (test r) r p.0, stamped-IsInRange test now rows p.1)
    where
      stamped :
          (b : Bool) (r : AttributeRow X)
          → IsInRange r
          → IsInRange (if b then record r { last_decay_at = Option.some now } else r)
      stamped true r h = h
      stamped false r h = h
