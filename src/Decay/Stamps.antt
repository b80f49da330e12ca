-- ===== src/Decay/Stamps.antt =====
-- The decay stamps of the rows of one attribute, through an upsert and a bump.
use satan_attrd.Prelude.{
  String, Bool, true, false, Option, some, ap, ◌≡◌, ◌≢◌, ◌⊎◌, inl, inr, List, [], ◌∷◌, All, map,
  Bool-cases, str_eq, eq_iff, if◌then◌else◌, arith,
}
use satan_attrd.F64.{F64}
use satan_attrd.Extern.{Extern}
use satan_attrd.Store.Database.{AttributeRow}
use satan_attrd.Store.Operations.{is_key, put_row}

module _ {X : Extern} (P : Option X.DateTime → Type 0) where
  -- The stamp of every row of the key has the property.
  abbrev pub HasStamps : String → String → List (AttributeRow X) → Type 0
  HasStamps scope n rows = All (λ r. is_key scope n r ≡ true → P r.last_decay_at) rows

  -- So it has, or the key is the one that is about to be stamped.
  abbrev pub IsPending : String → String → String → List (AttributeRow X) → Type 0
  IsPending scope name n rows = (n ≡ name) ⊎ HasStamps scope n rows

  put_row-HasStamps :
      (scope n name : String) (v : F64) (t : X.DateTime) (e : X.Value)
      → n ≢ name
      → (rows : List (AttributeRow X)) → HasStamps scope n rows
      → HasStamps scope n (put_row scope name v t e rows)
  unfolding put_row is_key
  put_row-HasStamps scope n name v t e other [] h = (λ key. ground (arith, eq_iff name n), tt)
  put_row-HasStamps scope n name v t e other (r ∷ rows) h =
      either (is_key scope name r) (put_row scope name v t e rows)
        (put_row-HasStamps scope n name v t e other rows h.1)
    where
      either :
          (b : Bool) (rest : List (AttributeRow X))
          → HasStamps scope n rest
          → HasStamps scope n (
              if b
              then record r { value = v; updated_at = t; evidence_json = e } ∷ rows
              else r ∷ rest)
      either true rest k = h
      either false rest k = (h.0, k)

  pub put_row-IsPending :
      (scope n name : String) (v : F64) (t : X.DateTime) (e : X.Value)
      (rows : List (AttributeRow X))
      → IsPending scope name n rows
      → IsPending scope name n (put_row scope name v t e rows)
  put_row-IsPending scope n name v t e rows (inl same) = inl same
  put_row-IsPending scope n name v t e rows (inr h) = elim (Bool-cases (str_eq n name)) [
    | inl same ↦ inl ((eq_iff n name).0 same)
    | inr other ↦
        inr (put_row-HasStamps scope n name v t e (λ same. ground (arith, eq_iff n name)) rows h)
  ]

  -- After a bump at a time that has the property every row of the key has it.
  pub stamped-HasStamps :
      (scope n name : String) (now : X.DateTime)
      → P (some now)
      → (rows : List (AttributeRow X)) → IsPending scope name n rows
      → HasStamps scope n
          (map (λ r. if is_key scope name r then record r { last_decay_at = some now } else r) rows)
  unfolding is_key
  stamped-HasStamps scope n name now p [] h = tt
  stamped-HasStamps scope n name now p (r ∷ rows) (inl same) = (
    stamped_key (is_key scope name r) (ap (λ m. is_key scope m r) same),
    stamped-HasStamps scope n name now p rows (inl same),
  )
    where
      stamped_key :
          (b : Bool)
          → is_key scope n r ≡ b
          → is_key scope n (if b then record r { last_decay_at = some now } else r) ≡ true
          → P (if b then record r { last_decay_at = some now } else r).last_decay_at
      stamped_key true e k = p
      stamped_key false e k = absurd (ground arith)
  stamped-HasStamps scope n name now p (r ∷ rows) (inr h) =
      (kept (is_key scope name r), stamped-HasStamps scope n name now p rows (inr h.1))
    where
      kept :
          (b : Bool)
          → is_key scope n (if b then record r { last_decay_at = some now } else r) ≡ true
          → P (if b then record r { last_decay_at = some now } else r).last_decay_at
      kept true k = p
      kept false k = h.0 k
