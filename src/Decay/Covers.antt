-- ===== src/Decay/Covers.antt =====
-- Each attribute that decays has a row among those that `check_due` gives, or no row that is due.
use satan_attrd.Prelude.{
  String, Bool, true, false, Option, some, ◌≡◌, ◌∙◌, ◌⊎◌, ap, inl, inr, List, [], ◌∷◌, All, refl,
  eq_iff, if◌then◌else◌, Bool-cases, arith,
}
use satan_attrd.Error.{Result, ok, err}
use satan_attrd.Extern.{Extern}
use satan_attrd.Types.Attribute
use satan_attrd.Types.Attribute.{AttributeName, shame, doubt, brooding, metamorphosis}
use satan_attrd.Store.Database.{AttributeRow, Database}
use satan_attrd.Store.Operations.{is_key, select}
use satan_attrd.Decay.{DueRow, due_now, days_since, due_rows, decay_targets, targets}
use satan_attrd.Decay.Stamps.{HasStamps}
use satan_attrd.Decay.Rows.{IsAmong}

-- A stamp is the time of the tick, or it was not due at the time of the check.
abbrev pub IsSettled : (X : Extern) → X.DateTime → X.DateTime → Option X.DateTime → Type 0
IsSettled X checked_at now stamp = (stamp ≡ some now) ⊎ (due_now X checked_at stamp ≡ false)

module _ {X : Extern} where
  -- A row that is due is among those that `check_due` gives.
  IsAmong-more :
      (n : String) (checked_at : X.DateTime) (r : AttributeRow X) (rows : List (AttributeRow X))
      → IsAmong n (due_rows checked_at rows)
      → IsAmong n (due_rows checked_at (r ∷ rows))
  unfolding due_rows
  IsAmong-more n checked_at r rows h =
      more (Attribute.from_str r.name) (due_now X checked_at r.last_decay_at)
    where
      more :
          (found : Result AttributeName) (due : Bool)
          → IsAmong n (elim found [
            | err e ↦ due_rows checked_at rows
            | ok name ↦
                if due
                then record {
                  name = name;
                  value = r.value;
                  last_decay_at = r.last_decay_at;
                  days_since_last = days_since X checked_at r.last_decay_at;
                }
                  ∷ due_rows checked_at rows
                else due_rows checked_at rows
          ])
      more (err e) due = h
      more (ok name) true = inr h
      more (ok name) false = h

  covers_row :
      (name : AttributeName) (checked_at now : X.DateTime) (r : AttributeRow X)
      (rows : List (AttributeRow X))
      → r.name ≡ Attribute.as_str name
      → IsAmong (Attribute.as_str name) (due_rows checked_at (r ∷ rows))
        ⊎ IsSettled X checked_at now r.last_decay_at
  unfolding due_rows
  covers_row name checked_at now r rows same =
      found (Attribute.from_str r.name) (due_now X checked_at r.last_decay_at)
        (ap Attribute.from_str same ∙ Attribute.from_str-as_str name) refl
    where
      found :
          (result : Result AttributeName) (due : Bool)
          → result ≡ ok name
          → due_now X checked_at r.last_decay_at ≡ due
          → IsAmong (Attribute.as_str name) (elim result [
            | err e ↦ due_rows checked_at rows
            | ok m ↦
                if due
                then record {
                  name = m;
                  value = r.value;
                  last_decay_at = r.last_decay_at;
                  days_since_last = days_since X checked_at r.last_decay_at;
                }
                  ∷ due_rows checked_at rows
                else due_rows checked_at rows
          ])
            ⊎ IsSettled X checked_at now r.last_decay_at
      found (err e) due h k = absurd (ground arith)
      found (ok m) true h k = inl (inl (ap Attribute.as_str (cc)))
      found (ok m) false h k = inr (inr k)

  -- A row of an attribute that decays is due, or its stamp is settled.
  covers :
      (name : AttributeName) (checked_at now : X.DateTime) (test : AttributeRow X → Bool)
      → ((r : AttributeRow X) → is_key "global" (Attribute.as_str name) r ≡ true → test r ≡ true)
      → (rows : List (AttributeRow X))
      → IsAmong (Attribute.as_str name) (due_rows checked_at (select test rows))
        ⊎ HasStamps (IsSettled X checked_at now) "global" (Attribute.as_str name) rows
  unfolding select is_key
  covers name checked_at now test covered [] = inr tt
  covers name checked_at now test covered (r ∷ rows) =
      at_row (test r) refl (covers name checked_at now test covered rows)
    where
      n : String
      n = Attribute.as_str name

      key_name : is_key "global" n r ≡ true → r.name ≡ n
      key_name key = ground (arith, eq_iff r.name n)

      Rest : List (AttributeRow X) → Type 0
      Rest rows = HasStamps (IsSettled X checked_at now) "global" n rows

      at_row :
          (b : Bool)
          → test r ≡ b
          → IsAmong n (due_rows checked_at (select test rows)) ⊎ Rest rows
          → IsAmong n (due_rows checked_at (if b then r ∷ select test rows else select test rows))
            ⊎ Rest (r ∷ rows)
      at_row true e (inl among) = inl (IsAmong-more n checked_at r (select test rows) among)
      at_row true e (inr h) = elim (Bool-cases (is_key "global" n r)) [
        | inl key ↦ elim (covers_row name checked_at now r (select test rows) (key_name key)) [
          | inl among ↦ inl among
          | inr settled ↦ inr ((λ k. settled), h)
        ]
        | inr other ↦ inr ((λ k. absurd (ground arith)), h)
      ]
      at_row false e (inl among) = inl among
      at_row false e (inr h) = inr ((λ k. absurd (ground (arith, covered r k))), h)

  -- Each of the attributes that decay.
  abbrev pub Covered :
      X.DateTime → X.DateTime → List (DueRow X) → Database X → AttributeName → Type 0
  Covered checked_at now due db name =
      IsAmong (Attribute.as_str name) due
      ⊎ HasStamps (IsSettled X checked_at now) "global" (Attribute.as_str name) db.attributes

  abbrev pub AllCovered : X.DateTime → X.DateTime → List (DueRow X) → Database X → Type 0
  AllCovered checked_at now due db = All (Covered checked_at now due db) decay_targets

  pub targets-AllCovered :
      (checked_at now : X.DateTime) (db : Database X)
      → AllCovered checked_at now (due_rows checked_at (targets "global" db)) db
  unfolding is_key Attribute.as_str
  targets-AllCovered checked_at now db = (
    covers shame checked_at now _ (λ r k. ground arith) db.attributes,
    (
      covers doubt checked_at now _ (λ r k. ground arith) db.attributes,
      (
        covers brooding checked_at now _ (λ r k. ground arith) db.attributes,
        (covers metamorphosis checked_at now _ (λ r k. ground arith) db.attributes, tt),
      ),
    ),
  )
