-- ===== src/Dispatcher/Outcome/Revision.antt =====
-- The events of `dispatch_revision`.
use satan_attrd.Prelude.{
  ℕ, ◌+◌, some, not, ◌≡◌, refl, List, [], ◌∷◌, All, All-map, map, length, arith,
}
use satan_attrd.Prelude.Int.{ℤ, pos, ◌≤ℤ◌}
use satan_attrd.F64.{F64, sub}
use satan_attrd.Extern.{Extern}
use satan_attrd.Types.Attribute.{AttributeName}
use satan_attrd.Types.Outcome
use satan_attrd.Types.Outcome.{OutcomeReason}
use satan_attrd.Tuning.{attr_order}
use satan_attrd.Store.Counter
use satan_attrd.Store.Counter.{Counter}
use satan_attrd.Store.Event.{EventInsert}
use satan_attrd.Dispatcher.Weight.{weight_delta}
use satan_attrd.Dispatcher.Plan.{plan_for}
use satan_attrd.Dispatcher.Evidence.{HasPlan}
use satan_attrd.Dispatcher.Input.{RevisionInput}
use satan_attrd.Dispatcher.Tables.{
  base_deltas, zip, value_at, zero_bases, base_of, InColumn, outcome_columns,
}
use satan_attrd.Dispatcher.Evidence.{outcome_evidence}
use satan_attrd.Dispatcher.Emit.{kept}
use satan_attrd.Dispatcher.Emit.Laws.{Emitted, emit-Emitted}
use satan_attrd.Dispatcher.Outcome.{revision_event, dispatch_revision}
use satan_attrd.RunLoop.Union.{union_affected, either_nonzero}

-- The names that the walk keeps are the union of those that either classification affects.
names-kept_either :
    (l m : List F64) (names : List AttributeName)
    → map (λ x. x.0) (kept zero_bases (zip names (zip l m))) ≡ either_nonzero (zip names (zip m l))
unfolding kept either_nonzero
names-kept_either l m [] = refl
names-kept_either [] [] (n ∷ names) = refl
names-kept_either [] (b ∷ m) (n ∷ names) = refl
names-kept_either (a ∷ l) [] (n ∷ names) = refl
names-kept_either (a ∷ l) (b ∷ m) (n ∷ names) = ground (arith, names-kept_either l m names)

-- The delta of a revision: what the new classification asks for, less what the log says was done.
abbrev pub revision_delta : {X : Extern} → RevisionInput X → AttributeName → F64
revision_delta input name =
    sub (weight_delta (base_of (base_deltas input.base.classification) name) input.base.confidence)
      (value_at input.prior_actuals name)

-- The event carries the revised input, points to what it revises and to the prior sum, and has
-- the plan of the revision delta of its name, from the value and the snapshot before.
pub record IsRevised {X : Extern} (input : RevisionInput X) (ev : EventInsert X) : Type 0 where
  pub run_id : ev.run_id ≡ input.base.run_id
  pub ts : ev.ts ≡ input.base.ts
  pub source : ev.source ≡ "outcome"
  pub reason : ev.reason ≡ Outcome.as_str input.base.classification
  pub disabled : ev.disabled ≡ not input.base.enabled
  pub evidence :
      ev.evidence_json
      ≡ outcome_evidence input.base (
          some (record {
            revises = input.revises;
            prior_actual = value_at input.prior_actuals ev.name;
          }))
  pub planned : HasPlan ev (
      plan_for ev.name
        (revision_delta input ev.name)
        (value_at input.base.projection ev.name)
        input.base.snapshot)

abbrev InFirstColumn : List F64 → AttributeName × (F64 × F64) → Type 0
InFirstColumn row (name, (a, b)) = a ≡ base_of row name

-- Beside a second row that is no shorter the bases are still those of the first row's columns.
zip_columns :
    (row l m : List F64) (names : List AttributeName)
    → All (InColumn row) (zip names l)
    → All (InFirstColumn row) (zip names (zip l m))
zip_columns row l m [] h = tt
zip_columns row [] m (n ∷ names) h = tt
zip_columns row (a ∷ l) [] (n ∷ names) h = tt
zip_columns row (a ∷ l) (b ∷ m) (n ∷ names) h = (h.0, zip_columns row l m names h.1)

module _ {X : Extern} (input : RevisionInput X) where
  revision_event-IsRevised :
      (x : AttributeName × (F64 × F64))
      → InFirstColumn (base_deltas input.base.classification) x
      → (s : ℤ) → IsRevised input (revision_event input x s)
  unfolding revision_event plan_for
  revision_event-IsRevised (name, (a, b)) column s = record {
    run_id = refl;
    ts = refl;
    source = refl;
    reason = refl;
    disabled = refl;
    evidence = refl;
    planned = rw (← column) (record { old_value = refl; new_value = refl; caps_applied = refl });
  }

  -- With room in the counter, a revision does not panic. It returns exactly one event for each
  -- attribute that the prior or the new classification affects, in table order and numbered from
  -- the next number on, also where the delta is zero; each takes back what the log says the prior
  -- events did, not what the table says they should have done.
  pub dispatch_revision-Emitted :
      (n : ℕ)
      → pos (n + length (union_affected input.prior_classification input.base.classification))
        ≤ℤ Counter.i32_max
      → Emitted
          (λ e. e.name)
          (λ e. e.seq)
          (IsRevised input)
          n
          (union_affected input.prior_classification input.base.classification)
          (dispatch_revision input (record { inner = pos n }))
  unfolding dispatch_revision union_affected revision_event
  dispatch_revision-Emitted n room =
      let new = base_deltas input.base.classification in
      let prior = base_deltas input.prior_classification in
      let row = zip attr_order (zip new prior) in
      let same : map (λ x. x.0) (kept zero_bases row)
          ≡ either_nonzero (zip attr_order (zip prior new)) =
        names-kept_either new prior attr_order in
      rw (← same) (
        emit-Emitted zero_bases (revision_event input) (λ e. e.name) (λ e. e.seq) (λ x. x.0)
          (IsRevised input) n row (λ x s. refl) (λ x s. refl)
          (All-map (InFirstColumn new) (λ x. (s : ℤ) → IsRevised input (revision_event input x s))
            revision_event-IsRevised row
            (zip_columns new new prior attr_order (outcome_columns input.base.classification)))
          (rw same room))
