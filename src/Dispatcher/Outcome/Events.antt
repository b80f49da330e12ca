-- ===== src/Dispatcher/Outcome/Events.antt =====
-- The events of `dispatch_outcome`: which, in what order, with which values.
use satan_attrd.Prelude.{ℕ, ◌+◌, none, not, ◌≡◌, refl, List, [], ◌∷◌, All-map, map, length, arith}
use satan_attrd.Prelude.Int.{ℤ, pos, ◌≤ℤ◌}
use satan_attrd.F64.{F64}
use satan_attrd.Extern.{Extern}
use satan_attrd.Types.Attribute.{AttributeName}
use satan_attrd.Types.Outcome
use satan_attrd.Types.Outcome.{OutcomeReason}
use satan_attrd.Tuning.{attr_order}
use satan_attrd.Store.Counter
use satan_attrd.Store.Counter.{Counter}
use satan_attrd.Store.Event.{EventInsert}
use satan_attrd.Dispatcher.Weight.{weight_delta}
use satan_attrd.Dispatcher.Plan.{plan_for}
use satan_attrd.Dispatcher.Evidence.{HasPlan}
use satan_attrd.Dispatcher.Input.{OutcomeInput}
use satan_attrd.Dispatcher.Tables.{
  base_deltas, zip, nonzero_names, affected, value_at, zero_base, base_of, InColumn,
  outcome_columns,
}
use satan_attrd.Dispatcher.Evidence.{outcome_evidence}
use satan_attrd.Dispatcher.Emit.{kept}
use satan_attrd.Dispatcher.Emit.Laws.{Emitted, emit-Emitted}
use satan_attrd.Dispatcher.Outcome.{outcome_event, dispatch_outcome}

-- The names that the walk keeps are the affected names.
pub names-kept :
    (l : List (AttributeName × F64)) → map (λ x. x.0) (kept zero_base l) ≡ nonzero_names l
unfolding kept nonzero_names
names-kept [] = refl
names-kept ((name, d) ∷ l) = ground (arith, names-kept l)

-- The event carries the input's run, time and reason, is disabled exactly when updates are, and
-- has the plan of the weighted table entry of its name, from the value and the snapshot before.
pub record IsPlanned {X : Extern} (input : OutcomeInput X) (ev : EventInsert X) : Type 0 where
  pub run_id : ev.run_id ≡ input.run_id
  pub ts : ev.ts ≡ input.ts
  pub source : ev.source ≡ "outcome"
  pub reason : ev.reason ≡ Outcome.as_str input.classification
  pub disabled : ev.disabled ≡ not input.enabled
  pub evidence : ev.evidence_json ≡ outcome_evidence input none
  pub planned : HasPlan ev (
      plan_for ev.name
        (weight_delta (base_of (base_deltas input.classification) ev.name) input.confidence)
        (value_at input.projection ev.name)
        input.snapshot)

module _ {X : Extern} (input : OutcomeInput X) where
  outcome_event-IsPlanned :
      (x : AttributeName × F64)
      → InColumn (base_deltas input.classification) x
      → (s : ℤ) → IsPlanned input (outcome_event input x s)
  unfolding outcome_event plan_for
  outcome_event-IsPlanned (name, base) column s = record {
    run_id = refl;
    ts = refl;
    source = refl;
    reason = refl;
    disabled = refl;
    evidence = refl;
    planned = rw (← column) (record { old_value = refl; new_value = refl; caps_applied = refl });
  }

  -- With room in the counter for one number each, the dispatch of an outcome does not panic. It
  -- returns exactly one event for each affected attribute, in table order, numbered from the next
  -- number on, each planned from the values and the snapshot before the dispatch; the counter
  -- ends at the last number.
  pub dispatch_outcome-Emitted :
      (n : ℕ)
      → pos (n + length (affected input.classification)) ≤ℤ Counter.i32_max
      → Emitted
          (λ e. e.name)
          (λ e. e.seq)
          (IsPlanned input)
          n
          (affected input.classification)
          (dispatch_outcome input (record { inner = pos n }))
  unfolding dispatch_outcome affected outcome_event
  dispatch_outcome-Emitted n room =
      let row = zip attr_order (base_deltas input.classification) in
      rw (← names-kept row) (
        emit-Emitted zero_base (outcome_event input) (λ e. e.name) (λ e. e.seq) (λ x. x.0)
          (IsPlanned input) n row (λ x s. refl) (λ x s. refl)
          (All-map (InColumn (base_deltas input.classification))
            (λ x. (s : ℤ) → IsPlanned input (outcome_event input x s)) outcome_event-IsPlanned row
            (outcome_columns input.classification))
          (rw names-kept room))
