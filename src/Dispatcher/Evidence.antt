-- ===== src/Dispatcher/Evidence.antt =====
-- src/dispatcher.rs: the evidence of an outcome event, and the event of a plan.
use satan_attrd.Prelude.{◌≡◌, String, not, Option, none, some, List, [], ◌∷◌, map}
use satan_attrd.Prelude.Int.{ℤ}
use satan_attrd.F64.{F64}
use satan_attrd.Extern.{Extern}
use satan_attrd.Types.Attribute.{AttributeName}
use satan_attrd.Types.Scopes.{global}
use satan_attrd.Types.Sources
use satan_attrd.Types.Outcome
use satan_attrd.Types.Outcome.{OutcomeReason}
use satan_attrd.Store.Event.{EventInsert}
use satan_attrd.Dispatcher.Weight
use satan_attrd.Dispatcher.Weight.{weight_delta}
use satan_attrd.Dispatcher.Plan.{AttributePlan}
use satan_attrd.Dispatcher.Input.{OutcomeInput}

pub record RevisionEvidence : Type 0 where
  pub revises : String
  pub prior_actual : F64

abbrev optional_text : (X : Extern) → Option String → X.Value
optional_text X none = X.null
optional_text X (some s) = X.text s

abbrev texts : (X : Extern) → List String → X.Value
texts X l = X.array (map X.text l)

module _ {X : Extern} where
  -- The fields that every outcome event carries.
  outcome_fields : OutcomeInput X → X.Value
  unfolding Outcome.as_str Weight.as_str
  outcome_fields input = X.object (
      ("intervention_id", X.text input.intervention_id)
      ∷ ("classification", X.text (Outcome.as_str input.classification))
      ∷ ("confidence", X.text (Weight.as_str input.confidence))
      ∷ ("intervention_kind", optional_text X input.cue.intervention_kind)
      ∷ ("related_motive_id", optional_text X input.cue.related_motive_id)
      ∷ ("cue_handles", texts X input.cue.cue_handles)
      ∷ ("related_trace_ids", texts X input.cue.related_trace_ids)
      ∷ [])

  unfoldable pub outcome_evidence : OutcomeInput X → Option RevisionEvidence → X.Value
  unfolding outcome_fields
  outcome_evidence input none = outcome_fields input
  outcome_evidence input (some rev) =
      X.set_field "prior_actual" (X.number rev.prior_actual)
        (X.set_field "revises" (X.text rev.revises) (outcome_fields input))

  unfoldable pub event_insert_from_plan :
      OutcomeInput X → AttributeName → AttributePlan → OutcomeReason → X.Value → ℤ → EventInsert X
  unfolding Sources.as_str Outcome.as_str
  event_insert_from_plan input name plan reason evidence seq = record {
    run_id = input.run_id;
    seq = seq;
    ts = input.ts;
    scope = global;
    name = name;
    old_value = plan.old_value;
    new_value = plan.new_value;
    source = Sources.as_str Sources.outcome;
    reason = Outcome.as_str reason;
    evidence_json = evidence;
    caps_applied = plan.caps_applied;
    disabled = not input.enabled;
  }

-- The values and the caps of an event are those of a plan.
pub record HasPlan {X : Extern} (ev : EventInsert X) (plan : AttributePlan) : Type 0 where
  pub old_value : ev.old_value ≡ plan.old_value
  pub new_value : ev.new_value ≡ plan.new_value
  pub caps_applied : ev.caps_applied ≡ plan.caps_applied
