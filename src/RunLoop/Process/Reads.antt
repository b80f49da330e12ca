-- ===== src/RunLoop/Process/Reads.antt =====
-- The steps before the events are stored only read the tables.
use satan_attrd.Prelude.{
  String, Bool, true, false, none, some, Option, List, [], ◌∷◌, refl, if◌then◌else◌,
}
use satan_attrd.Extern.{Extern}
use satan_attrd.Types.Attribute.{AttributeName}
use satan_attrd.Steps.{Step}
use satan_attrd.Steps.Keeps.{Keeps, bind-Keeps}
use satan_attrd.Store.Database.{Database, statement}
use satan_attrd.Store.Database.Preserves.{Preserves, bind-Preserves, statement-Preserves}
use satan_attrd.Store.Operations.{lookup_prior_events_by_intervention}
use satan_attrd.Store.Event.{EventInsert}
use satan_attrd.Dispatcher.Plan.{Snapshot}
use satan_attrd.Dispatcher.Input.{Projection}
use satan_attrd.Dispatcher.Prior.{insert, actual, gather_into, gather_prior_actuals}
use satan_attrd.RunLoop.Payload.{OutcomePayload, InboxPayload}
use satan_attrd.RunLoop.Union.{union_affected}
use satan_attrd.RunLoop.Loop.{RunLoop, store}
use satan_attrd.RunLoop.Read.{read_projection, derive_prior_classification}
use satan_attrd.RunLoop.Process.{revise, revise_known, build_revision_events, build_events}
use satan_attrd.RunLoop.Process.Views.{seen, store-Keeps, with_counter-Keeps}

module _ {X : Extern} {V : Type 0} (view : Database X → V) where
  pub read_projection-Preserves : Preserves view read_projection
  unfolding read_projection
  read_projection-Preserves =
      bind-Preserves view (statement _) _ (statement-Preserves view _ (λ db. refl)) (λ rows w. refl)

  derive_prior_classification-Preserves :
      (id : String) → Preserves view (derive_prior_classification id)
  unfolding derive_prior_classification
  derive_prior_classification-Preserves id =
      bind-Preserves view (statement _) _ (statement-Preserves view _ (λ db. refl)) (λ row w. refl)

  lookup_prior-Preserves :
      (id : String) (name : AttributeName)
      → Preserves view (lookup_prior_events_by_intervention id name)
  unfolding lookup_prior_events_by_intervention
  lookup_prior-Preserves id name = statement-Preserves view _ (λ db. refl)

  gather_into-Preserves :
      (id : String) (names : List AttributeName) (out : Projection)
      → Preserves view (gather_into id names out)
  unfolding gather_into
  gather_into-Preserves id [] out = λ w. refl
  gather_into-Preserves id (name ∷ names) out =
      bind-Preserves view (lookup_prior_events_by_intervention id name) _
        (lookup_prior-Preserves id name)
        λ rows. gather_into-Preserves id names (insert name (actual rows) out)

  gather-Preserves :
      (id : String) (names : List AttributeName) → Preserves view (gather_prior_actuals id names)
  unfolding gather_prior_actuals
  gather-Preserves id names = gather_into-Preserves id names _

  revise-Keeps :
      (p : OutcomePayload X) (revises : String) (snap : Snapshot) (proj : Projection)
      → Keeps (seen view) (revise p revises snap proj)
  unfolding revise
  revise-Keeps p revises snap proj =
      bind-Keeps (seen view) (store (derive_prior_classification p.intervention_id)) _
        (store-Keeps view _ (derive_prior_classification-Preserves p.intervention_id))
        λ prior.
          bind-Keeps (seen view)
            (store (gather_prior_actuals p.intervention_id (union_affected prior p.classification)))
            _
            (store-Keeps view _
              (gather-Preserves p.intervention_id (union_affected prior p.classification)))
            λ actuals. with_counter-Keeps view p.run_id _

  revision-Keeps :
      (p : OutcomePayload X) (o : Option String) (snap : Snapshot) (proj : Projection)
      → Keeps (seen view) (revise_known p o snap proj)
  revision-Keeps p none snap proj = λ s. refl
  revision-Keeps p (some revises) snap proj = revise-Keeps p revises snap proj

  outcome-Keeps :
      (b : Bool) (m n : Step (RunLoop X) (List (EventInsert X)))
      → Keeps (seen view) m
      → Keeps (seen view) n
      → Keeps (seen view) (if b then m else n)
  outcome-Keeps true m n h k = h
  outcome-Keeps false m n h k = k

  pub build_events-Keeps :
      (p : InboxPayload X) (snap : Snapshot) (proj : Projection)
      → Keeps (seen view) (build_events p snap proj)
  unfolding build_events build_revision_events
  build_events-Keeps (InboxPayload.outcome p) snap proj =
      outcome-Keeps p.is_revision _ _ (revision-Keeps p p.revises snap proj)
        (with_counter-Keeps view p.run_id _)
  build_events-Keeps (InboxPayload.hippocampus p) snap proj = with_counter-Keeps view p.run_id _
  build_events-Keeps (InboxPayload.sensor p) snap proj = with_counter-Keeps view p.run_id _
