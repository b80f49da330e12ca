-- ===== src/Dispatcher/Prior.antt =====
-- src/dispatcher.rs: the sums of the logged deltas of an intervention.
use satan_attrd.Prelude.{String, not, none, some, List, [], ◌∷◌, str_eq, if◌then◌else◌}
use satan_attrd.F64.{F64, add, nought}
use satan_attrd.Extern.{Extern}
use satan_attrd.Types.Attribute
use satan_attrd.Types.Attribute.{AttributeName}
use satan_attrd.Store.Database.{EventRow, Db, pure, ◌>>=◌}
use satan_attrd.Store.Operations.{select, lookup_prior_events_by_intervention}
use satan_attrd.Dispatcher.Input.{Projection}

-- `HashMap::new`
abbrev pub empty_projection : Projection
empty_projection name = none

-- `HashMap::insert`
unfoldable pub insert : AttributeName → F64 → Projection → Projection
unfolding Attribute.as_str
insert name v proj n =
    if str_eq (Attribute.as_str name) (Attribute.as_str n) then some v else proj n

-- `iter().sum()`
unfoldable pub sum_from : F64 → List F64 → F64
sum_from acc [] = acc
sum_from acc (d ∷ ds) = sum_from (add acc d) ds

abbrev deltas : {X : Extern} → List (EventRow X) → List F64
deltas [] = []
deltas (r ∷ rows) = r.delta ∷ deltas rows

-- `rows.iter().filter(…).map(…).sum()`
unfoldable pub actual : {X : Extern} → List (EventRow X) → F64
actual rows = sum_from nought (deltas (select (λ r. not r.disabled) rows))

module _ {X : Extern} where
  -- The loop over the names, with the map so far.
  unfoldable pub gather_into : String → List AttributeName → Projection → Db X Projection
  gather_into intervention_id [] out = pure out
  gather_into intervention_id (name ∷ names) out = do
    rows ← lookup_prior_events_by_intervention intervention_id name
    gather_into intervention_id names (insert name (actual rows) out)

  unfoldable pub gather_prior_actuals : String → List AttributeName → Db X Projection
  gather_prior_actuals intervention_id names = gather_into intervention_id names empty_projection
