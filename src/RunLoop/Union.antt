-- ===== src/RunLoop/Union.antt =====
-- src/run_loop.rs: the attributes that a revision touches.
use satan_attrd.Prelude.{not, ◌||◌, List, [], ◌∷◌, if◌then◌else◌}
use satan_attrd.F64.{F64, eq, nought}
use satan_attrd.Types.Attribute.{AttributeName}
use satan_attrd.Types.Outcome.{OutcomeReason}
use satan_attrd.Tuning.{attr_order}
use satan_attrd.Dispatcher.Tables.{base_deltas, zip}

-- The loop of `union_affected`.
unfoldable pub either_nonzero : List (AttributeName × (F64 × F64)) → List AttributeName
either_nonzero [] = []
either_nonzero ((name, (da, db)) ∷ l) =
    let rest = either_nonzero l in
    if not (eq da nought) || not (eq db nought) then name ∷ rest else rest

unfoldable pub union_affected : OutcomeReason → OutcomeReason → List AttributeName
unfolding either_nonzero
union_affected a b = either_nonzero (zip attr_order (zip (base_deltas a) (base_deltas b)))
