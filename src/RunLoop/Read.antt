-- ===== src/RunLoop/Read.antt =====
-- src/run_loop.rs: what the handler reads before a dispatch.
use satan_attrd.Prelude.{String, none, some, Option, List, [], ◌∷◌, str_eq, str_append, map}
use satan_attrd.F64.{F64, nought}
use satan_attrd.Error.{Result, ok, err, invalid_argument}
use satan_attrd.Extern.{Extern}
use satan_attrd.Types.Attribute
use satan_attrd.Types.Attribute.{AttributeName, doubt, shame}
use satan_attrd.Types.Outcome
use satan_attrd.Types.Outcome.{OutcomeReason}
use satan_attrd.Store.Database.{EventRow, Db, lift, ◌>>=◌, statement}
use satan_attrd.Store.Operations.{select, order_by, replay_le, is_of}
use satan_attrd.Dispatcher.Plan.{Snapshot}
use satan_attrd.Dispatcher.Input.{Projection}
use satan_attrd.Dispatcher.Prior.{insert, empty_projection}

-- The two `if`s on the parsed name.
unfoldable pub set_inhibitor : AttributeName → F64 → Snapshot → Snapshot
set_inhibitor doubt v snap = record snap { doubt = v }
set_inhibitor shame v snap = record snap { shame = v }
set_inhibitor _ v snap = snap

-- The loop over the rows.
unfoldable pub collect :
    List (String × F64) → Snapshot × Projection → Result (Snapshot × Projection)
collect [] acc = ok acc
collect ((name, v) ∷ rows) (snap, proj) = elim (Attribute.from_str name) [
  | err e ↦ err e
  | ok parsed ↦ collect rows (set_inhibitor parsed v snap, insert parsed v proj)
]

-- The last row of a result, if there is one.
abbrev pub last : {A : Type 0} → List A → Option A
last [] = none
last (x ∷ xs) = elim (last xs) [ none ↦ some x | some y ↦ some y ]

-- The reason of the row, parsed; without a row there is nothing to revise.
unfoldable pub prior_of : {X : Extern} → String → Option (EventRow X) → Result OutcomeReason
prior_of intervention_id none = err (
    invalid_argument
      (str_append "revision but no prior attribute events for intervention " intervention_id))
prior_of intervention_id (some r) = Outcome.from_str r.reason

module _ {X : Extern} where
  unfoldable pub read_projection : Db X (Snapshot × Projection)
  read_projection = do
    rows ← statement λ db. (
      ok (map (λ r. (r.name, r.value)) (select (λ r. str_eq r.scope "global") db.attributes)),
      db,
    )
    lift (collect rows (record { doubt = nought; shame = nought }, empty_projection))

  -- `ORDER BY ts DESC, run_id DESC, seq DESC LIMIT 1`: the last in replay order.
  unfoldable pub derive_prior_classification : String → Db X OutcomeReason
  derive_prior_classification intervention_id = do
    row ←
        statement
          λ db. (ok (last (order_by replay_le (select (is_of intervention_id) db.events))), db)
    lift (prior_of intervention_id row)
