-- ===== src/Tests/Daemon.antt =====
-- The tasks of the daemon at concrete inputs.
use satan_attrd.Prelude.{Bool, ◌++◌, [], ◌∷◌, ◌≡◌, refl, true}
use satan_attrd.Prelude.Int.{pos}
use satan_attrd.F64.{one}
use satan_attrd.Steps.{done}
use satan_attrd.Store.Database.{EventRow, Database}
use satan_attrd.Store.Database.Calm.{calm}
use satan_attrd.Store.Operations.{insert_row}
use satan_attrd.Store.Operations.Log.{Extends}
use satan_attrd.RunLoop.Loop
use satan_attrd.RunLoop.Process.{process_outcome_row}
use satan_attrd.RunLoop.Drain.{drain_outcome_inbox}
use satan_attrd.Daemon.Writes.{here, inserts}
use satan_attrd.Daemon.Moves.{Moves, writes, submits, start, next}
use satan_attrd.Daemon.Sound.{IsSound, Moves-IsSound}
use satan_attrd.Daemon.Claims.{process_once}
use satan_attrd.Daemon.Drains.{Drained, drain_outcome_inbox-Drained}
use satan_attrd.Tests.Fixtures.{json}
use satan_attrd.Tests.Tables.{tables, logged, quiet, tables-AllInRange}

-- Tables with one event in the log.
abbrev young : Database json
young = record tables { events = logged (pos 1) one true ∷ [] }

young-IsSound : IsSound young
young-IsSound = record { values = tables-AllInRange; keys = (tt, tt); log = (tt, tt); serial = tt }

-- An event with the same id, which is refused, while the broker submits a payload.
abbrev again : EventRow json
again = logged (pos 1) one true

abbrev turn :
    Moves young
      (insert_row again (record young {
        outcome_inbox =
            young.outcome_inbox
            ++ record { id = pos 2; payload_json = quiet; claimed = Bool.false } ∷ [];
      })).1
turn = next (next start (submits (pos 2) quiet)) (writes (inserts again))

Moves-IsSound_example :
    IsSound
      (insert_row again (record young {
        outcome_inbox =
            young.outcome_inbox
            ++ record { id = pos 2; payload_json = quiet; claimed = Bool.false } ∷ [];
      })).1
    × Extends young.events
        (insert_row again (record young {
          outcome_inbox =
              young.outcome_inbox
              ++ record { id = pos 2; payload_json = quiet; claimed = Bool.false } ∷ [];
        })).1.events
Moves-IsSound_example = Moves-IsSound young-IsSound turn

process_once_example :
    process_outcome_row
      (pos 1)
      (Loop.new (calm (process_outcome_row (pos 1) (Loop.new (calm tables))).1.world.db))
    ≡ (done tt, Loop.new (calm (process_outcome_row (pos 1) (Loop.new (calm tables))).1.world.db))
process_once_example =
    process_once (pos 1) (Loop.new (calm tables))
      (Loop.new (calm (process_outcome_row (pos 1) (Loop.new (calm tables))).1.world.db)) refl here
      refl

drain_outcome_inbox-Drained_example : Drained (drain_outcome_inbox (Loop.new (calm tables)))
drain_outcome_inbox-Drained_example = drain_outcome_inbox-Drained (Loop.new (calm tables)) refl
