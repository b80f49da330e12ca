-- ===== src/Daemon/Run.antt =====
-- The two tasks of the daemon: `RunLoop::run` of src/run_loop.rs and `DecayScheduler::run` of
-- src/decay.rs. What wakes a task is an argument: the notifications of the listeners in the order in
-- which they come, and the times at which the interval fires.
use satan_attrd.Prelude.{String, List, [], ◌∷◌}
use satan_attrd.Error.{ok, sqlx, SqlxError}
use satan_attrd.Extern.{Extern}
use satan_attrd.Steps.{Ended, Step, done, failed, panicked, continue, return, fail, ◌>>◌}
use satan_attrd.Store.Database.{World, statement}
use satan_attrd.RunLoop.Loop.{RunLoop, store}
use satan_attrd.RunLoop.Drain.{
  drain_outcome_inbox, drain_audit_replies, handle_outcome_notify, handle_reply_notify,
}
use satan_attrd.Decay.Tick.{DecayScheduler, tick}
use satan_attrd.Daemon.Writes.{Writes, here}
use satan_attrd.Daemon.Runs.{Moved, Moved-refl, Moved-trans, statement-Runs}
use satan_attrd.Daemon.Performs.{Performs, continue-Performs, bind-Performs}
use satan_attrd.Daemon.Handlers as Handlers
use satan_attrd.Daemon.Handlers.{
  drain_outcome_inbox-Performs, drain_audit_replies-Performs, handle_outcome_notify-Performs,
  handle_reply_notify-Performs,
}
use satan_attrd.Daemon.Ticks as Ticks
use satan_attrd.Daemon.Ticks.{tick-Performs}

-- What a listener of the run loop gives.
pub data Notice : Type 0 where
  outcome reply : String → Notice
  lost : Notice

module _ {X : Extern} where
  -- One turn of the loop: a lost connection ends it.
  unfoldable pub on_notice : Notice → Step (RunLoop X) (Unit {0})
  on_notice (outcome payload) = handle_outcome_notify payload
  on_notice (reply payload) = handle_reply_notify payload
  on_notice lost = fail (sqlx SqlxError.other)

  -- The loop, up to the last notification; then it waits for the next.
  unfoldable pub listen : List Notice → Step (RunLoop X) (Unit {0})
  listen [] = return tt
  listen (n ∷ ns) = do on_notice n; listen ns

  -- The set-up of a listener: a connection, and LISTEN.
  abbrev set_up : Step (RunLoop X) (Unit {0})
  set_up = do store (statement λ db. (ok tt, db)); store (statement λ db. (ok tt, db))

  unfoldable pub run : List Notice → Step (RunLoop X) (Unit {0})
  run notices = do set_up; set_up; drain_outcome_inbox; drain_audit_replies; listen notices

  -- `if let Err(e) = self.tick().await`
  abbrev pub ticked :
      {A : Type 0} → Ended A × DecayScheduler X → Ended (Unit {0}) × DecayScheduler X
  ticked (done n, s) = (done tt, s)
  ticked (failed e, s) = (done tt, s)
  ticked (panicked, s) = (panicked, s)

  -- The driver loop of the scheduler. The clock is read twice in a tick.
  unfoldable pub drive :
      String → List (X.DateTime × X.DateTime) → Step (DecayScheduler X) (Unit {0})
  drive scope [] s = (done tt, s)
  drive scope ((checked_at, now) ∷ times) s =
      continue (λ _. drive scope times) (ticked (tick scope checked_at now s))

  on_notice-Performs : (n : Notice) → Performs (Handlers.world_of {X = X}) (on_notice n)
  unfolding on_notice
  on_notice-Performs (outcome payload) = handle_outcome_notify-Performs payload
  on_notice-Performs (reply payload) = handle_reply_notify-Performs payload
  on_notice-Performs lost = λ s. Moved-refl s.world

  listen-Performs : (ns : List Notice) → Performs (Handlers.world_of {X = X}) (listen ns)
  unfolding listen
  listen-Performs [] = λ s. Moved-refl s.world
  listen-Performs (n ∷ ns) =
      bind-Performs Handlers.world_of (on_notice n) _ (on_notice-Performs n) λ _. listen-Performs ns

  set_up-Performs : Performs (Handlers.world_of {X = X}) set_up
  set_up-Performs =
      bind-Performs Handlers.world_of (store (statement _)) _
        (Handlers.store-Performs _ (statement-Runs _ (λ db. here)))
        λ _. Handlers.store-Performs _ (statement-Runs _ (λ db. here))

  run-Performs : (ns : List Notice) → Performs (Handlers.world_of {X = X}) (run ns)
  unfolding run
  run-Performs ns = bind-Performs Handlers.world_of set_up _ set_up-Performs λ _.
      bind-Performs Handlers.world_of set_up _ set_up-Performs λ _.
        bind-Performs Handlers.world_of drain_outcome_inbox _ drain_outcome_inbox-Performs λ _.
          bind-Performs Handlers.world_of drain_audit_replies _ drain_audit_replies-Performs
            λ _. listen-Performs ns

  ticked-Moved :
      {A : Type 0} (before : World X) (r : Ended A × DecayScheduler X)
      → Moved before r.1.world
      → Moved before (Ticks.world_of (ticked r).1)
  ticked-Moved before (done n, s) h = h
  ticked-Moved before (failed e, s) h = h
  ticked-Moved before (panicked, s) h = h

  drive-Performs :
      (scope : String) (times : List (X.DateTime × X.DateTime))
      → Performs (Ticks.world_of {X = X}) (drive scope times)
  unfolding drive
  drive-Performs scope [] s = Moved-refl s.world
  drive-Performs scope ((checked_at, now) ∷ times) s =
      Moved-trans
        (ticked-Moved s.world (tick scope checked_at now s) (tick-Performs scope checked_at now s))
        (continue-Performs Ticks.world_of (λ _. drive scope times) (λ _. drive-Performs scope times)
          (ticked (tick scope checked_at now s)))

  -- Whatever wakes them and whichever statements fail, the run loop and the scheduler change the
  -- tables by a sequence of the writes in `Write`.
  pub tasks-Writes :
      (notices : List Notice) (loop : RunLoop X) (scope : String)
      (times : List (X.DateTime × X.DateTime)) (scheduler : DecayScheduler X)
      → Writes loop.world.db (run notices loop).1.world.db
        × Writes scheduler.world.db (drive scope times scheduler).1.world.db
  tasks-Writes notices loop scope times scheduler =
      ((run-Performs notices loop).0, (drive-Performs scope times scheduler).0)
