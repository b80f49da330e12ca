-- ===== src/Daemon/Handlers.antt =====
-- The handlers of the run loop as sequences of writes: src/run_loop.rs.
use satan_attrd.Prelude.{
  String, Bool, true, false, Option, none, some, List, [], ◌∷◌, if◌then◌else◌,
}
use satan_attrd.Prelude.Int.{ℤ}
use satan_attrd.Extern.{Extern}
use satan_attrd.Steps.{Step, Ended, done, failed, panicked}
use satan_attrd.Store.Counter.{Counter}
use satan_attrd.Store.Database.{World, Db, statement}
use satan_attrd.Rpc.{Checked, accepted, refused, check_schema_major}
use satan_attrd.Rpc.Numbers.{parse_i32}
use satan_attrd.Dispatcher.Emit.{Panics}
use satan_attrd.Dispatcher.Plan.{Snapshot}
use satan_attrd.Dispatcher.Input.{Projection}
use satan_attrd.Dispatcher.Prior.{gather_prior_actuals}
use satan_attrd.RunLoop.Lru.{get_or_create}
use satan_attrd.RunLoop.Union.{union_affected}
use satan_attrd.RunLoop.Payload.{Parsed, accept, reject, OutcomePayload, InboxPayload}
use satan_attrd.RunLoop.Parse.{parse_inbox_payload}
use satan_attrd.RunLoop.Read.{read_projection, derive_prior_classification}
use satan_attrd.RunLoop.Write.{store_events}
use satan_attrd.RunLoop.Loop.{RunLoop, store, counted, with_counter}
use satan_attrd.RunLoop.Process.{
  claim, delete_outcome_row, revise, revise_known, build_revision_events, build_events, apply,
  handle_checked, handle, handle_claimed, process_outcome_row,
}
use satan_attrd.RunLoop.Drain.{
  logged, each, drain_outcome_inbox, process_reply_row, drain_audit_replies, notified,
  handle_outcome_notify, handle_reply_notify,
}
use satan_attrd.Daemon.Writes.{here, later, claims}
use satan_attrd.Daemon.Runs.{Moved, Moved-refl, Moved-trans, Runs, bind-Runs, statement-Runs}
use satan_attrd.Daemon.Performs.{Performs, continue-Performs, bind-Performs}
use satan_attrd.Daemon.Operations.{
  store_events-Runs, delete_outcome_row-Runs, delete_reply-Runs, read_projection-Runs,
  derive_prior_classification-Runs, gather_prior_actuals-Runs,
}

abbrev pub world_of : {X : Extern} → RunLoop X → World X
world_of s = s.world

module _ {X : Extern} where
  pub store-Performs : {A : Type 0} (m : Db X A) → Runs m → Performs world_of (store m)
  unfolding store
  store-Performs m h s = h s.world

  counted-Moved :
      {E : Type 0} (run_id : String) (s : RunLoop X) (r : Panics E)
      → Moved s.world (world_of (counted run_id s r).1)
  counted-Moved run_id s none = Moved-refl s.world
  counted-Moved run_id s (some (es, c)) = Moved-refl s.world

  with_counter-Performs :
      {E : Type 0} (run_id : String) (dispatch : Counter → Panics E)
      → Performs (world_of {X = X}) (with_counter run_id dispatch)
  unfolding with_counter
  with_counter-Performs run_id dispatch s =
      let (counters, c) = get_or_create s.counters run_id in
      counted-Moved run_id (record s { counters = counters }) (dispatch c)

  revise-Performs :
      (p : OutcomePayload X) (revises : String) (snap : Snapshot) (proj : Projection)
      → Performs world_of (revise p revises snap proj)
  unfolding revise
  revise-Performs p revises snap proj =
      bind-Performs world_of (store (derive_prior_classification p.intervention_id)) _
        (store-Performs _ (derive_prior_classification-Runs p.intervention_id))
        λ prior.
          bind-Performs world_of
            (store (gather_prior_actuals p.intervention_id (union_affected prior p.classification)))
            _
            (store-Performs _
              (gather_prior_actuals-Runs p.intervention_id (union_affected prior p.classification)))
            λ actuals. with_counter-Performs p.run_id _

  revision-Performs :
      (p : OutcomePayload X) (o : Option String) (snap : Snapshot) (proj : Projection)
      → Performs world_of (revise_known p o snap proj)
  revision-Performs p none snap proj = λ s. Moved-refl s.world
  revision-Performs p (some revises) snap proj = revise-Performs p revises snap proj

  if-Performs :
      {A : Type 0} (b : Bool) (m n : Step (RunLoop X) A)
      → Performs world_of m
      → Performs world_of n
      → Performs world_of (if b then m else n)
  if-Performs true m n h k = h
  if-Performs false m n h k = k

  pub build_events-Performs :
      (p : InboxPayload X) (snap : Snapshot) (proj : Projection)
      → Performs world_of (build_events p snap proj)
  unfolding build_events build_revision_events
  build_events-Performs (InboxPayload.outcome p) snap proj =
      if-Performs p.is_revision _ _ (revision-Performs p p.revises snap proj)
        (with_counter-Performs p.run_id _)
  build_events-Performs (InboxPayload.hippocampus p) snap proj = with_counter-Performs p.run_id _
  build_events-Performs (InboxPayload.sensor p) snap proj = with_counter-Performs p.run_id _

  delete-Performs : (id : ℤ) → Performs (world_of {X = X}) (store (delete_outcome_row id))
  delete-Performs id = store-Performs (delete_outcome_row id) (delete_outcome_row-Runs id)

  apply-Performs : (id : ℤ) (p : InboxPayload X) → Performs world_of (apply id p)
  unfolding apply
  apply-Performs id p =
      bind-Performs world_of (store read_projection) _
        (store-Performs read_projection read_projection-Runs)
        λ (snap, proj).
          bind-Performs world_of (build_events p snap proj) _ (build_events-Performs p snap proj)
            λ evs.
              bind-Performs world_of (store (store_events evs)) _
                (store-Performs (store_events evs) (store_events-Runs evs)) λ _. delete-Performs id

  checked-Performs :
      (id : ℤ) (c : Checked) (r : Parsed (InboxPayload X))
      → Performs world_of (handle_checked id c r)
  checked-Performs id (refused w) r = delete-Performs id
  checked-Performs id accepted (reject w) = delete-Performs id
  checked-Performs id accepted (accept p) = apply-Performs id p

  pub claimed-Performs :
      (id : ℤ) (o : Option X.Value) → Performs world_of (handle_claimed {X = X} id o)
  unfolding handle
  claimed-Performs id none = λ s. Moved-refl s.world
  claimed-Performs id (some v) =
      checked-Performs id (check_schema_major X v) (parse_inbox_payload X v)

  pub process_outcome_row-Performs : (id : ℤ) → Performs (world_of {X = X}) (process_outcome_row id)
  unfolding process_outcome_row
  process_outcome_row-Performs id =
      bind-Performs world_of (store (statement (claim id))) _
        (store-Performs _ (statement-Runs (claim id) (λ db. later here (claims id))))
        (claimed-Performs id)

  logged-Moved :
      (before : World X) (r : Ended (Unit {0}) × RunLoop X)
      → Moved before r.1.world
      → Moved before (world_of (logged r).1)
  logged-Moved before (done tt, s) h = h
  logged-Moved before (failed e, s) h = h
  logged-Moved before (panicked, s) h = h

  each-Performs :
      (process : ℤ → Step (RunLoop X) (Unit {0}))
      → ((id : ℤ) → Performs world_of (process id))
      → (ids : List ℤ) → Performs world_of (each process ids)
  unfolding each
  each-Performs process h [] s = Moved-refl s.world
  each-Performs process h (id ∷ ids) s =
      Moved-trans (logged-Moved s.world (process id s) (h id s)) (
        continue-Performs world_of (λ _. each process ids) (λ _. each-Performs process h ids)
          (logged (process id s)))

  pub drain_outcome_inbox-Performs : Performs (world_of {X = X}) drain_outcome_inbox
  unfolding drain_outcome_inbox
  drain_outcome_inbox-Performs =
      bind-Performs world_of (store (statement _)) (each process_outcome_row)
        (store-Performs _ (statement-Runs _ (λ db. here)))
        (each-Performs process_outcome_row process_outcome_row-Performs)

  process_reply_row-Performs : (id : ℤ) → Performs (world_of {X = X}) (process_reply_row id)
  unfolding process_reply_row
  process_reply_row-Performs id =
      store-Performs _
        (bind-Runs (statement _) _ (statement-Runs _ (λ db. here)) (delete_reply-Runs id))

  pub drain_audit_replies-Performs : Performs (world_of {X = X}) drain_audit_replies
  unfolding drain_audit_replies
  drain_audit_replies-Performs =
      bind-Performs world_of (store (statement _)) (each process_reply_row)
        (store-Performs _ (statement-Runs _ (λ db. here)))
        (each-Performs process_reply_row process_reply_row-Performs)

  notified-Performs :
      (process : ℤ → Step (RunLoop X) (Unit {0}))
      → ((id : ℤ) → Performs world_of (process id))
      → (o : Option ℤ) → Performs world_of (notified process o)
  notified-Performs process h none s = Moved-refl s.world
  notified-Performs process h (some id) s = logged-Moved s.world (process id s) (h id s)

  pub handle_outcome_notify-Performs :
      (payload : String) → Performs (world_of {X = X}) (handle_outcome_notify payload)
  unfolding handle_outcome_notify
  handle_outcome_notify-Performs payload =
      notified-Performs process_outcome_row process_outcome_row-Performs (parse_i32 payload)

  pub handle_reply_notify-Performs :
      (payload : String) → Performs (world_of {X = X}) (handle_reply_notify payload)
  unfolding handle_reply_notify
  handle_reply_notify-Performs payload =
      notified-Performs process_reply_row process_reply_row-Performs (parse_i32 payload)
