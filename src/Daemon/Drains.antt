-- ===== src/Daemon/Drains.antt =====
-- A drain of src/run_loop.rs reaches every row that is pending when it starts.
use satan_attrd.Prelude.{
  Bool, true, false, not, ◌≡◌, refl, ap, ◌⊎◌, inl, inr, List, [], ◌∷◌, All, All-map, map,
  if◌then◌else◌,
}
use satan_attrd.Prelude.Int.{ℤ, eqb_ℤ, leb_ℤ}
use satan_attrd.Extern.{Extern}
use satan_attrd.Steps
use satan_attrd.Steps.{Ended, Step, done, failed, panicked}
use satan_attrd.Store.Database.{InboxRow, Database, statement}
use satan_attrd.Store.Operations.Log.{eqb_refl}
use satan_attrd.Store.Operations.{select, order_by, insert_ordered}
use satan_attrd.RunLoop.Loop.{RunLoop, store}
use satan_attrd.RunLoop.Process.{process_outcome_row}
use satan_attrd.RunLoop.Drain.{logged, each, drain_outcome_inbox, pending}
use satan_attrd.Daemon.Runs.{Moved}
use satan_attrd.Daemon.Handlers.{process_outcome_row-Performs}
use satan_attrd.Daemon.Claims.{IsTaken, Survives, Writes-All, process_takes}

-- The id is in the list.
abbrev Among : ℤ → List ℤ → Type 0
Among a [] = ⊥
Among a (b ∷ bs) = (a ≡ b) ⊎ Among a bs

Among-inserted :
    (le : ℤ → ℤ → Bool) (a b : ℤ) (bs : List ℤ)
    → (a ≡ b) ⊎ Among a bs
    → Among a (insert_ordered le b bs)
unfolding insert_ordered
Among-inserted le a b [] h = h
Among-inserted le a b (c ∷ cs) h =
    put (le b c) (insert_ordered le b cs) h (λ k. Among-inserted le a b cs k)
  where
    put :
        (t : Bool) (rest : List ℤ)
        → (a ≡ b) ⊎ ((a ≡ c) ⊎ Among a cs)
        → ((a ≡ b) ⊎ Among a cs → Among a rest)
        → Among a (if t then b ∷ c ∷ cs else c ∷ rest)
    put true rest h k = h
    put false rest (inl e) k = inr (k (inl e))
    put false rest (inr (inl e)) k = inl e
    put false rest (inr (inr m)) k = inr (k (inr m))

Among-ordered : (le : ℤ → ℤ → Bool) (a : ℤ) (bs : List ℤ) → Among a bs → Among a (order_by le bs)
unfolding order_by
Among-ordered le a [] h = h
Among-ordered le a (b ∷ bs) (inl e) = Among-inserted le a b (order_by le bs) (inl e)
Among-ordered le a (b ∷ bs) (inr m) =
    Among-inserted le a b (order_by le bs) (inr (Among-ordered le a bs m))

module _ {X : Extern} where
  -- A row that is pending is in the list.
  abbrev IsDueIn : List ℤ → InboxRow X → Type 0
  IsDueIn ids r = r.claimed ≡ false → Among r.id ids

  due_marked : (ids : List ℤ) → Survives (IsDueIn ids)
  due_marked ids r h = λ e. cc

  -- The rows of the query, among all rows.
  in_query :
      (rows : List (InboxRow X))
      → All (IsDueIn (map (λ r. r.id) (select (λ r. not r.claimed) rows))) rows
  unfolding select
  in_query [] = tt
  in_query (r ∷ rows) = here_or r.claimed (in_query rows)
    where
      ids : List ℤ
      ids = map (λ r. r.id) (select (λ r. not r.claimed) rows)

      here_or :
          (b : Bool)
          → All (IsDueIn ids) rows
          → (b ≡ false
              → Among r.id (
                  map
                    (λ r. r.id)
                    (if not b
                      then r ∷ select (λ r. not r.claimed) rows
                      else select (λ r. not r.claimed) rows)))
            × All
                (IsDueIn (
                  map
                    (λ r. r.id)
                    (if not b
                      then r ∷ select (λ r. not r.claimed) rows
                      else select (λ r. not r.claimed) rows)))
                rows
      here_or true h = (λ e. cc, h)
      here_or false h = (λ e. inl refl, All-map _ _ (λ q k e. inr (k e)) rows h)

  pending_due : (db : Database X) → All (IsDueIn (pending db)) db.outcome_inbox
  pending_due db =
      All-map _ _ (λ r h e. Among-ordered leb_ℤ r.id _ (h e)) db.outcome_inbox
        (in_query db.outcome_inbox)

  not_taken : (r : InboxRow X) {id : ℤ} → r.id ≡ id → r.claimed ≡ false → IsTaken id r → ⊥
  not_taken r same e t = cc (eqb_refl r.id, ap (λ i. eqb_ℤ r.id i) same)

  -- What is left to do after the first id.
  less_due :
      (id : ℤ) (ids : List ℤ) (rows : List (InboxRow X))
      → All (IsDueIn (id ∷ ids)) rows
      → All (IsTaken id) rows
      → All (IsDueIn ids) rows
  less_due id ids [] h t = tt
  less_due id ids (r ∷ rows) h t = (λ e. still (h.0 e) e, less_due id ids rows h.1 t.1)
    where
      still : (r.id ≡ id) ⊎ Among r.id ids → r.claimed ≡ false → Among r.id ids
      still (inl same) e = absurd (not_taken r same e t.0)
      still (inr m) e = m

  -- Every row is claimed; an error is no end, and a panic ends the daemon.
  abbrev pub Drained : Ended (Unit {0}) × RunLoop X → Type 0
  Drained (done tt, s) = All (λ r. r.claimed ≡ true) s.world.db.outcome_inbox
  Drained (failed e, s) = ⊥
  Drained (panicked, s) = Unit

  none_due : (rows : List (InboxRow X)) → All (IsDueIn []) rows → All (λ r. r.claimed ≡ true) rows
  none_due [] h = tt
  none_due (r ∷ rows) h = (claimed r.claimed h.0, none_due rows h.1)
    where
      claimed : (b : Bool) → (b ≡ false → ⊥) → b ≡ true
      claimed true h = refl
      claimed false h = absurd (h refl)

  each_drains :
      (ids : List ℤ) (s : RunLoop X)
      → s.world.faults ≡ []
      → All (IsDueIn ids) s.world.db.outcome_inbox
      → Drained (each process_outcome_row ids s)
  unfolding each
  each_drains [] s calm h = none_due s.world.db.outcome_inbox h
  each_drains (id ∷ ids) s calm h =
      after (process_outcome_row id s) (process_outcome_row-Performs id s) (process_takes id s calm)
        (each_drains ids)
    where
      after :
          (r : Ended (Unit {0}) × RunLoop X)
          → Moved s.world r.1.world
          → All (IsTaken id) r.1.world.db.outcome_inbox
          → ((t : RunLoop X)
              → t.world.faults ≡ []
              → All (IsDueIn ids) t.world.db.outcome_inbox
              → Drained (each process_outcome_row ids t))
          → Drained (Steps.continue (λ _. each process_outcome_row ids) (logged r))
      after (done tt, t) m taken rest = rest t (m.1 calm) (
          less_due id ids t.world.db.outcome_inbox
            (Writes-All (IsDueIn (id ∷ ids)) (due_marked (id ∷ ids)) m.0 h) taken)
      after (failed e, t) m taken rest = rest t (m.1 calm) (
          less_due id ids t.world.db.outcome_inbox
            (Writes-All (IsDueIn (id ∷ ids)) (due_marked (id ∷ ids)) m.0 h) taken)
      after (panicked, t) m taken rest = tt

  -- On a connection that does not fail, a drain of the inbox ends with every row that is left
  -- claimed, whatever errors the handlers end in, unless a handler panics; it never ends in an
  -- error.
  pub drain_outcome_inbox-Drained :
      (s : RunLoop X) → s.world.faults ≡ [] → Drained (drain_outcome_inbox s)
  unfolding drain_outcome_inbox store statement
  drain_outcome_inbox-Drained s calm =
      rw calm (each_drains (pending s.world.db) _ refl (pending_due s.world.db))
