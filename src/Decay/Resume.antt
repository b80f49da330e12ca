-- ===== src/Decay/Resume.antt =====
-- After a date roll the counter of the day is past every number of the day's run.
use satan_attrd.Prelude.{
  String, Bool, true, false, ◌≡◌, Option, none, some, List, [], ◌∷◌, All, str_eq, arith, unwrap_or,
  if◌then◌else◌,
}
use satan_attrd.Prelude.Int.{ℤ, pos, ◌≤ℤ◌, int_laws}
use satan_attrd.Extern.{Extern}
use satan_attrd.Steps.Keeps.{ReturnsIn}
use satan_attrd.Store.Counter.{Counter}
use satan_attrd.Store.Database.{EventRow, Database, statement}
use satan_attrd.Store.Operations.{larger, max_seq, max_seq_for_run}
use satan_attrd.Decay.{DayCounterState, maintenance_run_id}
use satan_attrd.Decay.Tick.{DecayScheduler, store, is_day, roll, acquire_day_counter}

-- No event of the run has a number above that of the counter.
abbrev pub IsPast : {X : Extern} → String → Counter → List (EventRow X) → Type 0
IsPast run_id c rows = All (λ r. str_eq r.run_id run_id ≡ true → r.seq ≤ℤ c.inner) rows

abbrev Bounded : {X : Extern} → String → ℤ → EventRow X → Type 0
Bounded run_id m r = str_eq r.run_id run_id ≡ true → r.seq ≤ℤ m

-- Whatever bounds the maximum bounds every number of the run.
abbrev IsMaxBelow : Option ℤ → ℤ → Type 0
IsMaxBelow none b = Unit
IsMaxBelow (some m) b = m ≤ℤ b

larger_bound :
    (n : ℤ) (o : Option ℤ) (b : ℤ) → IsMaxBelow (larger n o) b → (n ≤ℤ b) × IsMaxBelow o b
larger_bound n none b h = (h, tt)
larger_bound n (some m) b h = ground arith

step_bound :
    (same : Bool) (n : ℤ) (o : Option ℤ) (b : ℤ)
    → IsMaxBelow (if same then larger n o else o) b
    → (same ≡ true → n ≤ℤ b) × IsMaxBelow o b
step_bound true n o b h = let (first, rest) = larger_bound n o b h in (λ _. first, rest)
step_bound false n o b h = (ground arith, h)

max_below : (o : Option ℤ) → IsMaxBelow o (unwrap_or o (pos 0))
max_below none = tt
max_below (some m) = omega int_laws

module _ {X : Extern} where
  max_seq_bound :
      (run_id : String) (rows : List (EventRow X)) (b : ℤ)
      → IsMaxBelow (max_seq run_id rows) b
      → All (Bounded run_id b) rows
  unfolding max_seq
  max_seq_bound run_id [] b h = tt
  max_seq_bound run_id (r ∷ rows) b h =
      let (first, rest) = step_bound (str_eq r.run_id run_id) r.seq (max_seq run_id rows) b h in
      (first, max_seq_bound run_id rows b rest)

  rolled :
      (today : String) (state : DayCounterState) (faults : List Bool) (db : Database X)
      → ReturnsIn
          (λ _ t. IsPast (maintenance_run_id today) t.day_counter_state.counter t.world.db.events)
          (roll today
            (record { world = record { db = db; faults = faults }; day_counter_state = state }))
  unfolding roll store max_seq_for_run statement
  rolled today state [] db = max_seq_bound (maintenance_run_id today) db.events _ (max_below _)
  rolled today state (true ∷ later) db = tt
  rolled today state (false ∷ later) db =
      max_seq_bound (maintenance_run_id today) db.events _ (max_below _)

  -- On a day that the scheduler has not counted on yet, as after a restart, a counter that is
  -- acquired without an error stands at or above the number of every event in the log for the
  -- day's run.
  pub acquire_day_counter-IsPast :
      (today : String) (s : DecayScheduler X)
      → is_day today s.day_counter_state.day ≡ false
      → ReturnsIn
          (λ _ t. IsPast (maintenance_run_id today) t.day_counter_state.counter t.world.db.events)
          (acquire_day_counter today s)
  unfolding acquire_day_counter
  acquire_day_counter-IsPast today s h =
      rw (ReturnsIn, h) (rolled today s.day_counter_state s.world.faults s.world.db)
