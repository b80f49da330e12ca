-- ===== src/Main.antt =====
-- src/main.rs: the choice of the subcommand and the code that the process exits with. The other
-- subcommands are arguments; `rebuild` is that of src/store.rs.
use satan_attrd.Prelude.{
  ℕ, String, Bool, true, false, Option, none, some, List, [], ◌∷◌, ◌≡◌, refl, sym, ap, ◌∙◌, str_eq,
  if◌then◌else◌,
}
use satan_attrd.Error.{Result, ok, err}
use satan_attrd.Extern.{Extern}
use satan_attrd.Store.Database.{Database, World, Db, ◌>>◌, statement}
use satan_attrd.Store.Operations.{any}
use satan_attrd.Store.Rebuild.{rebuild_projection}
use satan_attrd.Store.Rebuild.Laws.{rebuild_atomic}

-- `ExitCode::SUCCESS`, `ExitCode::FAILURE`, and the code 2.
pub data ExitCode : Type 0 where
  success failure usage : ExitCode

-- The subcommands that only wait on the network or call a library, by the URL of the database.
pub record Commands (X : Extern) : Type 0 where
  pub run_migrate : String → Db X (Unit {0})
  pub run_loop_subcommand : String → Db X (Unit {0})
  pub run_notify_stream : String → List String → Db X (Unit {0})

module _ {X : Extern} where
  abbrev pub exit_code : {A : Type 0} → Result A × World X → ExitCode × World X
  exit_code (ok a, w) = (success, w)
  exit_code (err e, w) = (failure, w)

  -- `create_pool`: the first connection.
  abbrev pub create_pool : Db X (Unit {0})
  create_pool = statement λ db. (ok tt, db)

  unfoldable pub run_rebuild : String → Bool → Db X ℕ
  run_rebuild url include_disabled = do create_pool; rebuild_projection include_disabled

  -- The `match` on the first argument; `args` is all of them.
  unfoldable pub dispatch :
      Commands X → String → String → List String → List String → World X → ExitCode × World X
  dispatch commands url cmd args rest w =
      if str_eq cmd "migrate"
      then exit_code (commands.run_migrate url w)
      else if str_eq cmd "rebuild"
      then exit_code (run_rebuild url (any (λ a. str_eq a "--include-disabled") args) w)
      else if str_eq cmd "run"
      then exit_code (commands.run_loop_subcommand url w)
      else if str_eq cmd "notify-stream"
      then exit_code (commands.run_notify_stream url rest w)
      else (usage, w)

  unfoldable pub main : Commands X → List String → Option String → World X → ExitCode × World X
  unfolding dispatch
  main commands [] url w = (usage, w)
  main commands (cmd ∷ rest) none w = (usage, w)
  main commands (cmd ∷ rest) (some url) w = dispatch commands url cmd (cmd ∷ rest) rest w

  -- What an end of `rebuild` says of the tables.
  abbrev pub RebuildEnds : Bool → World X → ExitCode × World X → Type 0
  RebuildEnds include_disabled before (success, after) =
      (w : World X) × (n : ℕ) × (w.db ≡ before.db)
      × (rebuild_projection include_disabled w ≡ (ok n, after))
  RebuildEnds include_disabled before (failure, after) = after.db ≡ before.db
  RebuildEnds include_disabled before (usage, after) = ⊥

  rebuild_ends :
      (include_disabled : Bool) (w : World X) (r : Result ℕ × World X)
      → rebuild_projection include_disabled w ≡ r
      → RebuildEnds include_disabled w (exit_code r)
  rebuild_ends include_disabled w (ok n, after) h = (w, n, refl, h)
  rebuild_ends include_disabled w (err e, after) h =
      sym (ap (λ r. r.1.db) h) ∙ rebuild_atomic include_disabled w e (ap (λ r. r.0) h)

  run_rebuild_ends :
      (url : String) (include_disabled : Bool) (db : Database X) (faults : List Bool)
      → RebuildEnds include_disabled
          (record { db = db; faults = faults })
          (exit_code (run_rebuild url include_disabled (record { db = db; faults = faults })))
  unfolding run_rebuild statement
  run_rebuild_ends url include_disabled db [] =
      rebuild_ends include_disabled (record { db = db; faults = [] })
        (rebuild_projection include_disabled (record { db = db; faults = [] })) refl
  run_rebuild_ends url include_disabled db (true ∷ later) = refl
  run_rebuild_ends url include_disabled db (false ∷ later) =
      connected
        (exit_code (rebuild_projection include_disabled (record { db = db; faults = later })))
        (rebuild_ends include_disabled (record { db = db; faults = later })
          (rebuild_projection include_disabled (record { db = db; faults = later })) refl)
    where
      connected :
          (r : ExitCode × World X)
          → RebuildEnds include_disabled (record { db = db; faults = later }) r
          → RebuildEnds include_disabled (record { db = db; faults = false ∷ later }) r
      connected (success, after) h = h
      connected (failure, after) h = h
      connected (usage, after) h = h

  -- The end, by what the environment says of DATABASE_URL.
  abbrev pub MainRebuildEnds : Option String → Bool → World X → ExitCode × World X → Type 0
  MainRebuildEnds none include_disabled before end = end ≡ (usage, before)
  MainRebuildEnds (some url) include_disabled before end = RebuildEnds include_disabled before end

  -- The subcommand `rebuild`, whichever statements fail. Without DATABASE_URL it exits with the code
  -- 2 and touches nothing. With it, it does not exit with the code 2: with the code 0 the tables are
  -- those after a rebuild that returned, of disabled events too if `--include-disabled` is among the
  -- arguments; with the code 1 they are as they were.
  pub main_rebuild :
      (commands : Commands X) (rest : List String) (url : Option String) (w : World X)
      → MainRebuildEnds url
          (any (λ a. str_eq a "--include-disabled") rest)
          w
          (main commands ("rebuild" ∷ rest) url w)
  unfolding main
  main_rebuild commands rest none w = refl
  main_rebuild commands rest (some url) w =
      run_rebuild_ends url (any (λ a. str_eq a "--include-disabled") rest) w.db w.faults
