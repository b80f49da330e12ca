-- ===== src/Tests/Commands.antt =====
-- The subcommands at concrete inputs.
use satan_attrd.Prelude.{String, true, List, refl, some, [], ◌∷◌, ◌++◌, ◌≡◌, map, str_eq}
use satan_attrd.Error.{ok}
use satan_attrd.Store.Database.{pure}
use satan_attrd.Store.Database.Calm.{calm}
use satan_attrd.Store.Operations.{any}
use satan_attrd.NotifyStream.{run, ended, terminated, lost, written}
use satan_attrd.NotifyStream.Lines.{
  IsEscaped, has_newline, lines_of, concat, object_text, run_lines,
}
use satan_attrd.Main.{Commands, main, MainRebuildEnds, main_rebuild}
use satan_attrd.Tests.Fixtures.{json}
use satan_attrd.Tests.Tables.{tables, shaky}

json-IsEscaped : IsEscaped json
unfolding has_newline
json-IsEscaped s = refl

-- Two notifications, and SIGTERM before the listener is lost.
run_lines_example :
    (out : List String) × (run json
        ("a" ∷ "b" ∷ [])
        (ok tt)
        (map (written json) (("a", "1") ∷ ("b", "2") ∷ [])
          ++ (terminated, true) ∷ (lost, true) ∷ [])
        (calm tables)
      ≡ (ok (ended (ok tt), out), calm tables))
    × (lines_of (concat out) ≡ map (object_text json) (("a", "1") ∷ ("b", "2") ∷ []))
run_lines_example =
    run_lines json "a" ("b" ∷ []) (("a", "1") ∷ ("b", "2") ∷ []) (terminated, true)
      ((lost, true) ∷ []) (ok tt) tables json-IsEscaped refl

abbrev commands : Commands json
commands = record {
  run_migrate = λ url. pure tt;
  run_loop_subcommand = λ url. pure tt;
  run_notify_stream = λ url channels. pure tt;
}

main_rebuild_example :
    MainRebuildEnds
      (some "postgres://localhost")
      (any (λ a. str_eq a "--include-disabled") ("--include-disabled" ∷ []))
      shaky
      (main commands ("rebuild" ∷ "--include-disabled" ∷ []) (some "postgres://localhost") shaky)
main_rebuild_example =
    main_rebuild commands ("--include-disabled" ∷ []) (some "postgres://localhost") shaky
