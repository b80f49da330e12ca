-- ===== src/NotifyStream.antt =====
-- src/notify_stream.rs: the lines that the subcommand `notify-stream` writes, from what its `select!`
-- gives, in order. Writing a line takes what the terminal says of it.
pub mod Lines
use satan_attrd.Prelude.{String, Bool, true, false, List, [], ◌∷◌, ◌++◌, str_append, ◌≡◌, refl, ap}
use satan_attrd.Error.{Result, ok, err, invalid_argument, sqlx, SqlxError}
use mathlib.Core.List.{append-nil, append_assoc}
use satan_attrd.Prelude.{map, sym, ◌∙◌}
use satan_attrd.Extern.{Extern}
use satan_attrd.Store.Database.{Database, Db, pure, lift, raise, ◌>>◌, statement}
use satan_attrd.Store.Database.Calm.{calm}

-- A notification, a lost listener, or SIGTERM or SIGINT.
pub data Wake : Type 0 where
  notification : (channel payload : String) → Wake
  lost : Wake
  terminated interrupted : Wake

-- How the loop stands: it waits for the next event, or has ended.
pub data Stand : Type 0 where
  waiting : Stand
  ended : Result (Unit {0}) → Stand

module _ (X : Extern) where
  -- `serde_json::to_string` of a text.
  abbrev pub quoted : String → String
  quoted s = X.show (X.text s)

  unfoldable pub line : String → String → String
  line channel payload =
      str_append "{\"channel\":" (
        str_append (quoted channel)
          (str_append ",\"payload\":" (str_append (quoted payload) "}\n")))

  -- The loop, with the lines written so far; beside each event, whether a write would succeed.
  unfoldable pub serve : List (Wake × Bool) → List String → Stand × List String
  serve [] out = (waiting, out)
  serve ((notification channel payload, true) ∷ wakes) out =
      serve wakes (out ++ line channel payload ∷ [])
  serve ((notification channel payload, false) ∷ wakes) out =
      (ended (err (invalid_argument "stdout write")), out)
  serve ((lost, b) ∷ wakes) out = (ended (err (sqlx SqlxError.other)), out)
  serve ((terminated, b) ∷ wakes) out = (ended (ok tt), out)
  serve ((interrupted, b) ∷ wakes) out = (ended (ok tt), out)

  -- `listener.listen(ch)` for each channel.
  unfoldable pub listen_all : List String → Db X (Unit {0})
  listen_all [] = pure tt
  listen_all (channel ∷ channels) = do statement λ db. (ok tt, db); listen_all channels

  -- `signals` says how the handlers of the two signals were installed.
  unfoldable pub run :
      List String → Result (Unit {0}) → List (Wake × Bool) → Db X (Stand × List String)
  run [] signals wakes = raise (invalid_argument "notify-stream requires at least one channel")
  run (channel ∷ channels) signals wakes = do
    statement λ db. (ok tt, db)
    listen_all (channel ∷ channels)
    lift signals
    pure (serve wakes [])

  -- A notification whose line can be written.
  abbrev pub written : String × String → Wake × Bool
  written n = (notification n.0 n.1, true)

  pub serve-append :
      (ns : List (String × String)) (wakes : List (Wake × Bool)) (out : List String)
      → serve (map written ns ++ wakes) out ≡ serve wakes (out ++ map (λ n. line n.0 n.1) ns)
  unfolding serve
  serve-append [] wakes out = ap (serve wakes) (sym (append-nil out))
  serve-append (n ∷ ns) wakes out =
      serve-append ns wakes (out ++ line n.0 n.1 ∷ [])
      ∙ ap (serve wakes) (append_assoc out (line n.0 n.1 ∷ []) (map (λ n. line n.0 n.1) ns))

  listen_all-calm :
      (channels : List String) (db : Database X) → listen_all channels (calm db) ≡ (ok tt, calm db)
  unfolding listen_all statement
  listen_all-calm [] db = refl
  listen_all-calm (channel ∷ channels) db = listen_all-calm channels db

  -- What ends the loop, and how: a lost listener, a write that fails, or a signal.
  abbrev pub Ends : Wake × Bool → Result (Unit {0}) → Type 0
  Ends (notification channel payload, true) r = ⊥
  Ends (notification channel payload, false) r = r ≡ err (invalid_argument "stdout write")
  Ends (lost, b) r = r ≡ err (sqlx SqlxError.other)
  Ends (terminated, b) r = r ≡ ok tt
  Ends (interrupted, b) r = r ≡ ok tt

  pub at_end :
      (e : Wake × Bool) (rest : List (Wake × Bool)) (out : List String) (r : Result (Unit {0}))
      → Ends e r
      → serve (e ∷ rest) out ≡ (ended r, out)
  unfolding serve
  at_end (notification channel payload, true) rest out r h = absurd h
  at_end (notification channel payload, false) rest out r h = ap (λ r. (ended r, out)) (sym h)
  at_end (lost, b) rest out r h = ap (λ r. (ended r, out)) (sym h)
  at_end (terminated, b) rest out r h = ap (λ r. (ended r, out)) (sym h)
  at_end (interrupted, b) rest out r h = ap (λ r. (ended r, out)) (sym h)

  pub started :
      (channel : String) (channels : List String) (wakes : List (Wake × Bool)) (db : Database X)
      → run (channel ∷ channels) (ok tt) wakes (calm db) ≡ (ok (serve wakes []), calm db)
  unfolding run statement
  started channel channels wakes db = rw (listen_all-calm (channel ∷ channels) db) refl
