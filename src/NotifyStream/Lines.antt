-- ===== src/NotifyStream/Lines.antt =====
-- What a reader of the stream gets: one object in each line, one line for each notification.
use Prim.Native.Char.{Char, code}
use Prim.Native.String.append
use Prim.Native.String as Text
use text.Mathlib.TextLemmas.{append_assoc}
use satan_attrd.Prelude.{
  String, Bool, true, false, ◌||◌, ◌==◌, List, [], ◌∷◌, ◌++◌, ◌≡◌, refl, ap, sym, ◌∙◌, map,
  str_append, if◌then◌else◌, arith,
}
use satan_attrd.Error.{Result, ok}
use satan_attrd.Extern.{Extern}
use satan_attrd.Store.Database.{Database}
use satan_attrd.Store.Database.Calm.{calm}
use satan_attrd.NotifyStream.{
  Wake, ended, quoted, line, run, written, serve-append, Ends, at_end, started,
}

unfoldable pub has_newline : String → Bool
has_newline Text.[] = false
has_newline (Text.◌∷◌ c s) = let rest = has_newline s in code c == 10 || rest

-- The lines of a text that ends in a newline.
unfoldable pub lines_of : String → List String
lines_of Text.[] = []
lines_of (Text.◌∷◌ c s) =
    let rest = lines_of s in
    if code c == 10
    then Text.[] ∷ rest
    else elim rest [ [] ↦ Text.◌∷◌ c Text.[] ∷ [] | l ∷ ls ↦ Text.◌∷◌ c l ∷ ls ]

abbrev pub concat : List String → String
concat [] = ""
concat (s ∷ l) = str_append s (concat l)

append-nil : (t : String) → str_append Text.[] t ≡ t
append-nil t i = append.nil t i

append-cons : (c : Char) (s t : String) → str_append (Text.◌∷◌ c s) t ≡ Text.◌∷◌ c (str_append s t)
append-cons c s t i = append.cons c s t i

has_newline-append :
    (s t : String) → has_newline (str_append s t) ≡ (has_newline s || has_newline t)
unfolding has_newline
has_newline-append Text.[] t = ap has_newline (append-nil t)
has_newline-append (Text.◌∷◌ c s) t =
    ap has_newline (append-cons c s t) ∙ ground (arith, has_newline-append s t)

lines_of-newline : (t : String) → lines_of (str_append "\n" t) ≡ Text.[] ∷ lines_of t
unfolding lines_of
lines_of-newline t = ap lines_of (append-cons "\n" Text.[] t ∙ ap (Text.◌∷◌ "\n") (append-nil t))

lines_of-line :
    (s t : String)
    → has_newline s ≡ false
    → lines_of (str_append s (str_append "\n" t)) ≡ s ∷ lines_of t
unfolding lines_of has_newline
lines_of-line Text.[] t h = ap lines_of (append-nil (str_append "\n" t)) ∙ lines_of-newline t
lines_of-line (Text.◌∷◌ c s) t h =
    ap lines_of (append-cons c s (str_append "\n" t)) ∙ at_char (code c == 10) h (lines_of-line s t)
  where
    rest : String
    rest = str_append s (str_append "\n" t)

    at_char :
        (b : Bool)
        → (b || has_newline s) ≡ false
        → (has_newline s ≡ false → lines_of rest ≡ s ∷ lines_of t)
        → (if b
            then Text.[] ∷ lines_of rest
            else elim (lines_of rest) [ [] ↦ Text.◌∷◌ c Text.[] ∷ [] | l ∷ ls ↦ Text.◌∷◌ c l ∷ ls ])
          ≡ Text.◌∷◌ c s ∷ lines_of t
    at_char true k ih = absurd (ground arith)
    at_char false k ih = rw (ih k) refl

module _ (X : Extern) where
  -- `serde_json` escapes control characters in a text.
  abbrev pub IsEscaped : Type 0
  IsEscaped = (s : String) → has_newline (quoted X s) ≡ false

  -- The object for a notification.
  abbrev pub object_text : String × String → String
  object_text (channel, payload) = str_append "{\"channel\":" (
      str_append (quoted X channel)
        (str_append ",\"payload\":" (str_append (quoted X payload) "}")))

  object_text-line : (n : String × String) → line X n.0 n.1 ≡ str_append (object_text n) "\n"
  unfolding line
  object_text-line (channel, payload) = sym (simp (append_assoc))

  object_text-whole : IsEscaped → (n : String × String) → has_newline (object_text n) ≡ false
  unfolding has_newline
  object_text-whole h (channel, payload) = simp (has_newline-append, h channel, h payload)

  lines_of-concat :
      IsEscaped
      → (ns : List (String × String))
      → lines_of (concat (map (λ n. line X n.0 n.1) ns)) ≡ map object_text ns
  unfolding lines_of
  lines_of-concat h [] = refl
  lines_of-concat h (n ∷ ns) =
      ap lines_of (
        ap (λ l. str_append l (concat (map (λ n. line X n.0 n.1) ns))) (object_text-line n)
        ∙ append_assoc (object_text n) "\n" (concat (map (λ n. line X n.0 n.1) ns)))
      ∙ (lines_of-line (object_text n) _ (object_text-whole h n)
          ∙ ap (◌∷◌ (object_text n)) (lines_of-concat h ns))

  -- With a channel, with the handlers of the signals installed, on a connection that does not fail
  -- and where the JSON library escapes newlines in texts: if the writes of some notifications
  -- succeed and then the listener is lost, a write fails or a signal comes, the stream ends in the
  -- error, or without one at a signal; the lines of what it wrote are the objects of those
  -- notifications, in order, with channel and payload as JSON texts; and what comes after is not
  -- written.
  pub run_lines :
      (channel : String) (channels : List String) (ns : List (String × String)) (e : Wake × Bool)
      (rest : List (Wake × Bool)) (r : Result (Unit {0})) (db : Database X)
      → IsEscaped
      → Ends X e r
      → (out : List String) × (run X
            (channel ∷ channels)
            (ok tt)
            (map (written X) ns ++ e ∷ rest)
            (calm db)
          ≡ (ok (ended r, out), calm db))
        × (lines_of (concat out) ≡ map object_text ns)
  run_lines channel channels ns e rest r db h end = (
    map (λ n. line X n.0 n.1) ns,
    started X channel channels (map (written X) ns ++ e ∷ rest) db
        ∙ ap (λ t. (ok t, calm db))
            (serve-append X ns (e ∷ rest) []
              ∙ at_end X e rest (map (λ n. line X n.0 n.1) ns) r end),
    lines_of-concat h ns,
  )
