-- ===== src/Dispatcher/Weight/Text.antt =====
-- The texts of a confidence and their parser.
use satan_attrd.Prelude.{String, ◌≡◌, refl}
use satan_attrd.Error.{ok}
use satan_attrd.Types.Reading.{test-IsReadFrom, read_lem}
use satan_attrd.Dispatcher.Weight.{Confidence, low, medium, high, as_str, parse}

pub parse-as_str : (c : Confidence) → parse (as_str c) ≡ ok c
unfolding parse as_str
parse-as_str low = refl
parse-as_str medium = refl
parse-as_str high = refl

pub as_str-parse : (s : String) (c : Confidence) → parse s ≡ ok c → s ≡ as_str c
unfolding parse as_str
as_str-parse s c = read_lem as_str s (parse s) c (
    test-IsReadFrom as_str s low _
      (test-IsReadFrom as_str s medium _ (test-IsReadFrom as_str s high _ tt)))
