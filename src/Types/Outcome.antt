-- ===== src/Types/Outcome.antt =====
-- src/types.rs: the closed enum of outcome reasons, its texts and its parser.
use satan_attrd.Prelude.{String, ◌≡◌, refl, str_eq, if◌then◌else◌}
use satan_attrd.Types.Reading.{test-IsReadFrom, read_lem}
use satan_attrd.Error.{Result, ok, err, invalid_reason}
use satan_attrd.Types.Sources
use satan_attrd.Types.Sources.{Source}

pub data OutcomeReason : Type 0 where
  worked neutral ignored contradicted harmful : OutcomeReason

unfoldable pub as_str : OutcomeReason → String
as_str worked = "worked"
as_str neutral = "neutral"
as_str ignored = "ignored"
as_str contradicted = "contradicted"
as_str harmful = "harmful"

unfoldable pub from_str : String → Result OutcomeReason
unfolding Sources.as_str
from_str s =
    if str_eq s "worked"
    then ok worked
    else if str_eq s "neutral"
    then ok neutral
    else if str_eq s "ignored"
    then ok ignored
    else if str_eq s "contradicted"
    then ok contradicted
    else if str_eq s "harmful"
    then ok harmful
    else err (invalid_reason (Sources.as_str Source.outcome) s)

-- The parser accepts the text of each value.
pub from_str-as_str : (x : OutcomeReason) → from_str (as_str x) ≡ ok x
unfolding from_str as_str
from_str-as_str worked = refl
from_str-as_str neutral = refl
from_str-as_str ignored = refl
from_str-as_str contradicted = refl
from_str-as_str harmful = refl

-- The parser accepts no other text.
pub as_str-from_str : (s : String) (x : OutcomeReason) → from_str s ≡ ok x → s ≡ as_str x
unfolding from_str as_str
as_str-from_str s x = read_lem as_str s (from_str s) x (
    test-IsReadFrom as_str s worked _ (
      test-IsReadFrom as_str s neutral _ (
        test-IsReadFrom as_str s ignored _
          (test-IsReadFrom as_str s contradicted _ (test-IsReadFrom as_str s harmful _ tt)))))
