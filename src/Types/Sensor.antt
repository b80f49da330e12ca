-- ===== src/Types/Sensor.antt =====
-- src/types.rs: the closed enum of sensor reasons, its texts and its parser.
use satan_attrd.Prelude.{String, ◌≡◌, refl, str_eq, if◌then◌else◌}
use satan_attrd.Types.Reading.{test-IsReadFrom, read_lem}
use satan_attrd.Error.{Result, ok, err, invalid_reason}
use satan_attrd.Types.Sources
use satan_attrd.Types.Sources.{Source}

pub data SensorReason : Type 0 where
  segment_backlog typing_active typing_idle reading ask_suppressed ask_uncorrelated : SensorReason

unfoldable pub as_str : SensorReason → String
as_str segment_backlog = "segment_backlog"
as_str typing_active = "typing_active"
as_str typing_idle = "typing_idle"
as_str reading = "reading"
as_str ask_suppressed = "ask_suppressed"
as_str ask_uncorrelated = "ask_uncorrelated"

unfoldable pub from_str : String → Result SensorReason
unfolding Sources.as_str
from_str s =
    if str_eq s "segment_backlog"
    then ok segment_backlog
    else if str_eq s "typing_active"
    then ok typing_active
    else if str_eq s "typing_idle"
    then ok typing_idle
    else if str_eq s "reading"
    then ok reading
    else if str_eq s "ask_suppressed"
    then ok ask_suppressed
    else if str_eq s "ask_uncorrelated"
    then ok ask_uncorrelated
    else err (invalid_reason (Sources.as_str Source.sensor) s)

-- The parser accepts the text of each value.
pub from_str-as_str : (x : SensorReason) → from_str (as_str x) ≡ ok x
unfolding from_str as_str
from_str-as_str segment_backlog = refl
from_str-as_str typing_active = refl
from_str-as_str typing_idle = refl
from_str-as_str reading = refl
from_str-as_str ask_suppressed = refl
from_str-as_str ask_uncorrelated = refl

-- The parser accepts no other text.
pub as_str-from_str : (s : String) (x : SensorReason) → from_str s ≡ ok x → s ≡ as_str x
unfolding from_str as_str
as_str-from_str s x = read_lem as_str s (from_str s) x (
    test-IsReadFrom as_str s segment_backlog _ (
      test-IsReadFrom as_str s typing_active _ (
        test-IsReadFrom as_str s typing_idle _ (
          test-IsReadFrom as_str s reading _ (
            test-IsReadFrom as_str s ask_suppressed _
              (test-IsReadFrom as_str s ask_uncorrelated _ tt))))))
