-- ===== src/Types/Sources.antt =====
-- src/types.rs: the closed enum of sources, its texts and its parser.
use satan_attrd.Prelude.{String, ◌≡◌, refl, Bool, true, false, str_eq, if◌then◌else◌}
use satan_attrd.Types.Reading.{test-IsReadFrom, read_lem}
use satan_attrd.Error.{Result, ok, err, invalid_source}

pub data Source : Type 0 where
  outcome hippocampus percept resonance sensor maintenance tool_error manual : Source

unfoldable pub as_str : Source → String
as_str outcome = "outcome"
as_str hippocampus = "hippocampus"
as_str percept = "percept"
as_str resonance = "resonance"
as_str sensor = "sensor"
as_str maintenance = "maintenance"
as_str tool_error = "tool_error"
as_str manual = "manual"

unfoldable pub is_implemented : Source → Bool
is_implemented outcome = true
is_implemented hippocampus = true
is_implemented sensor = true
is_implemented maintenance = true
is_implemented _ = false

unfoldable pub supports_revision : Source → Bool
supports_revision outcome = true
supports_revision _ = false

unfoldable pub from_str : String → Result Source
from_str s =
    if str_eq s "outcome"
    then ok outcome
    else if str_eq s "hippocampus"
    then ok hippocampus
    else if str_eq s "percept"
    then ok percept
    else if str_eq s "resonance"
    then ok resonance
    else if str_eq s "sensor"
    then ok sensor
    else if str_eq s "maintenance"
    then ok maintenance
    else if str_eq s "tool_error"
    then ok tool_error
    else if str_eq s "manual"
    then ok manual
    else err (invalid_source s)

-- The parser accepts the text of each value.
pub from_str-as_str : (x : Source) → from_str (as_str x) ≡ ok x
unfolding from_str as_str
from_str-as_str outcome = refl
from_str-as_str hippocampus = refl
from_str-as_str percept = refl
from_str-as_str resonance = refl
from_str-as_str sensor = refl
from_str-as_str maintenance = refl
from_str-as_str tool_error = refl
from_str-as_str manual = refl

-- The parser accepts no other text.
pub as_str-from_str : (s : String) (x : Source) → from_str s ≡ ok x → s ≡ as_str x
unfolding from_str as_str
as_str-from_str s x = read_lem as_str s (from_str s) x (
    test-IsReadFrom as_str s outcome _ (
      test-IsReadFrom as_str s hippocampus _ (
        test-IsReadFrom as_str s percept _ (
          test-IsReadFrom as_str s resonance _ (
            test-IsReadFrom as_str s sensor _ (
              test-IsReadFrom as_str s maintenance _
                (test-IsReadFrom as_str s tool_error _ (test-IsReadFrom as_str s manual _ tt))))))))
