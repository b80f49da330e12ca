-- ===== src/Types/Hippocampus.antt =====
-- src/types.rs: the closed enum of hippocampus reasons, its texts and its parser.
use satan_attrd.Prelude.{String, ◌≡◌, refl, str_eq, if◌then◌else◌}
use satan_attrd.Types.Reading.{test-IsReadFrom, read_lem}
use satan_attrd.Error.{Result, ok, err, invalid_reason}
use satan_attrd.Types.Sources
use satan_attrd.Types.Sources.{Source}

pub data HippocampusReason : Type 0 where
  written overwritten deleted renamed searched trace_marked : HippocampusReason

unfoldable pub as_str : HippocampusReason → String
as_str written = "written"
as_str overwritten = "overwritten"
as_str deleted = "deleted"
as_str renamed = "renamed"
as_str searched = "searched"
as_str trace_marked = "trace_marked"

unfoldable pub from_str : String → Result HippocampusReason
unfolding Sources.as_str
from_str s =
    if str_eq s "written"
    then ok written
    else if str_eq s "overwritten"
    then ok overwritten
    else if str_eq s "deleted"
    then ok deleted
    else if str_eq s "renamed"
    then ok renamed
    else if str_eq s "searched"
    then ok searched
    else if str_eq s "trace_marked"
    then ok trace_marked
    else err (invalid_reason (Sources.as_str Source.hippocampus) s)

-- The parser accepts the text of each value.
pub from_str-as_str : (x : HippocampusReason) → from_str (as_str x) ≡ ok x
unfolding from_str as_str
from_str-as_str written = refl
from_str-as_str overwritten = refl
from_str-as_str deleted = refl
from_str-as_str renamed = refl
from_str-as_str searched = refl
from_str-as_str trace_marked = refl

-- The parser accepts no other text.
pub as_str-from_str : (s : String) (x : HippocampusReason) → from_str s ≡ ok x → s ≡ as_str x
unfolding from_str as_str
as_str-from_str s x = read_lem as_str s (from_str s) x (
    test-IsReadFrom as_str s written _ (
      test-IsReadFrom as_str s overwritten _ (
        test-IsReadFrom as_str s deleted _ (
          test-IsReadFrom as_str s renamed _
            (test-IsReadFrom as_str s searched _ (test-IsReadFrom as_str s trace_marked _ tt))))))
