-- ===== src/Types/Maintenance.antt =====
-- src/types.rs: the closed enum of maintenance reasons, its texts and its parser.
use satan_attrd.Prelude.{String, ◌≡◌, refl, str_eq, if◌then◌else◌}
use satan_attrd.Types.Reading.{test-IsReadFrom, read_lem}
use satan_attrd.Error.{Result, ok, err, invalid_reason}
use satan_attrd.Types.Sources
use satan_attrd.Types.Sources.{Source}

pub data MaintenanceReason : Type 0 where
  idle_decay : MaintenanceReason

unfoldable pub as_str : MaintenanceReason → String
as_str idle_decay = "idle_decay"

unfoldable pub from_str : String → Result MaintenanceReason
unfolding Sources.as_str
from_str s =
    if str_eq s "idle_decay"
    then ok idle_decay
    else err (invalid_reason (Sources.as_str Source.maintenance) s)

-- The parser accepts the text of each value.
pub from_str-as_str : (x : MaintenanceReason) → from_str (as_str x) ≡ ok x
unfolding from_str as_str
from_str-as_str idle_decay = refl

-- The parser accepts no other text.
pub as_str-from_str : (s : String) (x : MaintenanceReason) → from_str s ≡ ok x → s ≡ as_str x
unfolding from_str as_str
as_str-from_str s x = read_lem as_str s (from_str s) x (test-IsReadFrom as_str s idle_decay _ tt)
