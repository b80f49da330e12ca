-- ===== src/Types/Scopes.antt =====
-- src/types.rs: the closed enum of scopes, its texts and its parser.
use satan_attrd.Prelude.{String, ◌≡◌, refl, str_eq, if◌then◌else◌}
use satan_attrd.Types.Reading.{test-IsReadFrom, read_lem}
use satan_attrd.Error.{Result, ok, err, invalid_scope}

pub data Scope : Type 0 where
  global : Scope

unfoldable pub as_str : Scope → String
as_str global = "global"

unfoldable pub from_str : String → Result Scope
from_str s = if str_eq s "global" then ok global else err (invalid_scope s)

-- The parser accepts the text of each value.
pub from_str-as_str : (x : Scope) → from_str (as_str x) ≡ ok x
unfolding from_str as_str
from_str-as_str global = refl

-- The parser accepts no other text.
pub as_str-from_str : (s : String) (x : Scope) → from_str s ≡ ok x → s ≡ as_str x
unfolding from_str as_str
as_str-from_str s x = read_lem as_str s (from_str s) x (test-IsReadFrom as_str s global _ tt)
