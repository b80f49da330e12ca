-- ===== src/Types/Caps.antt =====
-- src/types.rs: the names of the caps.
use satan_attrd.Prelude.{String}

pub data Cap : Type 0 where
  friction_cap range_clamp : Cap

unfoldable pub as_str : Cap → String
as_str friction_cap = "friction_cap"
as_str range_clamp = "range_clamp"
