-- ===== src/Store/Event.antt =====
-- src/store.rs: the event that is ready for insertion, and its structural check.
use satan_attrd.Prelude.{String, Bool, ◌&&◌, List, map, if◌then◌else◌}
use satan_attrd.Prelude.Int.{ℤ}
use satan_attrd.F64.{F64, sub, le, nought, one}
use satan_attrd.Error.{Result, ok, err, value_out_of_range}
use satan_attrd.Extern.{Extern}
use satan_attrd.Types.Scopes.{Scope}
use satan_attrd.Types.Attribute.{AttributeName}
use satan_attrd.Types.Caps
use satan_attrd.Types.Caps.{Cap}

pub record EventInsert (X : Extern) : Type 0 where
  pub run_id : String
  pub seq : ℤ
  pub ts : X.DateTime
  pub scope : Scope
  pub name : AttributeName
  pub old_value : F64
  pub new_value : F64
  pub source : String
  pub reason : String
  pub evidence_json : X.Value
  pub caps_applied : List Cap
  pub disabled : Bool

-- `(0.0..=1.0).contains(&value)`
abbrev pub in_range : F64 → Bool
in_range x = le nought x && le x one

module _ {X : Extern} where
  unfoldable pub delta : EventInsert X → F64
  delta ev = sub ev.new_value ev.old_value

  unfoldable pub validate : EventInsert X → Result (Unit {0})
  validate ev =
      if in_range ev.old_value
      then if in_range ev.new_value then ok tt else err (value_out_of_range ev.new_value)
      else err (value_out_of_range ev.old_value)

  unfoldable pub caps_json : EventInsert X → X.Value
  unfolding Caps.as_str
  caps_json ev = X.array (map (λ c. X.text (Caps.as_str c)) ev.caps_applied)
