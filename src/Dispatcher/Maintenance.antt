-- ===== src/Dispatcher/Maintenance.antt =====
-- src/dispatcher.rs: the maintenance dispatcher (idle decay).
pub mod Range
use satan_attrd.Prelude.{◌*◌, ◌^◌, Bool, not, Option, none, some, List, [], ◌∷◌, if◌then◌else◌}
use satan_attrd.Prelude.Int.{ℤ, pos, neg}
use satan_attrd.F64.{F64, add, lt, nought}
use satan_attrd.Extern.{Extern}
use satan_attrd.Types.Scopes.{global}
use satan_attrd.Types.Sources
use satan_attrd.Types.Maintenance
use satan_attrd.Types.Caps.{Cap, range_clamp}
use satan_attrd.Store.Counter
use satan_attrd.Store.Counter.{Counter}
use satan_attrd.Store.Event.{EventInsert}
use satan_attrd.Dispatcher.Input.{MaintenanceInput}
use satan_attrd.Dispatcher.Emit.{Panics}

-- -0.01, whose binary64 value is -0x1.47ae147ae147b * 2^-7.
unfoldable pub decay_delta : F64
unfolding neg
decay_delta = neg (pos (0x147ae147ae147b * 2 ^ 1015))

unfoldable pub decayed : F64 → F64 × List Cap
decayed old_value =
    let new_value_raw = add old_value decay_delta in
    if lt new_value_raw nought then (nought, range_clamp ∷ []) else (new_value_raw, [])

module _ {X : Extern} where
  -- The event for a row with a value.
  unfoldable pub maintenance_event : MaintenanceInput X → F64 → ℤ → EventInsert X
  unfolding Sources.as_str Maintenance.as_str
  maintenance_event input old_value seq = record {
    run_id = input.run_id;
    seq = seq;
    ts = input.ts;
    scope = global;
    name = input.target;
    old_value = old_value;
    new_value = (decayed old_value).0;
    source = Sources.as_str Sources.maintenance;
    reason = Maintenance.as_str input.reason;
    evidence_json = X.object (
        ("days_since_last", X.integer input.days_since_last)
        ∷ ("tick_utc_day", X.text (X.utc_day input.ts))
        ∷ []);
    caps_applied = (decayed old_value).1;
    disabled = not input.enabled;
  }

  -- A target that the projection lacks is a panic, before a number is allocated.
  unfoldable pub dispatch_maintenance : MaintenanceInput X → Counter → Panics (List (EventInsert X))
  dispatch_maintenance input counter = elim (input.projection input.target) [
    | none ↦ none
    | some old_value ↦ elim (Counter.next counter) [
      | none ↦ none
      | some (seq, counter') ↦ some (maintenance_event input old_value seq ∷ [], counter')
    ]
  ]
