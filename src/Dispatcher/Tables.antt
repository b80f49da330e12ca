-- ===== src/Dispatcher/Tables.antt =====
-- src/dispatcher.rs: the base tables as the dispatchers walk them.
use satan_attrd.Prelude.{◌≡◌, refl, All, Bool, ◌&&◌, List, [], ◌∷◌, unwrap_or, if◌then◌else◌}
use satan_attrd.F64.{F64, eq, nought}
use satan_attrd.Types.Attribute.{
  AttributeName, curiosity, friction, shame, doubt, hunger, suspicion, brooding, metamorphosis,
}
use satan_attrd.Types.Hippocampus.{
  HippocampusReason, written, overwritten, deleted, renamed, searched, trace_marked,
}
use satan_attrd.Types.Sensor.{
  SensorReason, segment_backlog, typing_active, typing_idle, reading, ask_suppressed,
  ask_uncorrelated,
}
use satan_attrd.Types.Outcome.{worked, neutral, ignored, contradicted, harmful}
use satan_attrd.Types.Outcome.{OutcomeReason}
use satan_attrd.Tuning.{
  row, attr_order, outcome_base_deltas, hippocampus_base_deltas, sensor_base_deltas,
}
use satan_attrd.Dispatcher.Input.{Projection}

-- `base_deltas`
abbrev pub base_deltas : OutcomeReason → List F64
base_deltas = outcome_base_deltas

-- `iter().zip()`
abbrev pub zip : {A B : Type 0} → List A → List B → List (A × B)
zip [] ys = []
zip (x ∷ xs) [] = []
zip (x ∷ xs) (y ∷ ys) = (x, y) ∷ zip xs ys

-- The names whose base is not zero.
unfoldable pub nonzero_names : List (AttributeName × F64) → List AttributeName
nonzero_names [] = []
nonzero_names ((name, d) ∷ l) =
    let rest = nonzero_names l in if eq d nought then rest else name ∷ rest

unfoldable pub affected : OutcomeReason → List AttributeName
unfolding nonzero_names outcome_base_deltas
affected reason = nonzero_names (zip attr_order (base_deltas reason))

-- `projection.get(name).copied().unwrap_or(0.0)`
abbrev pub value_at : Projection → AttributeName → F64
value_at projection name = unwrap_or (projection name) nought

-- The test of `continue` on one base, and on two.
abbrev pub zero_base : AttributeName × F64 → Bool
zero_base (name, base) = eq base nought

abbrev pub zero_bases : AttributeName × (F64 × F64) → Bool
zero_bases (name, (new_base, prior_base)) = eq new_base nought && eq prior_base nought

-- The entry of a row under a name, by its column.
unfoldable pub base_of : List F64 → AttributeName → F64
base_of (a ∷ b ∷ c ∷ d ∷ e ∷ f ∷ g ∷ h ∷ []) curiosity = a
base_of (a ∷ b ∷ c ∷ d ∷ e ∷ f ∷ g ∷ h ∷ []) friction = b
base_of (a ∷ b ∷ c ∷ d ∷ e ∷ f ∷ g ∷ h ∷ []) shame = c
base_of (a ∷ b ∷ c ∷ d ∷ e ∷ f ∷ g ∷ h ∷ []) doubt = d
base_of (a ∷ b ∷ c ∷ d ∷ e ∷ f ∷ g ∷ h ∷ []) hunger = e
base_of (a ∷ b ∷ c ∷ d ∷ e ∷ f ∷ g ∷ h ∷ []) suspicion = f
base_of (a ∷ b ∷ c ∷ d ∷ e ∷ f ∷ g ∷ h ∷ []) brooding = g
base_of (a ∷ b ∷ c ∷ d ∷ e ∷ f ∷ g ∷ h ∷ []) metamorphosis = h
base_of _ _ = nought

abbrev pub InColumn : List F64 → AttributeName × F64 → Type 0
InColumn row (name, base) = base ≡ base_of row name

columns :
    (a b c d e f g h : F64)
    → All (InColumn (row a b c d e f g h)) (zip attr_order (row a b c d e f g h))
unfolding base_of
columns a b c d e f g h = (refl, (refl, (refl, (refl, (refl, (refl, (refl, (refl, tt))))))))

-- Along the walk every base is the entry of its name's column.
pub outcome_columns :
    (r : OutcomeReason)
    → All (InColumn (outcome_base_deltas r)) (zip attr_order (outcome_base_deltas r))
unfolding outcome_base_deltas
outcome_columns worked = columns _ _ _ _ _ _ _ _
outcome_columns neutral = columns _ _ _ _ _ _ _ _
outcome_columns ignored = columns _ _ _ _ _ _ _ _
outcome_columns contradicted = columns _ _ _ _ _ _ _ _
outcome_columns harmful = columns _ _ _ _ _ _ _ _

pub hippocampus_columns :
    (r : HippocampusReason)
    → All (InColumn (hippocampus_base_deltas r)) (zip attr_order (hippocampus_base_deltas r))
unfolding hippocampus_base_deltas
hippocampus_columns written = columns _ _ _ _ _ _ _ _
hippocampus_columns overwritten = columns _ _ _ _ _ _ _ _
hippocampus_columns deleted = columns _ _ _ _ _ _ _ _
hippocampus_columns renamed = columns _ _ _ _ _ _ _ _
hippocampus_columns searched = columns _ _ _ _ _ _ _ _
hippocampus_columns trace_marked = columns _ _ _ _ _ _ _ _

pub sensor_columns :
    (r : SensorReason)
    → All (InColumn (sensor_base_deltas r)) (zip attr_order (sensor_base_deltas r))
unfolding sensor_base_deltas
sensor_columns segment_backlog = columns _ _ _ _ _ _ _ _
sensor_columns typing_active = columns _ _ _ _ _ _ _ _
sensor_columns typing_idle = columns _ _ _ _ _ _ _ _
sensor_columns reading = columns _ _ _ _ _ _ _ _
sensor_columns ask_suppressed = columns _ _ _ _ _ _ _ _
sensor_columns ask_uncorrelated = columns _ _ _ _ _ _ _ _
