-- ===== src/Tuning.antt =====
-- src/tuning.rs: magnitudes, confidence multipliers and the three delta tables.
use satan_attrd.Prelude.{◌*◌, ◌^◌, List, [], ◌∷◌}
use satan_attrd.Prelude.Int.{pos, neg}
use satan_attrd.F64.{F64, nought, one}
use satan_attrd.Types.Attribute.{
  AttributeName, curiosity, friction, shame, doubt, hunger, suspicion, brooding, metamorphosis,
}
use satan_attrd.Types.Outcome.{OutcomeReason, worked, neutral, ignored, contradicted, harmful}
use satan_attrd.Types.Hippocampus.{
  HippocampusReason, written, overwritten, deleted, renamed, searched, trace_marked,
}
use satan_attrd.Types.Sensor.{
  SensorReason, segment_backlog, typing_active, typing_idle, reading, ask_suppressed,
  ask_uncorrelated,
}

-- Each literal is the binary64 value nearest to the decimal, as its 53-bit significand and its
-- place: 0.025 is 0x1.999999999999a * 2^-6.
unfoldable pub tiny : F64
tiny = pos (0x1999999999999a * 2 ^ 1016)

unfoldable pub small : F64
small = pos (0x1999999999999a * 2 ^ 1017)

unfoldable pub medium : F64
medium = pos (0x13333333333333 * 2 ^ 1019)

unfoldable pub high : F64
high = pos (0x13333333333333 * 2 ^ 1020)

unfoldable pub confidence_low : F64
confidence_low = pos (2 ^ 1073)

unfoldable pub confidence_medium : F64
unfolding one
confidence_medium = one

unfoldable pub confidence_high : F64
confidence_high = pos (3 * 2 ^ 1073)

unfoldable pub confidence_magnitude_cap : F64
unfolding high
confidence_magnitude_cap = high

-- The canonical order of the columns.
abbrev pub attr_order : List AttributeName
attr_order =
    curiosity ∷ friction ∷ shame ∷ doubt ∷ hunger ∷ suspicion ∷ brooding ∷ metamorphosis ∷ []

abbrev pub row : F64 → F64 → F64 → F64 → F64 → F64 → F64 → F64 → List F64
row a b c d e f g h = a ∷ b ∷ c ∷ d ∷ e ∷ f ∷ g ∷ h ∷ []

unfoldable pub outcome_base_deltas : OutcomeReason → List F64
unfolding tiny small medium high neg
outcome_base_deltas worked =
    row nought nought (neg tiny) (neg small) (neg small) nought small nought
outcome_base_deltas neutral = row nought nought nought nought nought nought nought nought
outcome_base_deltas ignored = row nought (neg small) small small nought nought small nought
outcome_base_deltas contradicted =
    row nought (neg medium) medium medium nought (neg small) nought small
outcome_base_deltas harmful = row nought (neg high) high high nought nought nought medium

unfoldable pub hippocampus_base_deltas : HippocampusReason → List F64
unfolding tiny neg
hippocampus_base_deltas written = row nought nought nought nought nought nought (neg tiny) nought
hippocampus_base_deltas renamed = row nought nought nought nought nought nought (neg tiny) nought
hippocampus_base_deltas overwritten =
    row nought nought (neg tiny) nought nought nought (neg tiny) nought
hippocampus_base_deltas deleted =
    row nought nought (neg tiny) nought nought nought (neg tiny) nought
hippocampus_base_deltas searched = row nought nought nought nought nought tiny nought nought
hippocampus_base_deltas trace_marked =
    row (neg tiny) nought nought nought nought nought (neg tiny) nought

unfoldable pub sensor_base_deltas : SensorReason → List F64
unfolding tiny small
sensor_base_deltas segment_backlog = row small nought nought nought nought nought nought nought
sensor_base_deltas typing_active = row nought nought nought nought small nought nought nought
sensor_base_deltas typing_idle = row nought nought nought nought tiny nought nought nought
sensor_base_deltas reading = row nought nought nought nought tiny nought nought nought
sensor_base_deltas ask_suppressed = row tiny nought nought nought nought nought nought tiny
sensor_base_deltas ask_uncorrelated = row nought nought nought tiny nought nought nought tiny
