-- ===== src/Dispatcher/Weight.antt =====
-- src/dispatcher.rs: the confidence and its weight.
pub mod Bounds
pub mod Text
use satan_attrd.Prelude.{String, str_eq, str_append, if◌then◌else◌}
use satan_attrd.Prelude.Int.{neg}
use satan_attrd.F64.{F64, mul, clamp}
use satan_attrd.Error.{Result, ok, err, invalid_argument}
use satan_attrd.Tuning.{
  confidence_low, confidence_medium, confidence_high, confidence_magnitude_cap,
}

pub data Confidence : Type 0 where
  low medium high : Confidence

unfoldable pub weight : Confidence → F64
unfolding confidence_low confidence_medium confidence_high
weight low = confidence_low
weight medium = confidence_medium
weight high = confidence_high

unfoldable pub as_str : Confidence → String
as_str low = "low"
as_str medium = "medium"
as_str high = "high"

unfoldable pub parse : String → Result Confidence
parse s =
    if str_eq s "low"
    then ok low
    else if str_eq s "medium"
    then ok medium
    else if str_eq s "high"
    then ok high
    else err (invalid_argument (str_append "confidence must be low|medium|high, got " s))

unfoldable pub weight_delta : F64 → Confidence → F64
unfolding weight mul clamp neg confidence_magnitude_cap
weight_delta base conf =
    clamp (mul base (weight conf)) (neg confidence_magnitude_cap) confidence_magnitude_cap
