-- ===== src/Types/Vocabulary.antt =====
-- src/types.rs: the enums as one vocabulary. Each has a text for a value and a parser of texts.
use satan_attrd.Prelude.{String, ◌≡◌}
use satan_attrd.Error.{Result, ok}
use satan_attrd.Types.Attribute
use satan_attrd.Types.Attribute.{AttributeName}
use satan_attrd.Types.Scopes
use satan_attrd.Types.Scopes.{Scope}
use satan_attrd.Types.Sources
use satan_attrd.Types.Sources.{Source}
use satan_attrd.Types.Outcome
use satan_attrd.Types.Outcome.{OutcomeReason}
use satan_attrd.Types.Hippocampus
use satan_attrd.Types.Hippocampus.{HippocampusReason}
use satan_attrd.Types.Sensor
use satan_attrd.Types.Sensor.{SensorReason}
use satan_attrd.Types.Maintenance
use satan_attrd.Types.Maintenance.{MaintenanceReason}

-- The parser reads back the text of each value, and what it reads is the text of the value.
pub record IsCodec {A : Type 0} (as_str : A → String) (from_str : String → Result A) : Type 0 where
  pub reads_back : (x : A) → from_str (as_str x) ≡ ok x
  pub reads_only : (s : String) (x : A) → from_str s ≡ ok x → s ≡ as_str x

-- For attribute names, scopes, sources and the four vocabularies of reasons, the parser accepts
-- exactly the texts of the values, each as its value.
pub vocabulary_codecs :
    IsCodec Attribute.as_str Attribute.from_str
    × IsCodec Scopes.as_str Scopes.from_str
    × IsCodec Sources.as_str Sources.from_str
    × IsCodec Outcome.as_str Outcome.from_str
    × IsCodec Hippocampus.as_str Hippocampus.from_str
    × IsCodec Sensor.as_str Sensor.from_str
    × IsCodec Maintenance.as_str Maintenance.from_str
vocabulary_codecs = (
  record { reads_back = Attribute.from_str-as_str; reads_only = Attribute.as_str-from_str },
  record { reads_back = Scopes.from_str-as_str; reads_only = Scopes.as_str-from_str },
  record { reads_back = Sources.from_str-as_str; reads_only = Sources.as_str-from_str },
  record { reads_back = Outcome.from_str-as_str; reads_only = Outcome.as_str-from_str },
  record { reads_back = Hippocampus.from_str-as_str; reads_only = Hippocampus.as_str-from_str },
  record { reads_back = Sensor.from_str-as_str; reads_only = Sensor.as_str-from_str },
  record { reads_back = Maintenance.from_str-as_str; reads_only = Maintenance.as_str-from_str },
)
