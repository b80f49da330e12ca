-- ===== src/Error.antt =====
-- src/error.rs, and what the program reads of the errors of its libraries.
use satan_attrd.Prelude.{String, Option}
use satan_attrd.Prelude.Int.{ℤ}
use satan_attrd.F64.{F64}

-- `sqlx::Error`: a violated constraint with its name, or any other failure.
pub data SqlxError : Type 0 where
  database : Option String → SqlxError
  other : SqlxError

pub data Error : Type 0 where
  migration : String → Error
  attribute_not_found : String → String → Error
  invalid_attribute_name : String → Error
  invalid_source : String → Error
  invalid_reason : String → String → Error
  invalid_scope : String → Error
  value_out_of_range : F64 → Error
  delta_mismatch : F64 → F64 → F64 → Error
  invalid_argument : String → Error
  decay_seq_collision : String → ℤ → Error
  sqlx : SqlxError → Error
  json : Error

pub data Result {ℓ} (A : Type ℓ) : Type ℓ where
  ok : A → Result A
  err : Error → Result A
