-- ===== src/Rpc/Version.antt =====
-- Which payloads the version check accepts, and that the daemon's own stamp is one.
use satan_attrd.Prelude.{ℕ, String, true, Option, none, some, ◌≡◌, ◌↔◌, inl, inr, refl, arith, List}
use satan_attrd.Extern.{Extern}
use satan_attrd.Rpc.{
  Refusal, Checked, accepted, refused, check_major, check_text, check_schema_major,
  with_schema_version, payload_schema_version,
}
use satan_attrd.Rpc.Numbers.{before_dot, parse_u32}
use satan_attrd.Rpc.Numbers.Major.{has_dot, IsBeforeDot, IsOne, major-IsOne, IsOne-major}

-- A payload has a version when the field is there and is a text.
abbrev version_text : (X : Extern) → Option X.Value → Option String
version_text X none = none
version_text X (some v) = X.as_str v

-- The payload's `schema_version` is a text that has the number 1 before its first dot.
abbrev pub HasMajorOne : (X : Extern) → X.Value → Type 0
HasMajorOne X v =
    (s : String) × (version_text X (X.get v "schema_version") ≡ some s)
    × (m : String) × IsBeforeDot m s
    × IsOne m

major_only : (o : Option ℕ) → check_major o ≡ accepted → o ≡ some 1
major_only none h = ground arith
major_only (some n) h = ground arith

text_only :
    (o : Option String)
    → check_text o ≡ accepted
    → (s : String) × (o ≡ some s) × (parse_u32 (before_dot s) ≡ some 1)
unfolding check_text
text_only none h = ground arith
text_only (some s) h = (s, refl, major_only (parse_u32 (before_dot s)) h)

abbrev check_field : (X : Extern) → Option X.Value → Checked
check_field X o = elim o [
  | none ↦ refused Refusal.missing_version
  | some v ↦ check_text (X.as_str v)
]

field_only :
    (X : Extern) (o : Option X.Value)
    → check_field X o ≡ accepted
    → (s : String) × (version_text X o ≡ some s) × (parse_u32 (before_dot s) ≡ some 1)
field_only X none h = ground arith
field_only X (some v) h = text_only (X.as_str v) h

text_accepted :
    (o : Option String) (s : String)
    → o ≡ some s
    → parse_u32 (before_dot s) ≡ some 1
    → check_text o ≡ accepted
unfolding check_text
text_accepted o s e h = rw (e, h) refl

field_accepted :
    (X : Extern) (o : Option X.Value) (s : String)
    → version_text X o ≡ some s
    → parse_u32 (before_dot s) ≡ some 1
    → check_field X o ≡ accepted
field_accepted X none s e h = ground (arith, e)
field_accepted X (some v) s e h = text_accepted (X.as_str v) s e h

pub check_schema_major_iff :
    (X : Extern) (v : X.Value) → (check_schema_major X v ≡ accepted) ↔ HasMajorOne X v
unfolding check_schema_major
check_schema_major_iff X v = (
  λ h.
      let (s, e, k) = field_only X (X.get v "schema_version") h in
      let (m, before, one) = major-IsOne s k in (s, e, m, before, one),
  λ (s, e, m, before, one).
      field_accepted X (X.get v "schema_version") s e (IsOne-major m s before one),
)

-- What `serde_json` documents of objects and texts.
pub record IsJson (X : Extern) : Type 0 where
  pub get_set :
      (k : String) (x v : X.Value) → X.is_object v ≡ true → X.get (X.set_field k x v) k ≡ some x
  pub as_str_text : (s : String) → X.as_str (X.text s) ≡ some s
  pub object_is : (l : List (String × X.Value)) → X.is_object (X.object l) ≡ true

-- Under what the JSON library documents, an object that the daemon stamps passes its own check.
pub with_schema_version-accepted :
    (X : Extern)
    → IsJson X
    → (v : X.Value) → X.is_object v ≡ true
    → check_schema_major X (with_schema_version X v) ≡ accepted
unfolding with_schema_version has_dot
with_schema_version-accepted X laws v h = (check_schema_major_iff X (with_schema_version X v)).1 (
  payload_schema_version,
  rw (h, laws.get_set "schema_version" (X.text payload_schema_version) v h)
      (laws.as_str_text payload_schema_version),
  "1",
  (refl, inr ("0", refl)),
  (0, inl refl),
)
