-- ===== src/Rpc.antt =====
-- src/rpc.rs: the version of a payload, and the queue of audit events.
pub mod Numbers
pub mod Version
use satan_attrd.Prelude.{
  ℕ, String, Bool, Option, none, some, List, [], ◌∷◌, ◌++◌, ◌==◌, if◌then◌else◌,
}
use satan_attrd.Prelude.Int.{ℤ, pos, ◌+ℤ◌, leb_ℤ}
use satan_attrd.Error.{Result, ok, err, sqlx, SqlxError}
use satan_attrd.Extern.{Extern}
use satan_attrd.Store.Counter.{i32_max}
use satan_attrd.Store.Id.{i32_text}
use satan_attrd.Store.Database.{Database, Db, pure, ◌>>=◌, ◌>>◌, statement}
use satan_attrd.Rpc.Numbers.{before_dot, parse_u32}

abbrev pub audit_inbox_channel : String
audit_inbox_channel = "satan_audit_inbox"

abbrev pub payload_schema_major : ℕ
payload_schema_major = 1

abbrev pub payload_schema_version : String
payload_schema_version = "1.0"

-- Why a version is refused; the text of the message is not kept.
pub data Refusal : Type 0 where
  missing_version version_not_string malformed_major : Refusal
  major_mismatch : ℕ → Refusal

-- `Result<(), String>`
pub data Checked : Type 0 where
  accepted : Checked
  refused : Refusal → Checked

abbrev check_major : Option ℕ → Checked
check_major none = refused malformed_major
check_major (some major) =
    if major == payload_schema_major then accepted else refused (major_mismatch major)

-- The checks on a version that is a text.
unfoldable pub check_text : Option String → Checked
unfolding before_dot parse_u32
check_text none = refused version_not_string
check_text (some s) = check_major (parse_u32 (before_dot s))

module _ (X : Extern) where
  unfoldable pub check_schema_major : X.Value → Checked
  check_schema_major payload = elim (X.get payload "schema_version") [
    | none ↦ refused missing_version
    | some v ↦ check_text (X.as_str v)
  ]

  unfoldable pub with_schema_version : X.Value → X.Value
  with_schema_version payload =
      if X.is_object payload
      then X.set_field "schema_version" (X.text payload_schema_version) payload
      else payload

-- INSERT … RETURNING id, with the SERIAL of the table.
unfoldable pub insert_audit : {X : Extern} → X.Value → Database X → Result ℤ × Database X
unfolding ◌+ℤ◌
insert_audit payload db =
    if leb_ℤ db.next_audit_id i32_max
    then (
      ok db.next_audit_id,
      record db {
        audit_inbox = db.audit_inbox ++ (db.next_audit_id, payload) ∷ [];
        next_audit_id = db.next_audit_id +ℤ pos 1;
      },
    )
    else (err (sqlx (SqlxError.database none)), db)

-- `pg_notify`
unfoldable pub notify : {X : Extern} → String → String → Database X → Result (Unit {0}) × Database X
notify channel payload db =
    (ok tt, record db { notifications = db.notifications ++ (channel, payload) ∷ [] })

unfoldable pub enqueue_audit_event : {X : Extern} → X.Value → Db X ℤ
enqueue_audit_event payload = do
  id ← statement (insert_audit payload)
  statement (notify audit_inbox_channel (i32_text id))
  pure id
