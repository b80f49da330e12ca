-- ===== src/RunLoop/Audit.antt =====
-- src/run_loop.rs: the payload of an audit event.
pub mod Version
use satan_attrd.Prelude.{[], ◌∷◌}
use satan_attrd.Extern.{Extern}
use satan_attrd.Types.Attribute
use satan_attrd.Types.Scopes
use satan_attrd.Store.Event
use satan_attrd.Store.Event.{EventInsert, caps_json}
use satan_attrd.Store.Operations.{event_id}
use satan_attrd.Rpc.{with_schema_version}

unfoldable pub build_audit_payload : {X : Extern} → EventInsert X → X.Value
build_audit_payload {X} ev = with_schema_version X (
    X.object (
      ("id", X.text (event_id ev))
      ∷ ("ts", X.text (X.rfc3339 ev.ts))
      ∷ ("scope", X.text (Scopes.as_str ev.scope))
      ∷ ("name", X.text (Attribute.as_str ev.name))
      ∷ ("old", X.number ev.old_value)
      ∷ ("new", X.number ev.new_value)
      ∷ ("delta", X.number (Event.delta ev))
      ∷ ("source", X.text ev.source)
      ∷ ("reason", X.text ev.reason)
      ∷ ("evidence", ev.evidence_json)
      ∷ ("caps_applied", caps_json ev)
      ∷ ("disabled", X.boolean ev.disabled)
      ∷ []))
