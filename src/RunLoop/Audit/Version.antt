-- ===== src/RunLoop/Audit/Version.antt =====
-- The version of an audit payload.
use satan_attrd.Prelude.{◌≡◌}
use satan_attrd.Extern.{Extern}
use satan_attrd.Store.Event.{EventInsert}
use satan_attrd.Rpc.{accepted, check_schema_major}
use satan_attrd.Rpc.Version.{IsJson, with_schema_version-accepted}
use satan_attrd.RunLoop.Audit.{build_audit_payload}

-- Under what the JSON library documents, every audit payload passes the version check.
pub build_audit_payload-accepted :
    (X : Extern)
    → IsJson X
    → (ev : EventInsert X) → check_schema_major X (build_audit_payload ev) ≡ accepted
unfolding build_audit_payload
build_audit_payload-accepted X laws ev = with_schema_version-accepted X laws _ (laws.object_is _)
