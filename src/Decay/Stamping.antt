-- ===== src/Decay/Stamping.antt =====
-- An event of a decay that is not disabled stamps the rows of its attribute, and no others.
use satan_attrd.Prelude.{
  String, Bool, true, false, Option, some, ◌≡◌, inl, inr, Bool-cases, if◌then◌else◌,
}
use satan_attrd.F64.{F64}
use satan_attrd.Extern.{Extern}
use satan_attrd.Types.Attribute
use satan_attrd.Types.Attribute.{AttributeName}
use satan_attrd.Types.Scopes
use satan_attrd.Types.Scopes.{Scope}
use satan_attrd.Steps.Keeps.{ReturnsIn, bind-ReturnsIn, holds_in}
use satan_attrd.Store.Event.{EventInsert, in_range}
use satan_attrd.Store.Database.{Database, Db, pure}
use satan_attrd.Store.Database.Upholds as Tables
use satan_attrd.Store.Operations.{upsert_row, upsert_attribute, bump_last_decay_at}
use satan_attrd.Store.Operations.Preserves.{enqueue_audit_event-Preserves}
use satan_attrd.Rpc.{enqueue_audit_event}
use satan_attrd.RunLoop.Audit.{build_audit_payload}
use satan_attrd.RunLoop.Write.{project}
use satan_attrd.RunLoop.Process.Disabled.{attributes_of, attributes_of-IsBeside}
use satan_attrd.Decay.Views.{store-Keeps}
use satan_attrd.Decay.Disabled.{insert_decay-Preserves}
use satan_attrd.Decay.Returns.{statement-ReturnsIn, kept-ReturnsIn}
use satan_attrd.Decay.Stamps.{HasStamps, IsPending, put_row-IsPending, stamped-HasStamps}
use satan_attrd.Decay.Tick.{DecayScheduler, store, insert_decay, bump, apply_event}

module _ {X : Extern} (P : Option X.DateTime → Type 0) (n : String) where
  abbrev pub Pending : String → String → Database X → Type 0
  Pending scope name db = IsPending P scope name n db.attributes

  abbrev pub Stamped : String → Database X → Type 0
  Stamped scope db = HasStamps P scope n db.attributes

  upsert_row-Pending :
      (scope name : String) (v : F64) (t : X.DateTime) (e : X.Value) (db : Database X)
      → Pending scope name db
      → Pending scope name (upsert_row scope name v t e db).1
  unfolding upsert_row
  upsert_row-Pending scope name v t e db p = elim (Bool-cases (in_range v)) [
    | inl inside ↦ rw inside (put_row-IsPending P scope n name v t e db.attributes p)
    | inr outside ↦ rw outside p
  ]

  either :
      (Q : Database X → Type 0) (b : Bool) (m k : Db X (Unit {0}))
      → Tables.Upholds Q m
      → Tables.Upholds Q k
      → Tables.Upholds Q (if b then m else k)
  either Q true m k hm hk = hm
  either Q false m k hm hk = hk

  project-Pending :
      (ev : EventInsert X)
      → Tables.Upholds (Pending (Scopes.as_str ev.scope) (Attribute.as_str ev.name)) (project ev)
  unfolding project upsert_attribute
  project-Pending ev =
      either _ ev.disabled (pure tt) _ (λ w p. p)
        (either _ (in_range ev.new_value) _ _
          (Tables.statement-Upholds (Pending (Scopes.as_str ev.scope) (Attribute.as_str ev.name)) _
            (upsert_row-Pending (Scopes.as_str ev.scope) (Attribute.as_str ev.name) ev.new_value
              ev.ts ev.evidence_json))
          (λ w p. p))

  bump-Stamped :
      (ev : EventInsert X)
      → ev.disabled ≡ false
      → P (some ev.ts)
      → (s : DecayScheduler X)
      → Pending (Scopes.as_str ev.scope) (Attribute.as_str ev.name) s.world.db
      → ReturnsIn (λ _ t. Stamped (Scopes.as_str ev.scope) t.world.db) (store (bump ev) s)
  unfolding bump bump_last_decay_at
  bump-Stamped ev on p s h = rw on (
      statement-ReturnsIn (λ _ db. Stamped (Scopes.as_str ev.scope) db) _ s
        (stamped-HasStamps P (Scopes.as_str ev.scope) n (Attribute.as_str ev.name) ev.ts p
          s.world.db.attributes h))

  -- Where the rows of an attribute have stamps with the property, or the event is about it, they
  -- have them after the event.
  pub apply_event-Stamped :
      (run_id : String) (ev : EventInsert X)
      → ev.disabled ≡ false
      → P (some ev.ts)
      → (s : DecayScheduler X)
      → Pending (Scopes.as_str ev.scope) (Attribute.as_str ev.name) s.world.db
      → ReturnsIn (λ _ t. Stamped (Scopes.as_str ev.scope) t.world.db) (apply_event run_id ev s)
  unfolding apply_event store
  apply_event-Stamped run_id ev on p s h =
      let scope = Scopes.as_str ev.scope in
      let name = Attribute.as_str ev.name in
      let audit = enqueue_audit_event (build_audit_payload ev) in
      bind-ReturnsIn (λ _ t. Pending scope name t.world.db) _ (store (insert_decay run_id ev)) _ s
        (kept-ReturnsIn attributes_of (IsPending P scope name n) (store (insert_decay run_id ev))
          (store-Keeps attributes_of (insert_decay run_id ev) (insert_decay-Preserves run_id ev)) s
          h)
        λ _ t h1.
          bind-ReturnsIn (λ _ t. Pending scope name t.world.db) _ (store (project ev)) _ t
            (holds_in (λ t. Pending scope name t.world.db) (store (project ev) t)
              (project-Pending ev t.world h1))
            λ _ u h2.
              bind-ReturnsIn (λ _ t. Pending scope name t.world.db) _ (store audit) _ u
                (kept-ReturnsIn attributes_of (IsPending P scope name n) (store audit)
                  (store-Keeps attributes_of audit (
                    enqueue_audit_event-Preserves attributes_of attributes_of-IsBeside
                      (build_audit_payload ev)))
                  u h2)
                λ _ v h3. bump-Stamped ev on p v h3
