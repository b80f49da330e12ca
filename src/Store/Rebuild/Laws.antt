-- ===== src/Store/Rebuild/Laws.antt =====
-- What a rebuild leaves in the table of attributes.
use satan_attrd.Prelude.{
  String, Bool, true, false, Option, none, some, List, [], ◌∷◌, All, map, length, ◌≡◌, refl,
  if◌then◌else◌, ◌∙◌, ap,
}
use satan_attrd.F64.{nought}
use satan_attrd.Error.{Error, ok, err}
use satan_attrd.Extern.{Extern}
use satan_attrd.Store.Event.{in_range}
use satan_attrd.Store.Database.{AttributeRow, EventRow, Database, World, statement, pure, ◌>>=◌}
use satan_attrd.Store.Operations.{put_row, upsert_row}
use satan_attrd.Store.Database.Calm.{
  calm, statement-calm, bind_ok, transaction_ok, transaction_atomic,
}
use satan_attrd.Store.Rebuild.{
  zeroed, zero_rows, replayed, replay, rebuild_projection, rebuild_steps, control,
}
use satan_attrd.Store.Rebuild.Content.{
  Content, content_at, decay_of, same_key, content_at-put_row, content_at-zeroed,
}

module _ {X : Extern} where
  -- Whichever statement of a rebuild fails, the tables are as they were before it.
  pub rebuild_atomic :
      (include_disabled : Bool) (w : World X) (e : Error)
      → (rebuild_projection include_disabled w).0 ≡ err e
      → (rebuild_projection include_disabled w).1.db ≡ w.db
  unfolding rebuild_projection
  rebuild_atomic include_disabled w e h = transaction_atomic (rebuild_steps include_disabled) w e h

  unfoldable pub put_all : List (EventRow X) → List (AttributeRow X) → List (AttributeRow X)
  put_all [] rows = rows
  put_all (ev ∷ evs) rows =
      put_all evs (put_row ev.scope ev.name ev.new_value ev.ts ev.evidence_json rows)

  abbrev pub IsStorable : EventRow X → Type 0
  IsStorable ev = in_range ev.new_value ≡ true

  upsert_row_lem :
      (ev : EventRow X) (db : Database X)
      → IsStorable ev
      → upsert_row ev.scope ev.name ev.new_value ev.ts ev.evidence_json db ≡ (
        ok tt,
        record db {
          attributes = put_row ev.scope ev.name ev.new_value ev.ts ev.evidence_json db.attributes;
        },
      )
  unfolding upsert_row
  upsert_row_lem ev db h = rw h refl

  replay_lem :
      (evs : List (EventRow X)) (db : Database X)
      → All IsStorable evs
      → replay evs (calm db) ≡ (ok tt, calm (record db { attributes = put_all evs db.attributes }))
  unfolding replay put_all
  replay_lem [] db h = refl
  replay_lem (ev ∷ evs) db h =
      let db' = record db {
        attributes = put_row ev.scope ev.name ev.new_value ev.ts ev.evidence_json db.attributes;
      } in
      bind_ok (statement (upsert_row ev.scope ev.name ev.new_value ev.ts ev.evidence_json))
        (λ _. replay evs) (calm db) (calm db') tt
        (statement-calm (upsert_row ev.scope ev.name ev.new_value ev.ts ev.evidence_json) db db'
          (ok tt) (upsert_row_lem ev db h.0))
      ∙ replay_lem evs db' h.1

  -- The last event for a key.
  unfoldable pub last_event : String → String → List (EventRow X) → Option (EventRow X)
  last_event s n [] = none
  last_event s n (ev ∷ evs) = elim (last_event s n evs) [
    | some later ↦ some later
    | none ↦ if same_key ev.scope ev.name s n then some ev else none
  ]

  abbrev after : Option (EventRow X) → Option (Content X) → Option (Content X)
  after none c = c
  after (some ev) c = some (record {
    value = ev.new_value;
    updated_at = ev.ts;
    evidence_json = ev.evidence_json;
    last_decay_at = decay_of c;
  })

  after_step :
      (later : Option (EventRow X)) (same : Bool) (ev : EventRow X) (c : Option (Content X))
      → after later (if same then after (some ev) c else c)
        ≡ after (elim later [ some l ↦ some l | none ↦ if same then some ev else none ]) c
  after_step none true ev c = refl
  after_step none false ev c = refl
  after_step (some l) true ev c = refl
  after_step (some l) false ev c = refl

  content_at-put_all :
      (s n : String) (evs : List (EventRow X)) (rows : List (AttributeRow X))
      → content_at s n (put_all evs rows) ≡ after (last_event s n evs) (content_at s n rows)
  unfolding put_all last_event
  content_at-put_all s n [] rows = refl
  content_at-put_all s n (ev ∷ evs) rows =
      rw
        (
          content_at-put_all s n evs
              (put_row ev.scope ev.name ev.new_value ev.ts ev.evidence_json rows),
          content_at-put_row s n ev.scope ev.name ev.new_value ev.ts ev.evidence_json rows,
        )
        (after_step (last_event s n evs) (same_key ev.scope ev.name s n) ev (content_at s n rows))

  -- What the log alone says about a key that has a row, or an event.
  abbrev pub rebuilt : X.DateTime → Option (EventRow X) → Option (Content X) → Option (Content X)
  rebuilt now (some ev) c = some (record {
    value = ev.new_value;
    updated_at = ev.ts;
    evidence_json = ev.evidence_json;
    last_decay_at = none;
  })
  rebuilt now none (some c) = some (record {
    value = nought;
    updated_at = now;
    evidence_json = X.object [];
    last_decay_at = none;
  })
  rebuilt now none none = none

  after_zeroing :
      (now : X.DateTime) (last : Option (EventRow X)) (c : Option (Content X))
      → after last (elim c [
        | none ↦ none
        | some c ↦ some (record {
          value = nought;
          updated_at = now;
          evidence_json = X.object [];
          last_decay_at = none;
        })
      ])
        ≡ rebuilt now last c
  after_zeroing now none none = refl
  after_zeroing now none (some c) = refl
  after_zeroing now (some ev) none = refl
  after_zeroing now (some ev) (some c) = refl

  pub rebuild_lem :
      (include_disabled : Bool) (db : Database X)
      → All IsStorable (replayed include_disabled db)
      → let evs = replayed include_disabled db in
        rebuild_projection include_disabled (calm db) ≡ (
          ok (length evs),
          calm (record db { attributes = put_all evs (map (zeroed db.now) db.attributes) }),
        )
  unfolding rebuild_projection rebuild_steps statement zero_rows replayed
  rebuild_lem include_disabled db h =
      let evs = replayed include_disabled db in
      let db' = record db { attributes = put_all evs (map (zeroed db.now) db.attributes) } in
      transaction_ok (rebuild_steps include_disabled) (calm db) (calm db') (length evs) (
        bind_ok (replay evs) (λ _. control >>= λ _. pure (length evs)) (calm (zero_rows db))
          (calm db') tt (replay_lem evs (zero_rows db) h))

  -- On a connection that does not fail, and where the selected events hold values in [0, 1], a
  -- rebuild returns the number of selected events and leaves at each key what the log alone says:
  -- the value, time and evidence of the last selected event for it in replay order; or zero, where
  -- there is no such event, in a row that was there before; and never a decay stamp. No earlier
  -- value of the table is left.
  pub rebuild_lookup :
      (include_disabled : Bool) (db : Database X) (s n : String)
      → All IsStorable (replayed include_disabled db)
      → ((rebuild_projection include_disabled (calm db)).0
          ≡ ok (length (replayed include_disabled db)))
        × (content_at s n (rebuild_projection include_disabled (calm db)).1.db.attributes
            ≡ rebuilt db.now
                (last_event s n (replayed include_disabled db))
                (content_at s n db.attributes))
  rebuild_lookup include_disabled db s n h =
      let evs = replayed include_disabled db in
      rw (rebuild_lem include_disabled db h) (
        refl,
        content_at-put_all s n evs (map (zeroed db.now) db.attributes)
            ∙ (ap (after (last_event s n evs)) (content_at-zeroed s n db.now db.attributes)
                ∙ after_zeroing db.now (last_event s n evs) (content_at s n db.attributes)),
      )
