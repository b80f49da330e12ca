-- ===== src/Store/Operations.antt =====
-- src/store.rs: the operations on the tables of events, attributes and settings.
pub mod Preserves
pub mod Values
pub mod Log
pub mod Keys
pub mod Order
use satan_attrd.Prelude.{
  String, Bool, true, false, not, ◌&&◌, ◌||◌, Option, none, some, List, [], ◌∷◌, ◌++◌, map, str_eq,
  str_append, if◌then◌else◌,
}
use satan_attrd.Prelude.Int.{ℤ, eqb_ℤ, ltb_ℤ, leb_ℤ}
use satan_attrd.F64.{F64}
use satan_attrd.Error.{
  Error, Result, ok, err, sqlx, SqlxError, value_out_of_range, invalid_argument,
}
use satan_attrd.Extern.{Extern}
use satan_attrd.Types.Scopes
use satan_attrd.Types.Scopes.{Scope}
use satan_attrd.Types.Attribute
use satan_attrd.Types.Attribute.{AttributeName}
use satan_attrd.Store.Event
use satan_attrd.Store.Event.{EventInsert, in_range, validate, caps_json}
use satan_attrd.Store.Id.{format_event_id}
use satan_attrd.Store.Database.{
  AttributeRow, EventRow, Database, Db, pure, lift, raise, ◌>>=◌, ◌>>◌, statement,
}

-- The rows that a WHERE clause selects.
unfoldable pub select : {A : Type 0} → (A → Bool) → List A → List A
select p [] = []
select p (x ∷ xs) = let rest = select p xs in if p x then x ∷ rest else rest

abbrev pub any : {A : Type 0} → (A → Bool) → List A → Bool
any p [] = false
any p (x ∷ xs) = p x || any p xs

-- The first row of a result, if there is one.
abbrev pub first : {A : Type 0} → List A → Option A
first [] = none
first (x ∷ xs) = some x

-- The insertion of one row by ORDER BY, after those that come no later.
unfoldable pub insert_ordered : {A : Type 0} → (A → A → Bool) → A → List A → List A
insert_ordered le x [] = x ∷ []
insert_ordered le x (y ∷ ys) =
    let rest = insert_ordered le x ys in if le x y then x ∷ y ∷ ys else y ∷ rest

unfoldable pub order_by : {A : Type 0} → (A → A → Bool) → List A → List A
unfolding insert_ordered
order_by le [] = []
order_by le (x ∷ xs) = insert_ordered le x (order_by le xs)

-- The step of MAX.
abbrev pub larger : ℤ → Option ℤ → Option ℤ
larger n none = some n
larger n (some m) = some (if ltb_ℤ m n then n else m)

-- A violated constraint.
abbrev violation : String → Error
violation constraint = sqlx (SqlxError.database (some constraint))

module _ {X : Extern} where
  -- `ORDER BY ts, run_id, seq`
  abbrev pub replay_le : EventRow X → EventRow X → Bool
  replay_le a b =
      if not (X.ts_le b.ts a.ts)
      then true
      else if not (X.ts_le a.ts b.ts)
      then false
      else if not (X.text_le b.run_id a.run_id)
      then true
      else if not (X.text_le a.run_id b.run_id)
      then false
      else leb_ℤ a.seq b.seq

  -- `EventInsert::event_id`
  abbrev pub event_id : EventInsert X → String
  event_id ev = format_event_id ev.run_id ev.seq

  -- The bound values of the INSERT of `insert_event`.
  unfoldable pub row_of : EventInsert X → EventRow X
  unfolding format_event_id Event.delta caps_json
  row_of ev = record {
    id = event_id ev;
    ts = ev.ts;
    run_id = ev.run_id;
    seq = ev.seq;
    scope = Scopes.as_str ev.scope;
    name = Attribute.as_str ev.name;
    old_value = ev.old_value;
    new_value = ev.new_value;
    delta = Event.delta ev;
    source = ev.source;
    reason = ev.reason;
    evidence_json = ev.evidence_json;
    caps_applied = caps_json ev;
    disabled = ev.disabled;
  }

  -- INSERT with the table's PRIMARY KEY (id) and UNIQUE (run_id, seq).
  unfoldable pub insert_row : EventRow X → Database X → Result (Unit {0}) × Database X
  insert_row row db =
      if any (λ r. str_eq r.id row.id) db.events
      then (err (violation "satan_attribute_events_pkey"), db)
      else if any (λ r. str_eq r.run_id row.run_id && eqb_ℤ r.seq row.seq) db.events
      then (err (violation "satan_attribute_events_run_id_seq_key"), db)
      else (ok tt, record db { events = db.events ++ row ∷ [] })

  unfoldable pub insert_event : EventInsert X → Db X String
  unfolding validate row_of insert_row statement format_event_id
  insert_event ev = do lift (validate ev); statement (insert_row (row_of ev)); pure (event_id ev)

  unfoldable pub is_key : String → String → AttributeRow X → Bool
  is_key scope name r = str_eq r.scope scope && str_eq r.name name

  -- What INSERT … ON CONFLICT (scope, name) DO UPDATE does to the rows.
  unfoldable pub put_row :
      String → String → F64 → X.DateTime → X.Value → List (AttributeRow X) → List (AttributeRow X)
  put_row scope name value at evidence [] =
      record {
        scope = scope;
        name = name;
        value = value;
        updated_at = at;
        evidence_json = evidence;
        last_decay_at = none;
      }
      ∷ []
  put_row scope name value at evidence (r ∷ rows) =
      let rest = put_row scope name value at evidence rows in
      if is_key scope name r
      then record r { value = value; updated_at = at; evidence_json = evidence } ∷ rows
      else r ∷ rest

  -- The upsert, with the table's CHECK on the value.
  unfoldable pub upsert_row :
      String → String → F64 → X.DateTime → X.Value → Database X → Result (Unit {0}) × Database X
  unfolding put_row is_key
  upsert_row scope name value at evidence db =
      if in_range value
      then (ok tt, record db { attributes = put_row scope name value at evidence db.attributes })
      else (err (violation "satan_attributes_value_check"), db)

  unfoldable pub upsert_attribute :
      Scope → AttributeName → F64 → X.Value → X.DateTime → Db X (Unit {0})
  unfolding upsert_row statement
  upsert_attribute scope name value evidence_json updated_at =
      if in_range value
      then statement
          (upsert_row (Scopes.as_str scope) (Attribute.as_str name) value updated_at evidence_json)
      else raise (value_out_of_range value)

  unfoldable pub lookup_attribute : Scope → AttributeName → Db X (Option (AttributeRow X))
  unfolding select is_key statement
  lookup_attribute scope name = statement λ db.
      (ok (first (select (is_key (Scopes.as_str scope) (Attribute.as_str name)) db.attributes)), db)

  -- `evidence_json->>'intervention_id' = $1`
  abbrev pub is_of : String → EventRow X → Bool
  is_of intervention_id r = elim (X.field_text r.evidence_json "intervention_id") [
    | none ↦ false
    | some text ↦ str_eq text intervention_id
  ]

  unfoldable pub lookup_prior_events_by_intervention :
      String → AttributeName → Db X (List (EventRow X))
  unfolding select order_by statement
  lookup_prior_events_by_intervention intervention_id name = statement λ db. (
    ok (
        order_by replay_le (
          select (λ r. is_of intervention_id r && str_eq r.name (Attribute.as_str name))
            db.events)),
    db,
  )

  unfoldable pub bump_last_decay_at : Scope → AttributeName → X.DateTime → Db X (Unit {0})
  unfolding is_key statement
  bump_last_decay_at scope name now = statement λ db. (
    ok tt,
    record db {
      attributes =
          map
            (λ r.
              if is_key (Scopes.as_str scope) (Attribute.as_str name) r
              then record r { last_decay_at = some now }
              else r)
            db.attributes;
    },
  )

  -- MAX(seq) over the rows of a run.
  unfoldable pub max_seq : String → List (EventRow X) → Option ℤ
  max_seq run_id [] = none
  max_seq run_id (r ∷ rows) =
      let rest = max_seq run_id rows in if str_eq r.run_id run_id then larger r.seq rest else rest

  unfoldable pub max_seq_for_run : String → Db X (Option ℤ)
  unfolding max_seq statement
  max_seq_for_run run_id = statement λ db. (ok (max_seq run_id db.events), db)
