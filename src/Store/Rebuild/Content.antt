-- ===== src/Store/Rebuild/Content.antt =====
-- What a table of attributes holds at a key, and how an upsert changes it.
use satan_attrd.Prelude.{
  String, Bool, ◌&&◌, true, false, Option, none, some, List, [], ◌∷◌, map, ◌≡◌, refl, arith, str_eq,
  eq_iff, if◌then◌else◌, Bool-cases, inl, inr,
}
use satan_attrd.F64.{F64, nought}
use satan_attrd.Extern.{Extern}
use satan_attrd.Store.Database.{AttributeRow}
use satan_attrd.Store.Operations.{put_row, is_key}
use satan_attrd.Store.Rebuild.{zeroed}

-- A row without its key.
pub record Content (X : Extern) : Type 0 where
  pub value : F64
  pub updated_at : X.DateTime
  pub evidence_json : X.Value
  pub last_decay_at : Option X.DateTime

abbrev pub content : {X : Extern} → AttributeRow X → Content X
content r = record {
  value = r.value;
  updated_at = r.updated_at;
  evidence_json = r.evidence_json;
  last_decay_at = r.last_decay_at;
}

unfoldable pub content_at :
    {X : Extern} → String → String → List (AttributeRow X) → Option (Content X)
content_at scope name [] = none
content_at scope name (r ∷ rows) =
    let rest = content_at scope name rows in if is_key scope name r then some (content r) else rest

abbrev pub decay_of : {X : Extern} → Option (Content X) → Option X.DateTime
decay_of none = none
decay_of (some c) = c.last_decay_at

unfoldable pub same_key : String → String → String → String → Bool
same_key scope name s n = str_eq scope s && str_eq name n

key_agrees :
    {X : Extern} (s n scope name : String) (r : AttributeRow X)
    → is_key scope name r ≡ true
    → is_key s n r ≡ same_key scope name s n
unfolding is_key same_key
key_agrees s n scope name r h = ground (arith, eq_iff r.scope scope, eq_iff r.name name)

key_differs :
    {X : Extern} (s n scope name : String) (r : AttributeRow X)
    → is_key scope name r ≡ false
    → same_key scope name s n ≡ true
    → is_key s n r ≡ false
unfolding is_key same_key
key_differs s n scope name r h k = ground (arith, eq_iff scope s, eq_iff name n)

key_fresh :
    (X : Extern) (s n scope name : String) (v : F64) (t : X.DateTime) (e : X.Value)
    → is_key {X = X} s n (record {
      scope = scope;
      name = name;
      value = v;
      updated_at = t;
      evidence_json = e;
      last_decay_at = none;
    })
      ≡ same_key scope name s n
unfolding is_key same_key
key_fresh X s n scope name v t e = refl

key_updated :
    {X : Extern} (s n : String) (v : F64) (t : X.DateTime) (e : X.Value) (r : AttributeRow X)
    → is_key s n (record r { value = v; updated_at = t; evidence_json = e }) ≡ is_key s n r
unfolding is_key
key_updated s n v t e r = refl

-- An upsert sets the row of its key and keeps its decay stamp; every other key keeps its row.
pub content_at-put_row :
    {X : Extern} (s n scope name : String) (v : F64) (t : X.DateTime) (e : X.Value)
    (rows : List (AttributeRow X))
    → content_at s n (put_row scope name v t e rows) ≡ (
        if same_key scope name s n
        then some (record {
          value = v;
          updated_at = t;
          evidence_json = e;
          last_decay_at = decay_of (content_at s n rows);
        })
        else content_at s n rows)
unfolding content_at put_row
content_at-put_row s n scope name v t e [] = rw key_fresh refl
content_at-put_row s n scope name v t e (r ∷ rows) = elim (Bool-cases (is_key scope name r)) [
  | inl here ↦ elim (Bool-cases (same_key scope name s n)) [
    | inl same ↦ rw (here, content_at, key_updated, key_agrees s n scope name r here, same) refl
    | inr other ↦ rw (here, content_at, key_updated, key_agrees s n scope name r here, other) refl
  ]
  | inr there ↦ ground (
    arith,
    there,
    content_at-put_row s n scope name v t e rows,
    key_differs s n scope name r there,
  )
]

key_zeroed :
    {X : Extern} (s n : String) (now : X.DateTime) (r : AttributeRow X)
    → is_key s n (zeroed now r) ≡ is_key s n r
unfolding is_key zeroed
key_zeroed s n now r = refl

-- Zeroing keeps which keys have a row.
pub content_at-zeroed :
    {X : Extern} (s n : String) (now : X.DateTime) (rows : List (AttributeRow X))
    → content_at s n (map (zeroed now) rows) ≡ elim (content_at s n rows) [
      | none ↦ none
      | some c ↦ some (record {
        value = nought;
        updated_at = now;
        evidence_json = X.object [];
        last_decay_at = none;
      })
    ]
unfolding content_at zeroed
content_at-zeroed s n now [] = refl
content_at-zeroed s n now (r ∷ rows) = elim (Bool-cases (is_key s n r)) [
  | inl here ↦ rw (key_zeroed, here) refl
  | inr there ↦ rw (key_zeroed, there, content_at-zeroed s n now rows) refl
]
