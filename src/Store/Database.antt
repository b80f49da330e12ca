-- ===== src/Store/Database.antt =====
-- The tables that the daemon reads and writes, and how one statement runs on them: it fails as a
-- whole or has its whole effect. src/store.rs: the row types.
pub mod Calm
pub mod Preserves
pub mod Upholds
use satan_attrd.Prelude.{String, Bool, true, false, Option, List, [], ◌∷◌, if◌then◌else◌}
use satan_attrd.Prelude.Int.{ℤ}
use satan_attrd.F64.{F64}
use satan_attrd.Error.{Error, Result, ok, err, sqlx, SqlxError}
use satan_attrd.Extern.{Extern}

pub record AttributeRow (X : Extern) : Type 0 where
  pub scope : String
  pub name : String
  pub value : F64
  pub updated_at : X.DateTime
  pub evidence_json : X.Value
  pub last_decay_at : Option X.DateTime

pub record EventRow (X : Extern) : Type 0 where
  pub id : String
  pub ts : X.DateTime
  pub run_id : String
  pub seq : ℤ
  pub scope : String
  pub name : String
  pub old_value : F64
  pub new_value : F64
  pub delta : F64
  pub source : String
  pub reason : String
  pub evidence_json : X.Value
  pub caps_applied : X.Value
  pub disabled : Bool

pub record InboxRow (X : Extern) : Type 0 where
  pub id : ℤ
  pub payload_json : X.Value
  pub claimed : Bool

pub record Database (X : Extern) : Type 0 where
  pub attributes : List (AttributeRow X)
  pub events : List (EventRow X)
  pub settings : List (String × X.Value)
  pub outcome_inbox : List (InboxRow X)
  pub audit_inbox : List (ℤ × X.Value)
  pub audit_replies : List (ℤ × String)
  pub notifications : List (String × String)
  -- the next value of the SERIAL of `satan_audit_inbox`
  pub next_audit_id : ℤ
  -- `NOW()`
  pub now : X.DateTime

-- The database and, for the statements to come, whether the connection fails at each.
pub record World (X : Extern) : Type 0 where
  pub db : Database X
  pub faults : List Bool

abbrev pub Db : Extern → Type 0 → Type 0
Db X A = World X → Result A × World X

module _ {X : Extern} where
  abbrev pub pure : {A : Type 0} → A → Db X A
  pure a w = (ok a, w)

  abbrev pub lift : {A : Type 0} → Result A → Db X A
  lift r w = (r, w)

  abbrev pub raise : {A : Type 0} → Error → Db X A
  raise e w = (err e, w)

  abbrev pub continue : {A B : Type 0} → (A → Db X B) → Result A × World X → Result B × World X
  continue f (ok a, w) = f a w
  continue f (err e, w) = (err e, w)

  infixl 5 ◌>>=◌ ◌>>◌
  abbrev pub ◌>>=◌ : {A B : Type 0} → Db X A → (A → Db X B) → Db X B
  ◌>>=◌ m f w = continue f (m w)

  abbrev pub ◌>>◌ : {A B : Type 0} → Db X A → Db X B → Db X B
  m >> k = m >>= λ _. k

  -- One statement: a failing connection leaves the tables as they are.
  unfoldable pub statement : {A : Type 0} → (Database X → Result A × Database X) → Db X A
  statement f w = elim w.faults [
    | [] ↦ let (r, db) = f w.db in (r, record w { db = db })
    | true ∷ later ↦ (err (sqlx SqlxError.other), record w { faults = later })
    | false ∷ later ↦ let (r, db) = f w.db in (r, record w { db = db; faults = later })
  ]

  -- COMMIT, or ROLLBACK to the tables at the start.
  abbrev pub end_transaction : {A : Type 0} → Database X → Result A × World X → Result A × World X
  end_transaction before (ok a, w) = (ok a, w)
  end_transaction before (err e, w) = (err e, record w { db = before })

  -- A transaction that is not committed leaves the tables as they were.
  unfoldable pub transaction : {A : Type 0} → Db X A → Db X A
  transaction m w = end_transaction w.db (m w)
