-- ===== src/Store/Settings.antt =====
-- src/store.rs: the settings.
use satan_attrd.Prelude.{
  String, Bool, Option, none, some, List, [], ◌∷◌, str_eq, str_append, if◌then◌else◌,
}
use satan_attrd.Error.{Error, Result, ok, err, invalid_argument}
use satan_attrd.Extern.{Extern}
use satan_attrd.Store.Database.{Db, lift, ◌>>=◌, statement}

unfoldable pub setting : {V : Type 0} → String → List (String × V) → Option V
setting name [] = none
setting name ((n, v) ∷ l) = let rest = setting name l in if str_eq n name then some v else rest

unfoldable pub put_setting : {V : Type 0} → String → V → List (String × V) → List (String × V)
put_setting name v [] = (name, v) ∷ []
put_setting name v ((n, x) ∷ l) =
    let rest = put_setting name v l in if str_eq n name then (n, v) ∷ l else (n, x) ∷ rest

abbrev not_a_bool : String → String → Error
not_a_bool name other = invalid_argument (
    str_append "satan_attribute_settings["
      (str_append name (str_append "].value is not a JSON bool: " other)))

-- The `match` of `get_setting_bool` on the row.
unfoldable pub bool_setting : (X : Extern) → String → Bool → Option X.Value → Result Bool
bool_setting X name default none = ok default
bool_setting X name default (some v) = elim (X.as_bool v) [
  | some b ↦ ok b
  | none ↦ err (not_a_bool name (X.show v))
]

module _ {X : Extern} where
  unfoldable pub get_setting_bool : String → Bool → Db X Bool
  unfolding setting statement
  get_setting_bool name default = do
    row ← statement λ db. (ok (setting name db.settings), db)
    lift (bool_setting X name default row)

  unfoldable pub set_setting_bool : String → Bool → Db X (Unit {0})
  unfolding put_setting statement
  set_setting_bool name value =
      statement
        λ db. (ok tt, record db { settings = put_setting name (X.boolean value) db.settings })
