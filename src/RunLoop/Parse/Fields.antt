-- ===== src/RunLoop/Parse/Fields.antt =====
-- What an accepted outcome payload says of the JSON it was read from.
use satan_attrd.Prelude.{
  String, Bool, true, false, not, ◌&&◌, Option, none, some, ◌≡◌, ◌∙◌, ap, refl, arith,
}
use satan_attrd.Error.{Error, Result, ok, err}
use satan_attrd.Extern.{Extern}
use satan_attrd.Types.Outcome
use satan_attrd.Dispatcher.Weight
use satan_attrd.Dispatcher.Weight.Text.{as_str-parse}
use satan_attrd.RunLoop.Payload.{
  Rejection, not_object, bad_ts, bad_classification, bad_confidence, missing_evidence,
  revision_without_revises, missing_string, missing_bool, Parsed, accept, reject, ◌>>=◌, ok_or,
  map_err, and_then, is_none, guard, OutcomePayload,
}
use satan_attrd.RunLoop.Parse.Cue.{
  IsTextUnlessNull, IsCueOf, text_unless_null-read, parse_cue-IsCueOf,
}
use satan_attrd.RunLoop.Parse.{
  get_str, get_bool, get_ts, text_unless_null, parse_cue, parse_outcome_payload,
}

-- If the parser accepts, the value has the property.
abbrev pub Accepts : {A : Type 0} → (A → Type 0) → Parsed A → Type 0
Accepts P (accept a) = P a
Accepts P (reject r) = Unit

pub bind-Accepts :
    {A B : Type 0} (P : B → Type 0) (m : Parsed A) (k : A → Parsed B)
    → ((a : A) → m ≡ accept a → Accepts P (k a))
    → Accepts P (m >>= k)
bind-Accepts P (accept a) k h = h a refl
bind-Accepts P (reject r) k h = tt

ok_or_accepted :
    {A : Type 0} (o : Option A) (r : Rejection) (a : A) → ok_or o r ≡ accept a → o ≡ some a
ok_or_accepted none r a h = ground arith
ok_or_accepted (some b) r a h = ground arith

map_err_accepted :
    {A : Type 0} (o : Result A) (f : Error → Rejection) (a : A) → map_err o f ≡ accept a → o ≡ ok a
map_err_accepted (ok b) f a h = ground arith
map_err_accepted (err e) f a h = ground arith

guard_accepted : (b : Bool) (r : Rejection) (u : Unit {0}) → guard b r ≡ accept u → b ≡ true
guard_accepted true r u h = refl
guard_accepted false r u h = ground arith

points : (b : Bool) (o : Option String) → not (b && is_none o) ≡ true → b ≡ true → is_none o ≡ false
points b none h k = ground arith
points b (some s) h k = refl

-- The text, and the flag, of a field.
abbrev text_of : (X : Extern) → X.Value → String → Option String
text_of X v key = and_then (X.get v key) X.as_str

abbrev flag_of : (X : Extern) → X.Value → String → Option Bool
flag_of X v key = and_then (X.get v key) X.as_bool

-- Each field of the payload is what the JSON says in the field of the same name, the two enums by
-- their texts and the cue by the fields of `evidence`; and a revision points to what it revises.
pub record IsReadOf (X : Extern) (v : X.Value) (p : OutcomePayload X) : Type 0 where
  pub object : X.is_object v ≡ true
  pub run_id : text_of X v "run_id" ≡ some p.run_id
  pub ts : (text : String) × (text_of X v "ts" ≡ some text) × (X.parse_ts text ≡ some p.ts)
  pub intervention_id : text_of X v "intervention_id" ≡ some p.intervention_id
  pub classification : text_of X v "classification" ≡ some (Outcome.as_str p.classification)
  pub confidence : text_of X v "confidence" ≡ some (Weight.as_str p.confidence)
  pub cue : (evidence : X.Value) × (X.get v "evidence" ≡ some evidence) × IsCueOf X evidence p.cue
  pub is_revision : flag_of X v "is_revision" ≡ some p.is_revision
  pub enabled : flag_of X v "enabled" ≡ some p.enabled
  pub revises : IsTextUnlessNull X (X.get v "revises") p.revises
  pub points_back : p.is_revision ≡ true → is_none p.revises ≡ false

module _ (X : Extern) where
  ts_accepted :
      (v : X.Value) (t : X.DateTime)
      → get_ts X v ≡ accept t
      → (text : String) × (text_of X v "ts" ≡ some text) × (X.parse_ts text ≡ some t)
  ts_accepted v t = ts_read (get_str X v "ts") refl
    where
      ts_read :
          (m : Parsed String)
          → get_str X v "ts" ≡ m
          → (m >>= λ text. ok_or (X.parse_ts text) (bad_ts text)) ≡ accept t
          → (text : String) × (text_of X v "ts" ≡ some text) × (X.parse_ts text ≡ some t)
      ts_read (accept text) e h = (
        text,
        ok_or_accepted (text_of X v "ts") (missing_string "ts") text e,
        ok_or_accepted (X.parse_ts text) (bad_ts text) t h,
      )
      ts_read (reject r) e h = ground arith

  -- An outcome payload that the parser accepts is read from the JSON field by field, the enums by
  -- their texts and the cue dimensions by the fields of `evidence`, and a revision points to what it
  -- revises.
  pub parse_outcome_payload-IsReadOf :
      (v : X.Value) → Accepts (IsReadOf X v) (parse_outcome_payload X v)
  unfolding parse_outcome_payload
  parse_outcome_payload-IsReadOf v =
      let P = IsReadOf X v in
      bind-Accepts P (guard (X.is_object v) not_object) _ λ u object.
        bind-Accepts P (get_str X v "run_id") _ λ run_id e_run.
          bind-Accepts P (get_ts X v) _ λ ts e_ts.
            bind-Accepts P (get_str X v "intervention_id") _ λ iv e_iv.
              bind-Accepts P (get_str X v "classification") _ λ class_text e_class.
                bind-Accepts P (map_err (Outcome.from_str class_text) bad_classification) _
                  λ class p_class. bind-Accepts P (get_str X v "confidence") _ λ conf_text e_conf.
                    bind-Accepts P (map_err (Weight.parse conf_text) bad_confidence) _
                      λ conf p_conf.
                        bind-Accepts P (ok_or (X.get v "evidence") missing_evidence) _
                          λ evidence e_ev. bind-Accepts P (parse_cue X evidence) _ λ cue e_cue.
                            bind-Accepts P (get_bool X v "is_revision") _ λ is_revision e_rev.
                              bind-Accepts P (get_bool X v "enabled") _ λ enabled e_en.
                                bind-Accepts P
                                  (guard
                                    (not (is_revision && is_none (text_unless_null X v "revises")))
                                    revision_without_revises)
                                  _
                                  λ u' pointing. record {
                                    object = guard_accepted (X.is_object v) not_object u object;
                                    run_id =
                                        ok_or_accepted _ (missing_string "run_id") run_id e_run;
                                    ts = ts_accepted v ts e_ts;
                                    intervention_id =
                                        ok_or_accepted _ (missing_string "intervention_id") iv e_iv;
                                    classification =
                                        ok_or_accepted _ (missing_string "classification")
                                          class_text e_class
                                        ∙ ap some (
                                            Outcome.as_str-from_str class_text class (
                                              map_err_accepted (Outcome.from_str class_text)
                                                bad_classification class p_class));
                                    confidence =
                                        ok_or_accepted _ (missing_string "confidence") conf_text
                                          e_conf
                                        ∙ ap some (
                                            as_str-parse conf_text conf (
                                              map_err_accepted (Weight.parse conf_text)
                                                bad_confidence conf p_conf));
                                    is_revision =
                                        ok_or_accepted _ (missing_bool "is_revision") is_revision
                                          e_rev;
                                    enabled =
                                        ok_or_accepted _ (missing_bool "enabled") enabled e_en;
                                    cue = (
                                      evidence,
                                      ok_or_accepted _ missing_evidence evidence e_ev,
                                      parse_cue-IsCueOf X evidence cue e_cue,
                                    );
                                    revises = text_unless_null-read X v "revises";
                                    points_back =
                                        points is_revision (text_unless_null X v "revises")
                                          (guard_accepted _ revision_without_revises u' pointing);
                                  }
