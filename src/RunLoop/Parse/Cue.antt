-- ===== src/RunLoop/Parse/Cue.antt =====
-- What accepted cue dimensions say of the JSON they were read from.
use mathlib.Core.Path.{subst}
use satan_attrd.Prelude.{
  String, Bool, true, false, Option, none, some, List, [], ◌∷◌, ◌≡◌, ap, refl, arith, if◌then◌else◌,
}
use satan_attrd.Extern.{Extern}
use satan_attrd.Dispatcher.Input.{CueDimensions}
use satan_attrd.RunLoop.Payload.{
  evidence_not_object, Parsed, accept, reject, ◌>>◌, and_then, guard, filter_map,
}
use satan_attrd.RunLoop.Parse.{text_unless_null, text_array, parse_cue}

-- The texts among some values, in their order.
pub data TextsOf (X : Extern) : List X.Value → List String → Type 0 where
  at_end : TextsOf X [] []
  skipped :
      (v : X.Value) {vs : List X.Value} {l : List String}
      → X.as_str v ≡ none
      → TextsOf X vs l
      → TextsOf X (v ∷ vs) l
  kept :
      (v : X.Value) (s : String) {vs : List X.Value} {l : List String}
      → X.as_str v ≡ some s
      → TextsOf X vs l
      → TextsOf X (v ∷ vs) (s ∷ l)

-- What a field says of a list of texts: none, where it is missing or no array.
abbrev pub IsTextArray : (X : Extern) → Option X.Value → List String → Type 0
IsTextArray X none l = l ≡ []
IsTextArray X (some v) l =
    (X.as_array v ≡ none → l ≡ []) × ((vs : List X.Value) → X.as_array v ≡ some vs → TextsOf X vs l)

-- What a field says of an optional text: none, where it is missing or null.
abbrev pub IsTextUnlessNull : (X : Extern) → Option X.Value → Option String → Type 0
IsTextUnlessNull X none o = o ≡ none
IsTextUnlessNull X (some v) o =
    (X.is_null v ≡ true → o ≡ none) × (X.is_null v ≡ false → o ≡ X.as_str v)

-- Each dimension is what the JSON says in the field of the same name.
pub record IsCueOf (X : Extern) (evidence : X.Value) (c : CueDimensions) : Type 0 where
  pub object : X.is_object evidence ≡ true
  pub intervention_kind :
      IsTextUnlessNull X (X.get evidence "intervention_kind") c.intervention_kind
  pub related_motive_id :
      IsTextUnlessNull X (X.get evidence "related_motive_id") c.related_motive_id
  pub cue_handles : IsTextArray X (X.get evidence "cue_handles") c.cue_handles
  pub related_trace_ids : IsTextArray X (X.get evidence "related_trace_ids") c.related_trace_ids

module _ (X : Extern) where
  pub text_unless_null-read :
      (v : X.Value) (key : String) → IsTextUnlessNull X (X.get v key) (text_unless_null X v key)
  text_unless_null-read v key = at_field (X.get v key)
    where
      at_field :
          (o : Option X.Value)
          → IsTextUnlessNull X o (and_then o (λ x. if X.is_null x then none else X.as_str x))
      at_field none = refl
      at_field (some x) = (λ h. rw h refl, λ h. rw h refl)

  filter_map-TextsOf : (vs : List X.Value) → TextsOf X vs (filter_map X.as_str vs)
  filter_map-TextsOf [] = TextsOf.at_end
  filter_map-TextsOf (v ∷ vs) = at_value (X.as_str v) refl (filter_map-TextsOf vs)
    where
      at_value :
          (o : Option String)
          → X.as_str v ≡ o
          → TextsOf X vs (filter_map X.as_str vs)
          → TextsOf X
              (v ∷ vs)
              (elim o [ none ↦ filter_map X.as_str vs | some y ↦ y ∷ filter_map X.as_str vs ])
      at_value none e rest = TextsOf.skipped v e rest
      at_value (some s) e rest = TextsOf.kept v s e rest

  text_array-read : (v : X.Value) (key : String) → IsTextArray X (X.get v key) (text_array X v key)
  text_array-read v key = at_field (X.get v key)
    where
      at_field :
          (o : Option X.Value)
          → IsTextArray X o
              (elim (and_then o X.as_array) [ none ↦ [] | some l ↦ filter_map X.as_str l ])
      at_field none = refl
      at_field (some x) = (λ h. rw h refl, λ vs h. rw h (filter_map-TextsOf vs))

  abbrev cue_or : CueDimensions → Parsed CueDimensions → CueDimensions
  cue_or default (accept c) = c
  cue_or default (reject r) = default

  pub parse_cue-IsCueOf :
      (evidence : X.Value) (c : CueDimensions)
      → parse_cue X evidence ≡ accept c
      → IsCueOf X evidence c
  unfolding parse_cue
  parse_cue-IsCueOf evidence c = at_object (X.is_object evidence) refl
    where
      read : CueDimensions
      read = record {
        intervention_kind = text_unless_null X evidence "intervention_kind";
        related_motive_id = text_unless_null X evidence "related_motive_id";
        cue_handles = text_array X evidence "cue_handles";
        related_trace_ids = text_array X evidence "related_trace_ids";
      }

      at_object :
          (b : Bool)
          → X.is_object evidence ≡ b
          → (guard b evidence_not_object >> accept read) ≡ accept c
          → IsCueOf X evidence c
      at_object false e h = absurd (ground arith)
      at_object true e h = subst (IsCueOf X evidence) (ap (cue_or read) h) (record {
        object = e;
        intervention_kind = text_unless_null-read evidence "intervention_kind";
        related_motive_id = text_unless_null-read evidence "related_motive_id";
        cue_handles = text_array-read evidence "cue_handles";
        related_trace_ids = text_array-read evidence "related_trace_ids";
      })
