-- ===== src/Types/Attribute.antt =====
-- src/types.rs: the closed enum of attribute names, its texts and its parser.
use satan_attrd.Prelude.{String, ◌≡◌, refl, List, [], ◌∷◌, str_eq, if◌then◌else◌}
use satan_attrd.Types.Reading.{test-IsReadFrom, read_lem}
use satan_attrd.Error.{Result, ok, err, invalid_attribute_name}

pub data AttributeName : Type 0 where
  curiosity hunger suspicion doubt friction shame brooding metamorphosis : AttributeName

unfoldable pub as_str : AttributeName → String
as_str curiosity = "curiosity"
as_str hunger = "hunger"
as_str suspicion = "suspicion"
as_str doubt = "doubt"
as_str friction = "friction"
as_str shame = "shame"
as_str brooding = "brooding"
as_str metamorphosis = "metamorphosis"

-- All 8 in canonical order (`AttributeName::ALL`).
abbrev pub all : List AttributeName
all = curiosity ∷ hunger ∷ suspicion ∷ doubt ∷ friction ∷ shame ∷ brooding ∷ metamorphosis ∷ []

unfoldable pub from_str : String → Result AttributeName
from_str s =
    if str_eq s "curiosity"
    then ok curiosity
    else if str_eq s "hunger"
    then ok hunger
    else if str_eq s "suspicion"
    then ok suspicion
    else if str_eq s "doubt"
    then ok doubt
    else if str_eq s "friction"
    then ok friction
    else if str_eq s "shame"
    then ok shame
    else if str_eq s "brooding"
    then ok brooding
    else if str_eq s "metamorphosis"
    then ok metamorphosis
    else err (invalid_attribute_name s)

-- The parser accepts the text of each value.
pub from_str-as_str : (x : AttributeName) → from_str (as_str x) ≡ ok x
unfolding from_str as_str
from_str-as_str curiosity = refl
from_str-as_str hunger = refl
from_str-as_str suspicion = refl
from_str-as_str doubt = refl
from_str-as_str friction = refl
from_str-as_str shame = refl
from_str-as_str brooding = refl
from_str-as_str metamorphosis = refl

-- The parser accepts no other text.
pub as_str-from_str : (s : String) (x : AttributeName) → from_str s ≡ ok x → s ≡ as_str x
unfolding from_str as_str
as_str-from_str s x = read_lem as_str s (from_str s) x (
    test-IsReadFrom as_str s curiosity _ (
      test-IsReadFrom as_str s hunger _ (
        test-IsReadFrom as_str s suspicion _ (
          test-IsReadFrom as_str s doubt _ (
            test-IsReadFrom as_str s friction _ (
              test-IsReadFrom as_str s shame _ (
                test-IsReadFrom as_str s brooding _
                  (test-IsReadFrom as_str s metamorphosis _ tt))))))))
