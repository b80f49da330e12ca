-- ===== src/Tests/Texts.antt =====
-- The order of texts by their characters' numbers, as a concrete collation for the tests.
use text.Mathlib.TextEquality.{Char-path}
use Prim.Native.Char.{Char, code}
use satan_attrd.Prelude.{String, Bool, true, false, ◌||◌, ◌&&◌, ◌≡◌, refl, ltb, ◌==◌, arith}
use Prim.Native.String as Text

unfoldable pub text_le : String → String → Bool
text_le Text.[] t = true
text_le (Text.◌∷◌ c s) Text.[] = false
text_le (Text.◌∷◌ c s) (Text.◌∷◌ d t) =
    let rest = text_le s t in ltb (code c) (code d) || ((code c == code d) && rest)

pub text_total : (s t : String) → text_le s t ≡ false → text_le t s ≡ true
unfolding text_le
text_total Text.[] t h = ground arith
text_total (Text.◌∷◌ c s) Text.[] h = refl
text_total (Text.◌∷◌ c s) (Text.◌∷◌ d t) h = ground (arith, text_total s t)

pub text_trans : (s t u : String) → text_le s t ≡ true → text_le t u ≡ true → text_le s u ≡ true
unfolding text_le
text_trans Text.[] t u h k = refl
text_trans (Text.◌∷◌ c s) Text.[] u h k = ground arith
text_trans (Text.◌∷◌ c s) (Text.◌∷◌ d t) Text.[] h k = ground arith
text_trans (Text.◌∷◌ c s) (Text.◌∷◌ d t) (Text.◌∷◌ e u) h k = ground (arith, text_trans s t u)

same_head : (c d : Char) (s t : String) → code c ≡ code d → s ≡ t → Text.◌∷◌ c s ≡ Text.◌∷◌ d t
same_head c d s t h k = λ i. Text.◌∷◌ (Char-path c d h i) (k i)

pub text_antisym : (s t : String) → text_le s t ≡ true → text_le t s ≡ true → s ≡ t
unfolding text_le
text_antisym Text.[] Text.[] h k = refl
text_antisym Text.[] (Text.◌∷◌ d t) h k = ground arith
text_antisym (Text.◌∷◌ c s) Text.[] h k = ground arith
text_antisym (Text.◌∷◌ c s) (Text.◌∷◌ d t) h k =
    same_head c d s t (ground arith) (text_antisym s t (ground arith) (ground arith))
