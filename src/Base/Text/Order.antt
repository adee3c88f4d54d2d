-- ===== src/Base/Text/Order.antt =====
-- Comparison of texts is total and transitive.

use Prim.Native.String.{String}
use mathlib.Core.Path.{◌≡◌, refl}
use mathlib.Core.Bool.{true, false}
use native.Mathlib.Omega.{arith}
use projectree.Base.Text.{text_leb}

pub text_leb_total : (s t : String) → text_leb s t ≡ false → text_leb t s ≡ true
text_leb_total String.[] t h = ground arith
text_leb_total (String.◌∷◌ c s) String.[] h = refl
text_leb_total (String.◌∷◌ c s) (String.◌∷◌ d t) h = ground (arith, text_leb_total s t)

pub text_leb_trans :
    (s t u : String) → text_leb s t ≡ true → text_leb t u ≡ true → text_leb s u ≡ true
text_leb_trans String.[] t u h k = refl
text_leb_trans (String.◌∷◌ c s) String.[] u h k = ground arith
text_leb_trans (String.◌∷◌ c s) (String.◌∷◌ d t) String.[] h k = ground arith
text_leb_trans (String.◌∷◌ c s) (String.◌∷◌ d t) (String.◌∷◌ e u) h k =
    ground (arith, text_leb_trans s t u)

-- A text that compares both ways is one text of the same codes; so equal keys compare equal.
pub text_leb_refl : (s : String) → text_leb s s ≡ true
text_leb_refl String.[] = refl
text_leb_refl (String.◌∷◌ c s) = ground (arith, text_leb_refl s)
