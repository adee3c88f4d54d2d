-- ===== src/Base/Text.antt =====
-- Texts as sequences of characters: Python's slices, `in`, `find` and comparison, by code points.
pub mod Order
use Prim.Native.Nat.{ℕ, zero, suc}
use Prim.Native.Char.{code}
use Prim.Native.String.{String}
use mathlib.Core.Bool.{Bool, true, false, ◌&&◌, ◌||◌}
use mathlib.Core.Option
use mathlib.Core.Option.{Option, none, some}
use mathlib.Core.List.{List, [], ◌∷◌}
use text.Mathlib.Text.{◌==◌ as str_eq}
use projectree.Base.Tests.{ltb, ◌==◌, if◌then◌else◌}

-- `s[:n]`
abbrev pub take_chars : ℕ → String → String
take_chars zero s = String.[]
take_chars (suc n) String.[] = String.[]
take_chars (suc n) (String.◌∷◌ c s) = String.◌∷◌ c (take_chars n s)

-- `s[n:]`
abbrev pub drop_chars : ℕ → String → String
drop_chars zero s = s
drop_chars (suc n) String.[] = String.[]
drop_chars (suc n) (String.◌∷◌ c s) = drop_chars n s

-- `len(s)`
abbrev pub count_chars : String → ℕ
count_chars String.[] = 0
count_chars (String.◌∷◌ c s) = suc (count_chars s)

-- `s.startswith(p)`
abbrev pub is_prefix : String → String → Bool
is_prefix String.[] s = true
is_prefix (String.◌∷◌ c p) String.[] = false
is_prefix (String.◌∷◌ c p) (String.◌∷◌ d s) = code c == code d && is_prefix p s

-- `s.find(p)`, with `none` for -1.
abbrev pub find_text : String → String → Option ℕ
find_text p String.[] = if is_prefix p String.[] then some 0 else none
find_text p (String.◌∷◌ c s) =
    let rest = Option.map suc (find_text p s) in
    if is_prefix p (String.◌∷◌ c s) then some 0 else rest

-- `p in s`
abbrev pub contains : String → String → Bool
contains p s = elim (find_text p s) [ none ↦ false | some _ ↦ true ]

-- `s <= t`
abbrev pub text_leb : String → String → Bool
text_leb String.[] t = true
text_leb (String.◌∷◌ c s) String.[] = false
text_leb (String.◌∷◌ c s) (String.◌∷◌ d t) =
    let rest = text_leb s t in ltb (code c) (code d) || (code c == code d && rest)

-- Truth of an optional text: neither absent nor empty.
abbrev pub truthy : Option String → Bool
truthy none = false
truthy (some String.[]) = false
truthy (some (String.◌∷◌ c s)) = true

-- `str(value)` of an optional text.
abbrev pub text_of : Option String → String
text_of none = "None"
text_of (some s) = s

-- `mapping.get(key)`
abbrev pub lookup_text {ℓ} : {V : Type ℓ} → String → List (String × V) → Option V
lookup_text k [] = none
lookup_text k ((j, v) ∷ m) = let rest = lookup_text k m in if str_eq j k then some v else rest
