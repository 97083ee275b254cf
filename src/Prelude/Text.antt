-- ===== src/Prelude/Text.antt =====
-- Texts walked by characters: `split` on a one-character separator and its inverse `join`.
use Prim.Native.Nat.{ℕ}
use Prim.Native.Char.{Char, code}
use Prim.Native.String
use Prim.Native.String.{String}
use mathlib.Core.Bool.{Bool, false}
use mathlib.Core.List.{List, [], ◌∷◌}
use mathlib.Core.Option.{Option, none, some}
use oap_spec.Prelude.Tests.{◌==◌, if◌then◌else◌, is_some}

infixr 65 ◌+s◌
abbrev pub ◌+s◌ : String → String → String
a +s b = String.◌++◌ a b

-- Array.prototype.join
unfoldable pub join : String → List String → String
join sep [] = ""
join sep (s ∷ []) = s
join sep (s ∷ t ∷ rest) = s +s sep +s join sep (t ∷ rest)

abbrev pub push_first : Char → List String → List String
push_first c [] = (String.◌∷◌ c String.[]) ∷ []
push_first c (w ∷ ws) = String.◌∷◌ c w ∷ ws

-- String.prototype.split
unfoldable pub split_on : ℕ → String → List String
split_on sep String.[] = "" ∷ []
split_on sep (String.◌∷◌ c s) =
    let rest = split_on sep s in if code c == sep then "" ∷ rest else push_first c rest

abbrev pub first_is : ℕ → String → Bool
first_is n String.[] = false
first_is n (String.◌∷◌ c s) = code c == n

abbrev pub drop_first : String → String
drop_first String.[] = ""
drop_first (String.◌∷◌ c s) = s

unfoldable pub last_is : ℕ → String → Bool
last_is n String.[] = false
last_is n (String.◌∷◌ c String.[]) = code c == n
last_is n (String.◌∷◌ c (String.◌∷◌ d s)) = last_is n (String.◌∷◌ d s)

unfoldable pub drop_last : String → String
drop_last String.[] = ""
drop_last (String.◌∷◌ c String.[]) = ""
drop_last (String.◌∷◌ c (String.◌∷◌ d s)) = String.◌∷◌ c (drop_last (String.◌∷◌ d s))

-- What follows a prefix, if the text has it: String.prototype.startsWith and slice.
unfoldable pub strip_prefix : String → String → Option String
strip_prefix String.[] s = some s
strip_prefix (String.◌∷◌ c p) String.[] = none
strip_prefix (String.◌∷◌ c p) (String.◌∷◌ d s) =
    let rest = strip_prefix p s in if code c == code d then rest else none

abbrev pub starts_with : String → String → Bool
starts_with prefix s = is_some (strip_prefix prefix s)
