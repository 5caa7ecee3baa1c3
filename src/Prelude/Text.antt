-- ===== src/Prelude/Text.antt =====
-- The string functions that the code calls: concatenation, `strings.Join`, `strings.Split`.
use Prim.Native.Nat.{ℕ}
use Prim.Native.Char.{Char, code}
use Prim.Native.String
use Prim.Native.String.{String}
use mathlib.Core.List.{List, [], ◌∷◌}
use kubemod.Prelude.Tests.{eqb, if◌then◌else◌}

-- `s + t`.
unfoldable pub concat : String → String → String
concat s t = String.◌++◌ s t

-- `strings.Join(parts, sep)`.
unfoldable pub join : String → List String → String
unfolding concat
join sep [] = ""
join sep (s ∷ []) = s
join sep (s ∷ t ∷ rest) = concat s (concat sep (join sep (t ∷ rest)))

-- A character put in front of the first part.
abbrev onto_first : Char → List String → List String
onto_first c [] = String.◌∷◌ c "" ∷ []
onto_first c (s ∷ rest) = String.◌∷◌ c s ∷ rest

-- `strings.Split(s, sep)` for a separator of one character, given by its code.
unfoldable pub split : ℕ → String → List String
split sep String.[] = "" ∷ []
split sep (String.◌∷◌ c s) =
    if eqb (code c) sep then "" ∷ split sep s else onto_first c (split sep s)
