-- ===== src/Prelude/Text/Split.antt =====
-- Go's strings.Index, Split, SplitN, Trim and Fields, for a single byte and over ASCII text.
use Prim.Native.Char.{Char, code}
use Prim.Native.String.{String}
use Prim.Native.Nat.{ℕ}
use mathlib.Core.Path.{◌≡◌, refl}
use mathlib.Core.Bool.{Bool, false, ◌||◌}
use mathlib.Core.Option.{Option, none, some}
use mathlib.Core.List.{List, [], ◌∷◌}
use text.Mathlib.Text.{◌==◌}
use acme_gateway.Prelude.Tests.{eqb, leb, if◌then◌else◌}

-- Another byte in front of the first part.
unfoldable pub push : Char → List String → List String
push c [] = String.◌∷◌ c String.[] ∷ []
push c (p ∷ ps) = String.◌∷◌ c p ∷ ps

-- strings.Split
unfoldable pub split : ℕ → String → List String
unfolding push
split b String.[] = String.[] ∷ []
split b (String.◌∷◌ c s) =
    let rest = split b s in if eqb (code c) b then String.[] ∷ rest else push c rest

abbrev before : Char → Option (String × String) → Option (String × String)
before c none = none
before c (some (s, t)) = some (String.◌∷◌ c s, t)

-- What is before and after the first such byte: strings.SplitN with 2, or strings.IndexByte
unfoldable pub cut : ℕ → String → Option (String × String)
cut b String.[] = none
cut b (String.◌∷◌ c s) =
    let rest = cut b s in if eqb (code c) b then some (String.[], s) else before c rest

trim_start : ℕ → String → String
trim_start b String.[] = String.[]
trim_start b (String.◌∷◌ c s) = if eqb (code c) b then trim_start b s else String.◌∷◌ c s

keep_end : ℕ → Char → String → String
keep_end b c String.[] = if eqb (code c) b then String.[] else String.◌∷◌ c String.[]
keep_end b c s = String.◌∷◌ c s

trim_end : ℕ → String → String
unfolding keep_end
trim_end b String.[] = String.[]
trim_end b (String.◌∷◌ c s) = keep_end b c (trim_end b s)

-- strings.Trim with one byte
unfoldable pub trim : ℕ → String → String
unfolding trim_start trim_end
trim b s = trim_end b (trim_start b s)

abbrev is_white : Char → Bool
is_white c = eqb (code c) 32 || (if leb 9 (code c) then leb (code c) 13 else false)

abbrev unless_empty : List String → List String
unless_empty [] = []
unless_empty (p ∷ ps) = if p == String.[] then ps else p ∷ ps

-- The first word may be empty while it is read.
words : String → List String
unfolding push
words String.[] = String.[] ∷ []
words (String.◌∷◌ c s) =
    let rest = words s in if is_white c then String.[] ∷ unless_empty rest else push c rest

-- strings.Fields
unfoldable pub fields : String → List String
unfolding words
fields s = unless_empty (words s)

split_tests :
    (split 59 "a;;b" ≡ "a" ∷ "" ∷ "b" ∷ [])
    × (cut 61 "rel=a=b" ≡ some ("rel", "a=b"))
    × (cut 61 "rel" ≡ none)
    × (trim 34 "\"\"x\"y\"" ≡ "x\"y")
    × (fields " a  bc " ≡ "a" ∷ "bc" ∷ [])
unfolding split cut trim fields
split_tests = (refl, refl, refl, refl, refl)
