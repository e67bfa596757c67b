-- ===== src/Prelude/Text/Suffix.antt =====
-- What the prefix and suffix tests decide.
use Prim.Native.String.{String}
use mathlib.Core.Path.{◌≡◌, refl, ap, sym, ◌∙◌}
use mathlib.Core.Logic.{◌↔◌, inl, inr}
use mathlib.Core.Bool.{true}
use native.Mathlib.Omega.{arith}
use text.Mathlib.Text.{◌==◌}
use text.Mathlib.TextEquality.{eq_iff}
use text.Mathlib.TextPositions.{eq_refl}
use text.Mathlib.TextLemmas.{nil-append, cons-append}
use acme_gateway.Prelude.Tests.{Bool-cases}
use acme_gateway.Prelude.Text.{◌<>◌, has_suffix, has_prefix, trim_prefix, drop_prefix}

-- The text ends in `t`.
abbrev pub EndsIn : String → String → Type 0
EndsIn s t = (front : String) × (front <> t ≡ s)

has_suffix-front : (front t : String) → has_suffix (front <> t) t ≡ true
unfolding has_suffix
has_suffix-front String.[] t = rw nil-append (self t)
  where
    self : (s : String) → has_suffix s s ≡ true
    self String.[] = eq_refl String.[]
    self (String.◌∷◌ c s) = rw (eq_refl (String.◌∷◌ c s))
has_suffix-front (String.◌∷◌ c front) t = rw cons-append (ground (arith, has_suffix-front front t))

suffix_front : (s t : String) → has_suffix s t ≡ true → EndsIn s t
unfolding has_suffix
suffix_front String.[] t h = (String.[], nil-append t ∙ sym ((eq_iff _ t).0 h))
suffix_front (String.◌∷◌ c s) t h = elim (Bool-cases (String.◌∷◌ c s == t)) [
  | inl e ↦ (String.[], nil-append t ∙ sym ((eq_iff _ t).0 e))
  | inr e ↦
      let (front, p) = suffix_front s t (ground arith) in
      (String.◌∷◌ c front, cons-append c front t ∙ ap (String.◌∷◌ c) p)
]

pub has_suffix_iff : (s t : String) → (has_suffix s t ≡ true) ↔ EndsIn s t
has_suffix_iff s t = (suffix_front s t, λ (front, p). rw (← p) (has_suffix-front front t))

drop_prefix-append : (t r : String) → drop_prefix (t <> r) t ≡ r
unfolding drop_prefix
drop_prefix-append String.[] r = nil-append r
drop_prefix-append (String.◌∷◌ c t) r = rw cons-append (drop_prefix-append t r)

pub has_prefix-append : (t r : String) → has_prefix (t <> r) t ≡ true
unfolding has_prefix
has_prefix-append String.[] r = refl
has_prefix-append (String.◌∷◌ c t) r = rw cons-append (ground (arith, has_prefix-append t r))

pub trim_prefix-append : (t r : String) → trim_prefix (t <> r) t ≡ r
unfolding trim_prefix
trim_prefix-append t r = rw (has_prefix-append t r) (drop_prefix-append t r)
