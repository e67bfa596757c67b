-- ===== src/Prelude/Errors.antt =====
-- A Go pair (value, error): the error is its message.
use Prim.Native.String.{String}
use mathlib.Core.Path.{◌≡◌, refl}
use mathlib.Core.Logic.{◌⊎◌, inl, inr}
use mathlib.Core.Option.{Option, none, some}

pub data Result {ℓ} (V : Type ℓ) : Type ℓ where
  ok : V → Result V
  err : String → Result V

-- `if err != nil { return err }`, then the rest of the function on the value
infixl 5 ◌>>=◌ ◌>>◌
abbrev pub ◌>>=◌ {ℓ κ} : {V : Type ℓ} → {W : Type κ} → Result V → (V → Result W) → Result W
err message >>= rest = err message
ok value >>= rest = rest value

abbrev pub ◌>>◌ {ℓ κ} : {V : Type ℓ} → {W : Type κ} → Result V → Result W → Result W
first >> rest = first >>= (λ value. rest)

abbrev pub check : Option String → Result (Unit {0})
check none = ok tt
check (some e) = err e

pub Result-cases {ℓ} :
    {A : Type ℓ} (r : Result A) → ((a : A) × (r ≡ ok a)) ⊎ ((e : String) × (r ≡ err e))
Result-cases (ok a) = inl (a, refl)
Result-cases (err e) = inr (e, refl)

-- A chain that succeeded has passed its first step.
pub >>=-eq-ok {ℓ κ} :
    {V : Type ℓ}
    → {W : Type κ} → {w : W} → (first : Result V) → (rest : V → Result W) → (first >>= rest) ≡ ok w
    → (v : V) × (first ≡ ok v) × (rest v ≡ ok w)
>>=-eq-ok (err message) rest passed = cc
>>=-eq-ok (ok v) rest passed = (v, refl, passed)
