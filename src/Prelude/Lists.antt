-- ===== src/Prelude/Lists.antt =====
-- Lists: length and indexing by native numbers, tables of rows, predicates on all elements.
use Prim.Native.Nat.{ℕ, zero, suc, ◌+◌, ◌<◌}
use mathlib.Core.Path.{◌≡◌, refl, ap}
use mathlib.Core.Logic.{◌≢◌}
use mathlib.Core.Bool.{Bool, true, false, ◌||◌}
use mathlib.Core.List.{List, [], ◌∷◌, ◌++◌}
use mathlib.Core.Logic.{◌⊎◌, inl, inr}
use mathlib.Core.Option.{Option, none, some}
use native.Mathlib.Omega.{arith}
use acme_gateway.Prelude.Tests.{if◌then◌else◌, Bool-cases}

module _ {ℓ} {A : Type ℓ} where
  abbrev pub length : List A → ℕ
  length [] = 0
  length (x ∷ xs) = suc (length xs)

  abbrev pub get_elem? : List A → ℕ → Option A
  get_elem? [] i = none
  get_elem? (x ∷ xs) zero = some x
  get_elem? (x ∷ xs) (suc i) = get_elem? xs i

  abbrev pub get_or : List A → ℕ → A → A
  get_or [] i d = d
  get_or (x ∷ xs) zero d = x
  get_or (x ∷ xs) (suc i) d = get_or xs i d

  -- A write out of bounds changes nothing.
  abbrev pub set : List A → ℕ → A → List A
  set [] i v = []
  set (x ∷ xs) zero v = v ∷ xs
  set (x ∷ xs) (suc i) v = x ∷ set xs i v

  abbrev pub replicate : ℕ → A → List A
  replicate zero a = []
  replicate (suc n) a = a ∷ replicate n a

  pub length-append : (xs ys : List A) → length (xs ++ ys) ≡ length xs + length ys
  length-append [] ys = omega arith
  length-append (x ∷ xs) ys = omega (arith, length-append xs ys)

  pub length-set : (xs : List A) (i : ℕ) (v : A) → length (set xs i v) ≡ length xs
  length-set [] i v = refl
  length-set (x ∷ xs) zero v = refl
  length-set (x ∷ xs) (suc i) v = ap suc (length-set xs i v)

  pub length-replicate : (n : ℕ) (a : A) → length (replicate n a) ≡ n
  length-replicate zero a = refl
  length-replicate (suc n) a = ap suc (length-replicate n a)

  pub get_or-set_self :
      (xs : List A) (i : ℕ) (v d : A) → i < length xs → get_or (set xs i v) i d ≡ v
  get_or-set_self [] i v d h = elim h [ ]
  get_or-set_self (x ∷ xs) zero v d h = refl
  get_or-set_self (x ∷ xs) (suc i) v d h = get_or-set_self xs i v d (omega arith)

  pub get_or-set_ne :
      (xs : List A) (i j : ℕ) (v d : A) → i ≢ j → get_or (set xs i v) j d ≡ get_or xs j d
  get_or-set_ne [] i j v d h = refl
  get_or-set_ne (x ∷ xs) zero zero v d h = absurd (h refl)
  get_or-set_ne (x ∷ xs) zero (suc j) v d h = refl
  get_or-set_ne (x ∷ xs) (suc i) zero v d h = refl
  get_or-set_ne (x ∷ xs) (suc i) (suc j) v d h = get_or-set_ne xs i j v d (λ e. h (ap suc e))

-- Rows of a table: the first that a test selects, those that it selects, the table without them.
module _ {ℓ} {A : Type ℓ} (p : A → Bool) where
  abbrev pub find_row : List A → Option A
  find_row [] = none
  find_row (x ∷ xs) = if p x then some x else find_row xs

  abbrev pub select : List A → List A
  select [] = []
  select (x ∷ xs) = let rest = select xs in if p x then x ∷ rest else rest

  abbrev pub delete : List A → List A
  delete [] = []
  delete (x ∷ xs) = let rest = delete xs in if p x then rest else x ∷ rest

  abbrev pub update : (A → A) → List A → List A
  update f [] = []
  update f (x ∷ xs) = (if p x then f x else x) ∷ update f xs

  abbrev pub any : List A → Bool
  any [] = false
  any (x ∷ xs) = p x || any xs

module _ {ℓ κ} {A : Type ℓ} (P : A → Type κ) where
  abbrev pub All : List A → Type κ
  All [] = Unit
  All (x ∷ xs) = P x × All xs

module _ {ℓ} {A : Type ℓ} (p : A → Bool) where
  pub find_row_sound : (xs : List A) {a : A} → find_row p xs ≡ some a → p a ≡ true
  find_row_sound [] h = cc
  find_row_sound (x ∷ xs) {a} h = elim (Bool-cases (p x)) [
    | inl e ↦ ground (arith)
    | inr e ↦ find_row_sound xs (ground arith)
  ]

  pub find_row-delete_self : (xs : List A) → find_row p (delete p xs) ≡ none
  find_row-delete_self [] = refl
  find_row-delete_self (x ∷ xs) = ground (arith, find_row-delete_self xs)

  pub find_row-append_some :
      (xs ys : List A) {a : A} → find_row p xs ≡ some a → find_row p (xs ++ ys) ≡ some a
  find_row-append_some [] ys h = cc
  find_row-append_some (x ∷ xs) ys {a} h = ground (arith, find_row-append_some xs ys {a = a})

  pub find_row-append_none :
      (xs ys : List A) → find_row p xs ≡ none → find_row p (xs ++ ys) ≡ find_row p ys
  find_row-append_none [] ys h = refl
  find_row-append_none (x ∷ xs) ys h = ground (arith, find_row-append_none xs ys)

  module _ (q : A → Bool) (apart : (x : A) → p x ≡ true → q x ≡ false) where
    pub find_row-delete_other : (xs : List A) → find_row q (delete p xs) ≡ find_row q xs
    find_row-delete_other [] = refl
    find_row-delete_other (x ∷ xs) = ground (arith, apart x, find_row-delete_other xs)

-- Some element has the property.
abbrev pub Some {ℓ} : {A : Type ℓ} → (A → Type 0) → List A → Type 0
Some P [] = ⊥
Some P (x ∷ xs) = P x ⊎ Some P xs
