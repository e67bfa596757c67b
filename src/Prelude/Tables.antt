-- ===== src/Prelude/Tables.antt =====
-- Tables keyed by a text: INSERT OR REPLACE, updates, presence, distinct keys.
use Prim.Native.String.{String}
use mathlib.Core.Path.{◌≡◌, refl}
use mathlib.Core.Bool.{Bool, true, false}
use mathlib.Core.List.{List, [], ◌∷◌, ◌++◌}
use mathlib.Core.Option.{none, some}
use native.Mathlib.Omega.{arith}
use text.Mathlib.Text.{◌==◌}
use text.Mathlib.TextEquality.{eq_iff}
use text.Mathlib.TextPositions.{eq_refl}
use acme_gateway.Prelude.Tests.{is_some, if◌then◌else◌}
use acme_gateway.Prelude.Lists.{find_row, delete, update, All, find_row-delete_self}

module _ {ℓ κ} {A : Type ℓ} (P : A → Type κ) where
  pub All-concat : (xs : List A) {y : A} → All P xs → P y → All P (xs ++ y ∷ [])
  All-concat [] h p = (p, tt)
  All-concat (x ∷ xs) (q, h) p = (q, All-concat xs h p)

  pub All-middle :
      (xs : List A) (y : A) (ys : List A) → All P (xs ++ y ∷ ys) → P y × All P (xs ++ ys)
  All-middle [] y ys h = h
  All-middle (x ∷ xs) y ys (p, h) = let (q, k) = All-middle xs y ys h in (q, (p, k))

  pub All-delete : (p : A → Bool) (xs : List A) → All P xs → All P (delete p xs)
  All-delete p [] h = tt
  All-delete p (x ∷ xs) (q, h) = ground (arith, All-delete p xs h)

module _ {ℓ κ μ} {A : Type ℓ} {P : A → Type κ} {Q : A → Type μ} where
  pub All-imp : ((x : A) → P x → Q x) → (xs : List A) → All P xs → All Q xs
  All-imp f [] h = tt
  All-imp f (x ∷ xs) (p, h) = (f x p, All-imp f xs h)

  pub All-update :
      (p : A → Bool) (f : A → A)
      → ((x : A) → P x → Q x)
      → ((x : A) → P x → Q (f x))
      → (xs : List A) → All P xs
      → All Q (update p f xs)
  All-update p f keep change [] h = tt
  All-update p f keep change (x ∷ xs) (q, h) =
      (ground (arith, keep x q, change x q), All-update p f keep change xs h)

module _ {ℓ} {A : Type ℓ} where
  pub find_row-All : (p : A → Bool) (xs : List A) → find_row p xs ≡ none → All (λ x. p x ≡ false) xs
  find_row-All p [] h = tt
  find_row-All p (x ∷ xs) h = (ground arith, find_row-All p xs (ground arith))

  pub All-find_row : (p : A → Bool) (xs : List A) → All (λ x. p x ≡ false) xs → find_row p xs ≡ none
  All-find_row p [] h = refl
  All-find_row p (x ∷ xs) (q, h) = rw (q) (All-find_row p xs h)

  -- No two elements are in the relation, the earlier one first.
  abbrev pub Distinct : (A → A → Bool) → List A → Type ℓ
  Distinct same [] = Unit
  Distinct same (x ∷ xs) = All (λ y. same x y ≡ false) xs × Distinct same xs

module _ {ℓ} {A : Type ℓ} (same : A → A → Bool) where
  pub Distinct-concat :
      (xs : List A) (y : A)
      → Distinct same xs
      → All (λ x. same x y ≡ false) xs
      → Distinct same (xs ++ y ∷ [])
  Distinct-concat [] y d h = (tt, tt)
  Distinct-concat (x ∷ xs) y (a, d) (p, h) =
      (All-concat (λ z. same x z ≡ false) xs a p, Distinct-concat xs y d h)

  pub Distinct-delete :
      (p : A → Bool) (xs : List A) → Distinct same xs → Distinct same (delete p xs)
  Distinct-delete p [] d = tt
  Distinct-delete p (x ∷ xs) (a, d) =
      ground (arith, Distinct-delete p xs d, All-delete (λ z. same x z ≡ false) p xs a)

module _ {ℓ} {A : Type ℓ} (key : A → String) where
  abbrev pub keyed : String → A → Bool
  keyed k x = key x == k

  abbrev pub same_key : A → A → Bool
  same_key x y = key x == key y

  -- INSERT OR REPLACE
  abbrev pub put : A → List A → List A
  put x xs = delete (keyed (key x)) xs ++ x ∷ []

  abbrev pub IsPresent : List A → String → Type 0
  IsPresent xs k = is_some (find_row (keyed k) xs) ≡ true

  pub find_row-put :
      (k : String) (x : A) (xs : List A)
      → find_row (keyed k) (put x xs) ≡ (if key x == k then some x else find_row (keyed k) xs)
  find_row-put k x [] = refl
  find_row-put k x (y ∷ xs) =
      ground
        (arith, find_row-put k x xs, eq_iff (key x) k, eq_iff (key y) k, eq_iff (key y) (key x))

  pub put-IsPresent : (k : String) (x : A) (xs : List A) → IsPresent xs k → IsPresent (put x xs) k
  put-IsPresent k x xs h = ground (arith, find_row-put k x xs)

  pub put-IsPresent_self : (x : A) (xs : List A) → IsPresent (put x xs) (key x)
  put-IsPresent_self x xs = ground (arith, find_row-put (key x) x xs, eq_refl (key x))

  pub put-Distinct : (x : A) (xs : List A) → Distinct same_key xs → Distinct same_key (put x xs)
  put-Distinct x xs d =
      Distinct-concat same_key (delete (keyed (key x)) xs) x
        (Distinct-delete same_key (keyed (key x)) xs d)
        (find_row-All (keyed (key x)) _ (find_row-delete_self (keyed (key x)) xs))

  -- An update that keeps the keys.
  module _ (p : A → Bool) (f : A → A) (same : (x : A) → key (f x) ≡ key x) where
    pub find_row-update :
        (k : String) (xs : List A)
        → find_row (keyed k) (update p f xs)
          ≡ elim (find_row (keyed k) xs) [ none ↦ none | some x ↦ some (if p x then f x else x) ]
    find_row-update k [] = refl
    find_row-update k (x ∷ xs) = ground (arith, find_row-update k xs, same x)

    pub update-IsPresent : (k : String) (xs : List A) → IsPresent xs k → IsPresent (update p f xs) k
    update-IsPresent k xs h = ground (arith, find_row-update k xs)

    pub update-Distinct : (xs : List A) → Distinct same_key xs → Distinct same_key (update p f xs)
    update-Distinct [] d = tt
    update-Distinct (x ∷ xs) (a, d) = (
      All-update {Q = λ y. same_key (if p x then f x else x) y ≡ false} p f
          (λ y h. ground (arith, same x)) (λ y h. ground (arith, same x, same y)) xs a,
      update-Distinct xs d,
    )
