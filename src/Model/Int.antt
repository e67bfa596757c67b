-- ===== src/Model/Int.antt =====
-- Go's `int` where the program uses negative values: slots and revocation reasons.
use acme_gateway.Prelude.{ℕ, Bool, true, false}

-- `negsuc n` is -(n + 1).
pub data ℤ : Type 0 where
  pos : ℕ → ℤ
  negsuc : ℕ → ℤ

-- z < 0
abbrev pub is_negative : ℤ → Bool
is_negative (pos n) = false
is_negative (negsuc n) = true
