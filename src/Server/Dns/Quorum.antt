-- ===== src/Server/Dns/Quorum.antt =====
-- How many name servers have to agree.
use acme_gateway.Prelude.{ℕ, zero, suc, ◌+◌, ◌*◌, ◌≤◌, ◌<◌, arith}
use native.Mathlib.Nat as M
use acme_gateway.Model.Int.{ℤ, pos, negsuc}
use acme_gateway.Server.Dns.{percent, quorum_requirement}

percent-bounds : (p : ℤ) → (1 ≤ percent p) × (percent p ≤ 100)
percent-bounds (pos zero) = (omega arith, omega arith)
percent-bounds (pos (suc p)) = (ground arith, ground arith)
percent-bounds (negsuc p) = (omega arith, omega arith)

-- For `n` name servers, one at least, the quorum is between 1 and `n`, and it is the least number
-- that is `p` percent of `n` at least, where `p` is the configured percentage, taken as 100 if it is
-- not between 1 and 100.
pub quorum_requirement-least :
    (n : ℕ) (p : ℤ)
    → 1 ≤ n
    → (1 ≤ quorum_requirement (pos n) p)
      × (quorum_requirement (pos n) p ≤ n)
      × (n * percent p ≤ quorum_requirement (pos n) p * 100)
      × (quorum_requirement (pos n) p * 100 < n * percent p + 100)
unfolding quorum_requirement
quorum_requirement-least n p h =
    let (lo, hi) = percent-bounds p in
    let x = n * percent p in
    let below : n ≤ x = omega (arith, M.mul-le-mul_left n lo) in
    let above : x ≤ n * 100 = M.mul-le-mul_left n hi in
    (omega arith, omega arith, omega arith, omega arith)
