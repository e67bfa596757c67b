-- ===== src/Upstream/NonceRing/Laws.antt =====
-- The ring buffer is a first-in, first-out queue of at most eight nonces.
use acme_gateway.Prelude.{
  Option-cases, inl, inr, ℕ, zero, suc, ◌+◌, ◌-◌, ◌%◌, ◌≤◌, ◌<◌, String, ◌≡◌, ◌≢◌, refl, ap, List,
  [], ◌∷◌, ◌++◌, Option, none, some, get_or, set, length, length-set, get_or-set_self,
  get_or-set_ne, ◌==◌, ltb, arith, if◌then◌else◌,
}
use acme_gateway.Upstream.Types.{Client, new_client}
use acme_gateway.Upstream.NonceRing.{take_nonce, save_nonce}

abbrev window : List String → ℕ → ℕ → List String
window xs h zero = []
window xs h (suc n) = get_or xs h "" ∷ window xs ((h + 1) % 8) n

-- The cached nonces, oldest first.
abbrev pub queue : Client → List String
queue c = window c.nonces c.nonce_head c.nonce_count

pub record IsRing (c : Client) : Type 0 where
  pub size : length c.nonces ≡ 8
  pub head : c.nonce_head < 8
  pub count : c.nonce_count ≤ 8
  pub tail : c.nonce_tail ≡ (c.nonce_head + c.nonce_count) % 8

-- A write outside the window does not change it.
window-set :
    (xs : List String) (i h m n : ℕ) (v : String)
    → h < 8
    → m < 8
    → n ≤ m
    → i ≡ (h + m) % 8
    → window (set xs i v) h n ≡ window xs h n
window-set xs i h m zero v a b c e = refl
window-set xs i h m (suc n) v a b c e =
    let apart : i ≢ h = omega arith in
    ground (
      arith,
      get_or-set_ne xs i h v "" apart,
      window-set xs i ((h + 1) % 8) (m - 1) n v (omega arith) (omega arith) (omega arith)
          (omega arith),
    )

window-snoc :
    (xs : List String) (h n i : ℕ)
    → h < 8
    → i ≡ (h + n) % 8
    → window xs h (suc n) ≡ window xs h n ++ get_or xs i "" ∷ []
window-snoc xs h zero i a e = let e' : i ≡ h = omega arith in rw e'
window-snoc xs h (suc n) i a e =
    ap (λ l. get_or xs h "" ∷ l) (window-snoc xs ((h + 1) % 8) n i (omega arith) (omega arith))

length-window : (xs : List String) (h n : ℕ) → length (window xs h n) ≡ n
length-window xs h zero = refl
length-window xs h (suc n) = ap suc (length-window xs ((h + 1) % 8) n)

window_pred :
    (xs : List String) (h n : ℕ)
    → 0 < n
    → window xs h n ≡ get_or xs h "" ∷ window xs ((h + 1) % 8) (n - 1)
window_pred xs h zero a = elim a [ ]
window_pred xs h (suc n) a = let e : suc n - 1 ≡ n = omega arith in rw e

pub new_client-IsRing : (url key : String) → IsRing (new_client url key)
new_client-IsRing url key = record {
  size = refl;
  head = omega arith;
  count = omega arith;
  tail = refl;
}

save_nonce-IsRing : (n : String) (c : Client) → IsRing c → IsRing (save_nonce n c)
unfolding save_nonce
save_nonce-IsRing n c r = ground (arith, length-set c.nonces c.nonce_tail n)

take_nonce-IsRing :
    (c : Client) {n : String} {c' : Client} → take_nonce c ≡ some (n, c') → IsRing c → IsRing c'
unfolding take_nonce
take_nonce-IsRing c e r = ground (arith, length-set c.nonces c.nonce_head "")

saved :
    (n : String) (c : Client)
    → IsRing c
    → c.nonce_count < 8
    → window (set c.nonces c.nonce_tail n) c.nonce_head (c.nonce_count + 1) ≡ queue c ++ n ∷ []
saved n c r room =
    let xs = set c.nonces c.nonce_tail n in
    let bound : c.nonce_tail < length c.nonces = omega arith in
    let e : c.nonce_count + 1 ≡ suc c.nonce_count = omega arith in
    rw (
      e,
      window-snoc xs c.nonce_head c.nonce_count c.nonce_tail r.head r.tail,
      get_or-set_self c.nonces c.nonce_tail n "" bound,
      window-set c.nonces c.nonce_tail c.nonce_head c.nonce_count c.nonce_count n r.head room
          (omega arith) r.tail,
    )

taken :
    (c : Client)
    → IsRing c
    → 0 < c.nonce_count
    → queue c
      ≡ get_or c.nonces c.nonce_head ""
        ∷ window (set c.nonces c.nonce_head "") ((c.nonce_head + 1) % 8) (c.nonce_count - 1)
taken c r some_left = rw (
  window_pred c.nonces c.nonce_head c.nonce_count some_left,
  window-set c.nonces c.nonce_head ((c.nonce_head + 1) % 8) 7 (c.nonce_count - 1) "" (omega arith)
      (omega arith) (omega arith) (omega arith),
)

-- The queue of nonces after one more arrives: an empty one, or one that finds eight, is dropped.
abbrev pub pushed : String → List String → List String
pushed n q = if n == "" then q else if ltb (length q) 8 then q ++ n ∷ [] else q

-- On a well-formed ring buffer, which it keeps so, saving a nonce appends it to the queue of cached
-- nonces unless it is empty or eight are cached.
pub queue-save_nonce :
    (n : String) (c : Client)
    → IsRing c
    → IsRing (save_nonce n c) × (queue (save_nonce n c) ≡ pushed n (queue c))
queue-save_nonce n c r = (
  save_nonce-IsRing n c r,
  unfold save_nonce in
      ground (arith, saved n c r, length-window c.nonces c.nonce_head c.nonce_count),
)

-- What was taken from a queue: nothing from an empty one, or its head, which leaves its tail.
unfoldable pub IsTaken : List String → Option (String × Client) → Type 0
IsTaken q none = q ≡ []
IsTaken q (some (n, c)) = IsRing c × (q ≡ n ∷ queue c)

-- On a well-formed ring buffer, taking a nonce gives the oldest of the cached ones, removes just
-- that one and keeps the buffer's shape; none is given only when none is cached.
pub queue-take_nonce : (c : Client) → IsRing c → IsTaken (queue c) (take_nonce c)
unfolding IsTaken
queue-take_nonce c r = elim (Option-cases (take_nonce c)) [
  | inl e ↦
      rw e (unfold take_nonce in ground (arith, window_pred c.nonces c.nonce_head c.nonce_count))
  | inr ((n, c'), e) ↦
      rw e (take_nonce-IsRing c e r, unfold take_nonce in ground (arith, taken c r))
]
