-- ===== src/Upstream/Pool/Slots.antt =====
-- The slots of an upstream: the lists are full, every slot resolves, and NextClient goes round them.
use acme_gateway.Prelude.{
  ℕ, zero, suc, ◌+◌, ◌%◌, ◌<◌, ◌≤◌, String, ◌≡◌, refl, List, [], ◌∷◌, Option, none, some, Result,
  ok, err, eq_refl, arith, length, length-set, get_elem?, set, Result-cases, Option-cases,
  Bool-cases, ltb, inl, inr,
}
use native.Mathlib.Nat as M
use acme_gateway.Model.Int.{ℤ, pos, negsuc}
use acme_gateway.Config.{UpstreamConfig, lookup}
use acme_gateway.Store.Db.{Db}
use acme_gateway.Upstream.Types.{Client}
use acme_gateway.Upstream.Pool.{
  Env, Pool, slot_count, clamped, create_from, get_or_create_all, get_slot, or_zero, pick,
  finish_next, next_client, ensure_slot_registered, write_back,
}

get_elem?-lt {ℓ} :
    {A : Type ℓ} (xs : List A) (i : ℕ) → i < length xs → (a : A) × (get_elem? xs i ≡ some a)
get_elem?-lt [] i h = elim h [ ]
get_elem?-lt (x ∷ xs) zero h = (x, refl)
get_elem?-lt (x ∷ xs) (suc i) h = get_elem?-lt xs i (omega arith)

slot_count-pos : (z : ℤ) → 0 < slot_count z
slot_count-pos (pos zero) = omega arith
slot_count-pos (pos (suc n)) = omega arith
slot_count-pos (negsuc n) = omega arith

-- The client of a list that a slot number stands for.
pub data IsAtSlot (cs : List Client) : ℤ → Client → Type 0 where
  in_range : {n : ℕ} {c : Client} → n < length cs → get_elem? cs n ≡ some c → IsAtSlot cs (pos n) c
  beyond : {n : ℕ} {c : Client} → length cs ≤ n → get_elem? cs 0 ≡ some c → IsAtSlot cs (pos n) c
  negative : {k : ℕ} {c : Client} → get_elem? cs 0 ≡ some c → IsAtSlot cs (negsuc k) c

module _ (upstreams : List (String × UpstreamConfig)) (id : String) (up : UpstreamConfig)
    (known : lookup id upstreams ≡ some up) where
  -- The pool's list for the upstream, if it has one, has a client for each slot.
  pub record IsFull (p : Pool) : Type 0 where
    pub full :
        (cs : List Client) → lookup id p.clients ≡ some cs → length cs ≡ slot_count up.account_count

  module _ (env : Env) where
    length-create_from :
        (db : Db) (n slot : ℕ) (cs : List Client)
        → create_from upstreams env id up db n slot ≡ ok cs
        → length cs ≡ n
    unfolding create_from
    length-create_from db zero slot cs h = ground arith
    length-create_from db (suc n) slot cs h =
        elim (Result-cases (create_from upstreams env id up db n (slot + 1))) [
          | inl (rest, e) ↦ ground (arith, length-create_from db n (slot + 1) rest e)
          | inr (m, e) ↦ ground arith
        ]

    all_clients :
        (db : Db) (p : Pool) (cs : List Client)
        → IsFull p
        → (get_or_create_all upstreams env id db p).0 ≡ ok cs
        → (length cs ≡ slot_count up.account_count)
          × (lookup id (get_or_create_all upstreams env id db p).1.clients ≡ some cs)
          × ((get_or_create_all upstreams env id db p).1.next_slot ≡ p.next_slot)
    unfolding get_or_create_all
    all_clients db p cs f h = elim (Option-cases (lookup id p.clients)) [
      | inr (ds, e) ↦ (ground (arith, f.full ds e), ground arith, ground arith)
      | inl e ↦
          elim (Result-cases (create_from upstreams env id up db (slot_count up.account_count) 0)) [
            | inr (m, q) ↦ absurd (ground arith)
            | inl (ds, q) ↦ (
              ground (arith, length-create_from db (slot_count up.account_count) 0 ds q),
              ground (arith, eq_refl id),
              ground arith,
            )
          ]
    ]

    clamped-lt : (slot : ℤ) (n : ℕ) → 0 < n → clamped upstreams env slot n < n
    clamped-lt (pos slot) n h = ground arith
    clamped-lt (negsuc k) n h = h

    at_slot :
        (slot : ℤ) (cs : List Client) (c : Client)
        → 0 < length cs
        → get_elem? cs (clamped upstreams env slot (length cs)) ≡ some c
        → IsAtSlot cs slot c
    at_slot (negsuc k) cs c h e = negative e
    at_slot (pos n) cs c h e = elim (Bool-cases (ltb n (length cs))) [
      | inl inside ↦ in_range (ground arith) (ground arith)
      | inr outside ↦ beyond (ground arith) (ground arith)
    ]

    -- Where the pool's list for the upstream, if it has one, is full: whatever slot an order
    -- carries, the pool answers with a client as soon as the upstream's clients can be made: the
    -- one in that slot, or the first one where the slot is negative or beyond the list.
    pub get_slot_total :
        (slot : ℤ) (db : Db) (p : Pool) (cs : List Client)
        → IsFull p
        → (get_or_create_all upstreams env id db p).0 ≡ ok cs
        → (c : Client) × IsAtSlot cs slot c × ((get_slot upstreams env id slot db p).0 ≡ ok c)
    unfolding get_slot
    get_slot_total slot db p cs f h =
        let (n, _, _) = all_clients db p cs f h in
        let some_client : 0 < length cs = omega (arith, slot_count-pos up.account_count) in
        let inside = clamped-lt slot (length cs) some_client in
        let (c, e) = get_elem?-lt cs (clamped upstreams env slot (length cs)) inside in
        (c, at_slot slot cs c some_client e, ground (arith, h, e))

    -- A successful NextClient, step by step.
    picked :
        (db : Db) (p : Pool) (cs : List Client) (slot s : ℕ) (o : Option Client) (c : Client)
        → (pick upstreams env id up db p cs slot o).0 ≡ ok (c, s)
        → (s ≡ slot)
          × ((pick upstreams env id up db p cs slot o).1.next_slot ≡ p.next_slot)
          × (lookup id (pick upstreams env id up db p cs slot o).1.clients ≡ some (set cs slot c))
    picked db p cs slot s none c h = absurd (cc)
    picked db p cs slot s (some d) c h = go (ensure_slot_registered upstreams env id up slot db d) h
      where
        go :
            (r : Result Unit × Client × Db)
            → (finish_next upstreams env slot r (λ c'. write_back upstreams env id cs slot c' p)).0
              ≡ ok (c, s)
            → (s ≡ slot)
              × ((finish_next upstreams env slot r
                    (λ c'. write_back upstreams env id cs slot c' p)).1.next_slot
                  ≡ p.next_slot)
              × (lookup id
                    (finish_next upstreams env slot r
                      (λ c'. write_back upstreams env id cs slot c' p)).1.clients
                  ≡ some (set cs slot c))
        go (ok u, d', db') k = (ground arith, refl, ground (arith, eq_refl id))
        go (err e, d', db') k = absurd (cc)

    -- NextClient once the upstream's clients are there.
    abbrev taking : Pool → List Client → ℕ → Db → Result (Client × ℕ) × Pool × Db
    taking q cs slot db =
        pick upstreams env id up db
          (record q { next_slot = (id, (slot + 1) % length cs) ∷ q.next_slot }) cs slot
          (get_elem? cs slot)

    next-taking :
        (db : Db) (p : Pool) (cs : List Client)
        → (get_or_create_all upstreams env id db p).0 ≡ ok cs
        → next_client upstreams env id db p
          ≡ taking
              (get_or_create_all upstreams env id db p).1
              cs
              (or_zero (lookup id (get_or_create_all upstreams env id db p).1.next_slot)
                % length cs)
              db
    unfolding next_client
    next-taking db p cs e = rw (e, known, next_client)

    taking-steps :
        (db : Db) (q : Pool) (cs : List Client) (slot : ℕ) (c : Client) (s : ℕ)
        → length cs ≡ slot_count up.account_count
        → (taking q cs slot db).0 ≡ ok (c, s)
        → (s ≡ slot)
          × (or_zero (lookup id (taking q cs slot db).1.next_slot)
              ≡ (slot + 1) % slot_count up.account_count)
          × IsFull (taking q cs slot db).1
    taking-steps db q cs slot c s n h =
        let (same, next, listed) =
          picked db (record q { next_slot = (id, (slot + 1) % length cs) ∷ q.next_slot }) cs slot s
            (get_elem? cs slot) c h in
        (
          same,
          rw next (ground (arith, eq_refl id)),
          record { full = λ ds l. ground (arith, length-set cs slot c) },
        )

    next_client-steps :
        (db : Db) (p : Pool) (c : Client) (s : ℕ)
        → IsFull p
        → (next_client upstreams env id db p).0 ≡ ok (c, s)
        → (s ≡ or_zero (lookup id p.next_slot) % slot_count up.account_count)
          × (or_zero (lookup id (next_client upstreams env id db p).1.next_slot)
              ≡ (s + 1) % slot_count up.account_count)
          × IsFull (next_client upstreams env id db p).1
    next_client-steps db p c s f h =
        elim (Result-cases (get_or_create_all upstreams env id db p).0) [
          | inr (m, e) ↦ absurd (unfold next_client in ground arith)
          | inl (cs, e) ↦
              let q = (get_or_create_all upstreams env id db p).1 in
              let slot = or_zero (lookup id q.next_slot) % length cs in
              let (n, l, k) = all_clients db p cs f e in
              let eq = next-taking db p cs e in
              let (same, next, full) = taking-steps db q cs slot c s n (rw eq at h) in
              (ground arith, rw eq (ground arith), rw eq full)
        ]

-- Where the pool's list for the upstream, if it has one, is full, NextClient goes round the slots: a
-- call of it that succeeds gives a slot of the upstream, and a call straight after it that succeeds,
-- whatever the environment and the database then, gives the slot after it, back to 0 after the last.
pub next_client-round_robin :
    (upstreams : List (String × UpstreamConfig)) (id : String) (up : UpstreamConfig)
    (known : lookup id upstreams ≡ some up) (env later : Env) (db db' : Db) (p : Pool)
    (c c' : Client) (s s' : ℕ)
    → IsFull upstreams id up known p
    → (next_client upstreams env id db p).0 ≡ ok (c, s)
    → (next_client upstreams later id db' (next_client upstreams env id db p).1).0 ≡ ok (c', s')
    → (s < slot_count up.account_count) × (s' ≡ (s + 1) % slot_count up.account_count)
next_client-round_robin upstreams id up known env later db db' p c c' s s' f h h' =
    let (a, b, g) = next_client-steps upstreams id up known env db p c s f h in
    let (a', b', g') =
      next_client-steps upstreams id up known later db' (next_client upstreams env id db p).1 c' s'
        g h' in
    let n = slot_count-pos up.account_count in
    let inside = M.mod-lt (or_zero (lookup id p.next_slot)) n in
    let after = M.mod-lt (s + 1) n in (rw a inside, rw (a', b) (M.mod-eq_of_lt after))
