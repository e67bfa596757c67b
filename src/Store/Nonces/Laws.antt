-- ===== src/Store/Nonces/Laws.antt =====
-- Replay protection: a nonce is accepted once, within its lifetime.
use acme_gateway.Prelude.{
  ℕ, ◌+◌, ◌≤◌, ◌<◌, String, Bool, true, false, ◌≡◌, ◌≢◌, refl, Option, none, some, Result, ok, err,
  eq_iff, eq_refl, arith, find_row, delete, find_row-delete_self, find_row-delete_other,
  find_row-append_none, List, [], ◌∷◌, All,
}
use acme_gateway.Model.{Nonce}
use acme_gateway.Store.Db.{Db, second, whole_seconds}
use acme_gateway.Store.Nonces.{
  after_lookup, nonce_ttl, has_value, issue_nonce, Faults, no_faults, remove, consume_nonce,
  prune_expired_nonces,
}

-- The nonce that the table holds under a value.
abbrev pub pending : String → Db → Option Nonce
pending value db = find_row (has_value value) db.nonces

apart : (v w : String) → v ≢ w → (n : Nonce) → has_value v n ≡ true → has_value w n ≡ false
apart v w h n e = ground (arith, eq_iff n.value v, eq_iff n.value w)

pub pending-remove_self : (v : String) (db : Db) → pending v (remove v db) ≡ none
pending-remove_self v db = find_row-delete_self (has_value v) db.nonces

pub pending-remove_other : (v w : String) (db : Db) → v ≢ w → pending w (remove v db) ≡ pending w db
pending-remove_other v w db h =
    find_row-delete_other (has_value v) (has_value w) (apart v w h) db.nonces

-- The operations on nonces, with what the environment decides in each.
pub data Call : Type 0 where
  issues : Result String → Option String → ℕ → Call
  consumes : Faults → ℕ → String → Call
  prunes : (ℕ → ℕ → Bool) → Option String → ℕ → Call

unfoldable pub run_call : Call → Db → Db
run_call (issues random failure now) db = (issue_nonce random failure now db).1
run_call (consumes f now value) db = (consume_nonce f now value db).1
run_call (prunes expired failure now) db = (prune_expired_nonces expired failure now db).1

pub run_calls : List Call → Db → Db
run_calls [] db = db
run_calls (c ∷ cs) db = run_calls cs (run_call c db)

-- The call does not draw this value as a new nonce.
abbrev pub Avoids : String → Call → Type 0
Avoids v (issues (ok w) failure now) = w ≢ v
Avoids v (issues (err e) failure now) = Unit
Avoids v (consumes f now value) = Unit
Avoids v (prunes expired failure now) = Unit

absent-delete :
    (p q : Nonce → Bool) (xs : List Nonce) → find_row q xs ≡ none → find_row q (delete p xs) ≡ none
absent-delete p q [] h = refl
absent-delete p q (x ∷ xs) h = ground (arith, absent-delete p q xs)

absent-remove : (v w : String) (db : Db) → pending v db ≡ none → pending v (remove w db) ≡ none
absent-remove v w db = absent-delete (has_value w) (has_value v) db.nonces

issue-absent :
    (v w : String) (failure : Option String) (now : ℕ) (db : Db)
    → w ≢ v
    → pending v db ≡ none
    → pending v (issue_nonce (ok w) failure now db).1 ≡ none
unfolding issue_nonce
issue-absent v w (some e) now db h a = a
issue-absent v w none now db h a = ground (
  arith,
  eq_iff w v,
  find_row-append_none (has_value v) db.nonces
      (record { value = w; expires_at = whole_seconds (now + nonce_ttl) } ∷ []) a,
)

consume-absent :
    (v w : String) (f : Faults) (now : ℕ) (db : Db)
    → pending v db ≡ none
    → pending v (consume_nonce f now w db).1 ≡ none
unfolding consume_nonce
consume-absent v w f now db a = ground (arith, absent-remove v w db a)

run_call-absent :
    (v : String) (c : Call) (db : Db)
    → Avoids v c
    → pending v db ≡ none
    → pending v (run_call c db) ≡ none
unfolding run_call
run_call-absent v (issues (ok w) failure now) db h a = issue-absent v w failure now db h a
run_call-absent v (issues (err e) failure now) db h a = unfold issue_nonce in a
run_call-absent v (consumes f now w) db h a = consume-absent v w f now db a
run_call-absent v (prunes expired none now) db h a =
    unfold prune_expired_nonces in
    absent-delete (λ n. expired n.expires_at now) (has_value v) db.nonces a
run_call-absent v (prunes expired (some e) now) db h a = unfold prune_expired_nonces in a

run_calls-absent :
    (v : String) (cs : List Call) (db : Db)
    → All (Avoids v) cs
    → pending v db ≡ none
    → pending v (run_calls cs db) ≡ none
unfolding run_calls
run_calls-absent v [] db h a = a
run_calls-absent v (c ∷ cs) db (h, hs) a =
    run_calls-absent v cs (run_call c db) hs (run_call-absent v c db h a)

consumed :
    (f : Faults) (now : ℕ) (v : String) (db : Db)
    → (consume_nonce f now v db).0 ≡ ok tt
    → pending v (consume_nonce f now v db).1 ≡ none
unfolding consume_nonce
consumed f now v db h = ground (arith, pending-remove_self v db)

refused_when_absent :
    (f : Faults) (now : ℕ) (v : String) (db : Db)
    → pending v db ≡ none
    → (consume_nonce f now v db).0 ≢ ok tt
unfolding consume_nonce
refused_when_absent f now v db h = ground arith

-- Once a nonce is accepted it is never accepted again, after any further operations on nonces
-- (whatever the clock and the database do in them) that do not draw the same value anew.
pub nonce_single_use :
    (f g : Faults) (now later : ℕ) (v : String) (db : Db) (cs : List Call)
    → (consume_nonce f now v db).0 ≡ ok tt
    → All (Avoids v) cs
    → (consume_nonce g later v (run_calls cs (consume_nonce f now v db).1)).0 ≢ ok tt
nonce_single_use f g now later v db cs h avoid =
    refused_when_absent g later v _ (run_calls-absent v cs _ avoid (consumed f now v db h))

-- What `issue_nonce` stores.
issued :
    (v : String) (failure : Option String) (now : ℕ) (db : Db)
    → (issue_nonce (ok v) failure now db).0 ≡ ok v
    → pending v (issue_nonce (ok v) failure now db).1
      ≡ some (record { value = v; expires_at = whole_seconds (now + nonce_ttl) })
unfolding issue_nonce
issued v (some e) now db h = cc
issued v none now db h = ground (
  arith,
  eq_refl v,
  find_row-append_none (has_value v) db.nonces
      (record { value = v; expires_at = whole_seconds (now + nonce_ttl) } ∷ []),
)

-- A nonce that was issued is accepted by a working database at any time up to one second before its
-- ten minutes are over.
pub consume_nonce-issue_nonce :
    (v : String) (failure : Option String) (issued_at now : ℕ) (db : Db)
    → (issue_nonce (ok v) failure issued_at db).0 ≡ ok v
    → now + second ≤ issued_at + nonce_ttl
    → (consume_nonce no_faults now v (issue_nonce (ok v) failure issued_at db).1).0 ≡ ok tt
unfolding consume_nonce
consume_nonce-issue_nonce v failure issued_at now db h early =
    rw (issued v failure issued_at db h) (ground arith)

looked_up-gone :
    (now : ℕ) (v : String) (db : Db) (n : Nonce)
    → pending v (after_lookup no_faults now v db (some n)).1 ≡ none
looked_up-gone now v db n = ground (arith, pending-remove_self v db)

-- A nonce that was issued is refused as expired by a working database once its ten minutes are over,
-- and it is gone then.
pub consume_nonce-expired :
    (v : String) (failure : Option String) (issued_at now : ℕ) (db : Db)
    → (issue_nonce (ok v) failure issued_at db).0 ≡ ok v
    → issued_at + nonce_ttl < now
    → ((consume_nonce no_faults now v (issue_nonce (ok v) failure issued_at db).1).0
        ≡ err "nonce expired")
      × (pending v (consume_nonce no_faults now v (issue_nonce (ok v) failure issued_at db).1).1
          ≡ none)
unfolding consume_nonce
consume_nonce-expired v failure issued_at now db h late =
    let e = issued v failure issued_at db h in
    (
      rw e (ground arith),
      rw e (
          looked_up-gone now v (issue_nonce (ok v) failure issued_at db).1
            (record { value = v; expires_at = whole_seconds (issued_at + nonce_ttl) })),
    )
