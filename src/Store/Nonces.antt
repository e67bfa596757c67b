-- ===== src/Store/Nonces.antt =====
-- internal/store/nonces.go
pub mod Laws
use acme_gateway.Prelude.{
  ℕ, ◌+◌, ◌*◌, String, Bool, List, [], ◌∷◌, ◌++◌, Option, none, some, Result, ok, err, ◌==◌, ltb,
  find_row, delete, is_some, if◌then◌else◌, ◌<>◌,
}
use acme_gateway.Model.{Nonce}
use acme_gateway.Store.Db.{Db, second, whole_seconds}

-- 10 minutes
abbrev pub nonce_ttl : ℕ
nonce_ttl = 600 * second

abbrev pub has_value : String → Nonce → Bool
has_value value n = n.value == value

-- `random` is the encoded result of rand.Read, or its error; the primary key refuses a value that
-- the table holds.
unfoldable pub issue_nonce : Result String → Option String → ℕ → Db → Result String × Db
issue_nonce (err e) failure now db = (err ("generating nonce: " <> e), db)
issue_nonce (ok value) (some e) now db = (err ("saving nonce: " <> e), db)
issue_nonce (ok value) none now db =
    if is_some (find_row (has_value value) db.nonces)
    then (err "saving nonce: UNIQUE constraint failed: nonces.nonce", db)
    else (
      ok value,
      record db {
        nonces =
            db.nonces
            ++ record { value = value; expires_at = whole_seconds (now + nonce_ttl) } ∷ [];
      },
    )

-- What the database reports for each statement of the transaction of `consume_nonce`.
pub record Faults : Type 0 where
  pub begin : Option String
  pub select : Option String
  pub delete : Option String
  pub commit : Option String

abbrev pub no_faults : Faults
no_faults = record { begin = none; select = none; delete = none; commit = none }

abbrev remove : String → Db → Db
remove value db = record db { nonces = delete (has_value value) db.nonces }

-- The deletion takes effect with the commit.
abbrev committed : Option String → Option String → String → Db → Db
committed none none value db = remove value db
committed _ _ value db = db

abbrev delete_error : Option String → Option String → Result (Unit {0})
delete_error (some e) commit = err e
delete_error none (some e) = err e
delete_error none none = ok tt

abbrev after_lookup : Faults → ℕ → String → Db → Option Nonce → Result (Unit {0}) × Db
after_lookup f now value db none = (err "nonce not found", db)
after_lookup f now value db (some n) =
    if ltb n.expires_at now
    then (err "nonce expired", committed f.delete f.commit value db)
    else (delete_error f.delete f.commit, committed f.delete f.commit value db)

abbrev after_begin :
    Option String → Option String → Faults → ℕ → String → Db → Result (Unit {0}) × Db
after_begin (some e) _ f now value db = (err e, db)
after_begin none (some e) f now value db = (err e, db)
after_begin none none f now value db =
    after_lookup f now value db (find_row (has_value value) db.nonces)

unfoldable pub consume_nonce : Faults → ℕ → String → Db → Result (Unit {0}) × Db
consume_nonce f now value db = after_begin f.begin f.select f now value db

-- store.go, PruneExpiredNonces; `expired` is the database's comparison of the stored expiry with
-- the bound time
unfoldable pub prune_expired_nonces :
    (ℕ → ℕ → Bool) → Option String → ℕ → Db → Result (Unit {0}) × Db
prune_expired_nonces expired (some e) now db = (err e, db)
prune_expired_nonces expired none now db =
    (ok tt, record db { nonces = delete (λ n. expired n.expires_at now) db.nonces })
