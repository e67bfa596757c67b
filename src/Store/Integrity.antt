-- ===== src/Store/Integrity.antt =====
-- The constraints of the schema hold in every state that the store's operations reach.
use acme_gateway.Prelude.{
  ℕ, String, Bool, false, ◌≡◌, refl, Option, none, some, ◌==◌, ok, err, arith, List, [], ◌∷◌, ◌++◌,
  All, find_row, update, Bool-cases, if◌then◌else◌,
}
use acme_gateway.Prelude.Tables.{
  All-concat, All-delete, All-imp, All-update, find_row-All, Distinct, Distinct-concat, IsPresent,
  put, put-IsPresent, put-Distinct, same_key, update-IsPresent, update-Distinct,
}
use acme_gateway.Model.{Account, UpstreamAccount, Order, ResourceMap}
use acme_gateway.Store.Db.{Db, whole_seconds}
use acme_gateway.Store.Nonces.{issue_nonce, consume_nonce, prune_expired_nonces}
use acme_gateway.Store.Nonces.Laws.{Call, run_call}
use acme_gateway.Store.Orders.{save_order, update_order_status, has_id}
use acme_gateway.Store.Accounts.{
  save_account, save_upstream_account, save_upstream_account_for_account,
}
use acme_gateway.Store.Resources.{
  save_resource, update_resource_cert_fingerprint, conflicts, has_gateway_id,
}

abbrev pub account_key : Account → String
account_key a = a.id

abbrev pub order_key : Order → String
order_key o = o.id

-- The primary keys, the unique index of `resource_map`, and the foreign keys.
pub record Integrity (db : Db) : Type 0 where
  pub accounts_keyed : Distinct (same_key account_key) db.accounts
  pub orders_keyed : Distinct (same_key order_key) db.orders
  pub resources_keyed : Distinct (λ row r. conflicts r row) db.resource_map
  pub orders_owned : All (λ (o : Order). IsPresent account_key db.accounts o.account_id) db.orders
  pub resources_owned :
      All (λ (r : ResourceMap). IsPresent order_key db.orders r.order_id) db.resource_map

pub data Write : Type 0 where
  account : Option String → Account → Write
  upstream_account upstream_account_for_account : Option String → UpstreamAccount → Write
  order : Option String → Order → Write
  order_status : Option String → ℕ → String → String → Write
  resource : Option String → ResourceMap → Write
  cert_fingerprint : Option String → String → String → Write
  nonce : Call → Write

unfoldable pub write : Write → Db → Db
write (account failure a) db = (save_account failure a db).1
write (upstream_account failure ua) db = (save_upstream_account failure ua db).1
write (upstream_account_for_account failure ua) db =
    (save_upstream_account_for_account failure ua db).1
write (order failure o) db = (save_order failure o db).1
write (order_status failure now id status) db = (update_order_status failure now id status db).1
write (resource failure r) db = (save_resource failure r db).1
write (cert_fingerprint failure id fp) db = (update_resource_cert_fingerprint failure id fp db).1
write (nonce c) db = run_call c db

pub save_account-Integrity :
    (failure : Option String) (a : Account) (db : Db)
    → Integrity db
    → Integrity (save_account failure a db).1
unfolding save_account
save_account-Integrity (some e) a db i = i
save_account-Integrity none a db i =
    let saved : Account = record a { created_at = whole_seconds a.created_at } in
    record {
      accounts_keyed = put-Distinct account_key saved db.accounts i.accounts_keyed;
      orders_keyed = i.orders_keyed;
      resources_keyed = i.resources_keyed;
      orders_owned =
          All-imp (λ o h. put-IsPresent account_key o.account_id saved db.accounts h) db.orders
            i.orders_owned;
      resources_owned = i.resources_owned;
    }

order_saved :
    (saved : Order) (db : Db)
    → IsPresent account_key db.accounts saved.account_id
    → Integrity db
    → Integrity (record db { orders = put order_key saved db.orders })
order_saved saved db h i = record {
  accounts_keyed = i.accounts_keyed;
  orders_keyed = put-Distinct order_key saved db.orders i.orders_keyed;
  resources_keyed = i.resources_keyed;
  orders_owned =
      All-concat (λ (x : Order). IsPresent account_key db.accounts x.account_id) _
        (All-delete (λ (x : Order). IsPresent account_key db.accounts x.account_id)
          (λ x. x.id == saved.id) db.orders i.orders_owned)
        h;
  resources_owned =
      All-imp (λ r p. put-IsPresent order_key r.order_id saved db.orders p) db.resource_map
        i.resources_owned;
}

pub save_order-Integrity :
    (failure : Option String) (o : Order) (db : Db)
    → Integrity db
    → Integrity (save_order failure o db).1
unfolding save_order
save_order-Integrity (some e) o db i = i
save_order-Integrity none o db i = ground (
  arith,
  λ (h : IsPresent account_key db.accounts o.account_id).
      order_saved
        (record o {
          created_at = whole_seconds o.created_at;
          updated_at = whole_seconds o.updated_at;
        })
        db h i,
)

status_updated :
    (p : Order → Bool) (status : String) (now : ℕ) (db : Db)
    → Integrity db
    → Integrity (record db {
      orders = update p (λ o. record o { status = status; updated_at = now }) db.orders;
    })
status_updated p status now db i =
    let f : Order → Order = λ o. record o { status = status; updated_at = now } in
    record {
      accounts_keyed = i.accounts_keyed;
      orders_keyed = update-Distinct order_key p f (λ o. refl) db.orders i.orders_keyed;
      resources_keyed = i.resources_keyed;
      orders_owned = All-update p f (λ o h. h) (λ o h. h) db.orders i.orders_owned;
      resources_owned =
          All-imp (λ r h. update-IsPresent order_key p f (λ o. refl) r.order_id db.orders h)
            db.resource_map i.resources_owned;
    }

pub update_order_status-Integrity :
    (failure : Option String) (now : ℕ) (id status : String) (db : Db)
    → Integrity db
    → Integrity (update_order_status failure now id status db).1
unfolding update_order_status
update_order_status-Integrity (some e) now id status db i = i
update_order_status-Integrity none now id status db i =
    ground (arith, status_updated (has_id id) status (whole_seconds now) db i)

resource_saved :
    (r : ResourceMap) (db : Db)
    → find_row (conflicts r) db.resource_map ≡ none
    → IsPresent order_key db.orders r.order_id
    → Integrity db
    → Integrity
        (record db { resource_map = db.resource_map ++ record r { cert_fingerprint = "" } ∷ [] })
resource_saved r db fresh h i =
    let saved : ResourceMap = record r { cert_fingerprint = "" } in
    record {
      accounts_keyed = i.accounts_keyed;
      orders_keyed = i.orders_keyed;
      resources_keyed =
          Distinct-concat (λ row x. conflicts x row) db.resource_map saved i.resources_keyed
            (find_row-All (conflicts r) db.resource_map fresh);
      orders_owned = i.orders_owned;
      resources_owned =
          All-concat (λ (x : ResourceMap). IsPresent order_key db.orders x.order_id) db.resource_map
            i.resources_owned h;
    }

pub save_resource-Integrity :
    (failure : Option String) (r : ResourceMap) (db : Db)
    → Integrity db
    → Integrity (save_resource failure r db).1
unfolding save_resource
save_resource-Integrity (some e) r db i = i
save_resource-Integrity none r db i = ground (
  arith,
  λ (a : find_row (conflicts r) db.resource_map ≡ none)
        (h : IsPresent order_key db.orders r.order_id).
      resource_saved r db a h i,
)

fingerprint_updated :
    (p : ResourceMap → Bool) (fp : String) (rows : List ResourceMap)
    → Distinct (λ row r. conflicts r row) rows
    → Distinct (λ row r. conflicts r row) (update p (λ r. record r { cert_fingerprint = fp }) rows)
fingerprint_updated p fp [] d = tt
fingerprint_updated p fp (x ∷ rows) (a, d) =
    let f : ResourceMap → ResourceMap = λ r. record r { cert_fingerprint = fp } in
    (
      All-update {Q = λ y. conflicts y (if p x then f x else x) ≡ false} p f
          (λ y h. ground (arith, Bool-cases (p x))) (λ y h. ground (arith, Bool-cases (p x))) rows
          a,
      fingerprint_updated p fp rows d,
    )

pub update_resource_cert_fingerprint-Integrity :
    (failure : Option String) (id fp : String) (db : Db)
    → Integrity db
    → Integrity (update_resource_cert_fingerprint failure id fp db).1
unfolding update_resource_cert_fingerprint
update_resource_cert_fingerprint-Integrity (some e) id fp db i = i
update_resource_cert_fingerprint-Integrity none id fp db i = record {
  accounts_keyed = i.accounts_keyed;
  orders_keyed = i.orders_keyed;
  resources_keyed = fingerprint_updated (has_gateway_id id) fp db.resource_map i.resources_keyed;
  orders_owned = i.orders_owned;
  resources_owned =
      All-update (has_gateway_id id) (λ r. record r { cert_fingerprint = fp }) (λ r h. h) (λ r h. h)
        db.resource_map i.resources_owned;
}

-- The tables that the invariant speaks of, which the other operations leave alone.
abbrev SameTables : Db → Db → Type 0
SameTables a b =
    (a.accounts ≡ b.accounts) × (a.orders ≡ b.orders) × (a.resource_map ≡ b.resource_map)

Integrity-same : (a b : Db) → SameTables a b → Integrity b → Integrity a
Integrity-same a b (p, q, r) i = record {
  accounts_keyed = rw p i.accounts_keyed;
  orders_keyed = rw q i.orders_keyed;
  resources_keyed = rw r i.resources_keyed;
  orders_owned = rw (p, q) i.orders_owned;
  resources_owned = rw (q, r) i.resources_owned;
}

run_call-same : (c : Call) (db : Db) → SameTables (run_call c db) db
unfolding run_call issue_nonce consume_nonce prune_expired_nonces
run_call-same (Call.issues (ok v) (some e) now) db = (refl, refl, refl)
run_call-same (Call.issues (ok v) none now) db = (ground arith, ground arith, ground arith)
run_call-same (Call.issues (err e) failure now) db = (refl, refl, refl)
run_call-same (Call.consumes f now v) db = (ground arith, ground arith, ground arith)
run_call-same (Call.prunes expired (some e) now) db = (refl, refl, refl)
run_call-same (Call.prunes expired none now) db = (refl, refl, refl)

-- Every write keeps the keys distinct, the pairs (order, upstream URL) distinct, and the foreign
-- keys satisfied, whether or not the database fails in it.
pub write-Integrity : (w : Write) (db : Db) → Integrity db → Integrity (write w db)
unfolding write
write-Integrity (account failure a) db i = save_account-Integrity failure a db i
write-Integrity (upstream_account none ua) db i =
    unfold save_upstream_account in Integrity-same _ db (refl, refl, refl) i
write-Integrity (upstream_account (some e) ua) db i = unfold save_upstream_account in i
write-Integrity (upstream_account_for_account none ua) db i =
    unfold save_upstream_account_for_account in Integrity-same _ db (refl, refl, refl) i
write-Integrity (upstream_account_for_account (some e) ua) db i =
    unfold save_upstream_account_for_account in i
write-Integrity (order failure o) db i = save_order-Integrity failure o db i
write-Integrity (order_status failure now id status) db i =
    update_order_status-Integrity failure now id status db i
write-Integrity (resource failure r) db i = save_resource-Integrity failure r db i
write-Integrity (cert_fingerprint failure id fp) db i =
    update_resource_cert_fingerprint-Integrity failure id fp db i
write-Integrity (nonce c) db i = Integrity-same _ db (run_call-same c db) i

pub writes : List Write → Db → Db
writes [] db = db
writes (w ∷ ws) db = writes ws (write w db)

-- Whatever is written, in any order, and whether or not the database fails in it: if before the
-- accounts' and orders' ids are unique, no two mappings agree in the gateway id or in the order and
-- upstream URL, every order has its account and every mapping its order, then so it is afterwards.
pub writes-Integrity : (ws : List Write) (db : Db) → Integrity db → Integrity (writes ws db)
unfolding writes
writes-Integrity [] db i = i
writes-Integrity (w ∷ ws) db i = writes-Integrity ws (write w db) (write-Integrity w db i)
