-- ===== src/Store/Orders.antt =====
-- internal/store/orders.go
pub mod Laws
use acme_gateway.Prelude.{
  ℕ, String, Bool, [], ◌∷◌, ◌++◌, Option, none, some, Result, ok, err, ◌==◌, find_row, delete,
  update, is_some, if◌then◌else◌, ◌<>◌,
}
use acme_gateway.Model.{Account, Order}
use acme_gateway.Store.Db.{Db, whole_seconds, query, exec}

abbrev pub has_id : String → Order → Bool
has_id id o = o.id == id

abbrev pub has_account : String → Account → Bool
has_account id a = a.id == id

-- INSERT OR REPLACE; the table's foreign key refuses an order of an unknown account.
unfoldable pub save_order : Option String → Order → Db → Result (Unit {0}) × Db
save_order (some e) o db = (err e, db)
save_order none o db =
    if is_some (find_row (has_account o.account_id) db.accounts)
    then (
      ok tt,
      record db {
        orders =
            delete (has_id o.id) db.orders
            ++ record o {
              created_at = whole_seconds o.created_at;
              updated_at = whole_seconds o.updated_at;
            }
              ∷ [];
      },
    )
    else (err "FOREIGN KEY constraint failed", db)

unfoldable pub get_order : Option String → String → Db → Result (Option Order)
get_order failure id db = query failure (find_row (has_id id) db.orders)

unfoldable pub update_order_status :
    Option String → ℕ → String → String → Db → Result (Unit {0}) × Db
update_order_status (some e) now id status db = (err e, db)
update_order_status none now id status db =
    if is_some (find_row (has_id id) db.orders)
    then exec none db (record db {
      orders =
          update (has_id id) (λ o. record o { status = status; updated_at = whole_seconds now })
            db.orders;
    })
    else (err ("order " <> id <> " not found"), db)
