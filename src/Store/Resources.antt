-- ===== src/Store/Resources.antt =====
-- internal/store/resources.go. Where several rows fit a lookup by URL, the one inserted first
-- answers.
pub mod Laws
use acme_gateway.Prelude.{
  String, Bool, false, List, [], ◌∷◌, ◌++◌, Option, none, some, Result, ok, err, ◌==◌, ◌&&◌, ◌||◌,
  find_row, select, update, is_some, if◌then◌else◌,
}
use acme_gateway.Model.{ResourceMap, resource_type_authz}
use acme_gateway.Store.Db.{Db, query, exec}
use acme_gateway.Store.Orders.{has_id}

abbrev pub has_gateway_id : String → ResourceMap → Bool
has_gateway_id id r = r.gateway_id == id

abbrev pub at_url : String → ResourceMap → Bool
at_url url r = r.upstream_url == url

abbrev pub at_url_of_order : String → String → ResourceMap → Bool
at_url_of_order url order_id r = (r.upstream_url == url) && (r.order_id == order_id)

-- the primary key and the index on (order_id, upstream_url)
abbrev pub conflicts : ResourceMap → ResourceMap → Bool
conflicts r row = has_gateway_id r.gateway_id row || at_url_of_order r.upstream_url r.order_id row

-- INSERT OR IGNORE; the foreign key refuses a row of an unknown order.
unfoldable pub save_resource : Option String → ResourceMap → Db → Result (Unit {0}) × Db
save_resource (some e) r db = (err e, db)
save_resource none r db =
    if is_some (find_row (conflicts r) db.resource_map)
    then (ok tt, db)
    else if is_some (find_row (has_id r.order_id) db.orders)
    then (
      ok tt,
      record db { resource_map = db.resource_map ++ record r { cert_fingerprint = "" } ∷ [] },
    )
    else (err "FOREIGN KEY constraint failed", db)

unfoldable pub get_resource : Option String → String → Db → Result (Option ResourceMap)
get_resource failure gateway_id db =
    query failure (find_row (has_gateway_id gateway_id) db.resource_map)

unfoldable pub get_resource_by_upstream_url :
    Option String → String → Db → Result (Option ResourceMap)
get_resource_by_upstream_url failure url db = query failure (find_row (at_url url) db.resource_map)

unfoldable pub get_resource_by_upstream_url_and_order :
    Option String → String → String → Db → Result (Option ResourceMap)
get_resource_by_upstream_url_and_order failure url order_id db =
    query failure (find_row (at_url_of_order url order_id) db.resource_map)

-- NULL fits no fingerprint, the empty one included.
abbrev pub has_fingerprint : String → ResourceMap → Bool
has_fingerprint fp r = if r.cert_fingerprint == "" then false else r.cert_fingerprint == fp

unfoldable pub get_resource_by_cert_fingerprint :
    Option String → String → Db → Result (Option ResourceMap)
get_resource_by_cert_fingerprint failure fp db =
    query failure (find_row (has_fingerprint fp) db.resource_map)

abbrev pub is_authz_of : String → ResourceMap → Bool
is_authz_of order_id r = (r.order_id == order_id) && (r.resource_type == resource_type_authz)

unfoldable pub get_authz_resources_by_order_id :
    Option String → String → Db → Result (List ResourceMap)
get_authz_resources_by_order_id failure order_id db =
    query failure (select (is_authz_of order_id) db.resource_map)

unfoldable pub update_resource_cert_fingerprint :
    Option String → String → String → Db → Result (Unit {0}) × Db
update_resource_cert_fingerprint failure gateway_id fp db = exec failure db (record db {
  resource_map =
      update (has_gateway_id gateway_id) (λ r. record r { cert_fingerprint = fp }) db.resource_map;
})
