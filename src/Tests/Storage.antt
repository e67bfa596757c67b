-- ===== src/Tests/Storage.antt =====
-- internal/store at concrete tables.
use acme_gateway.Prelude.{
  ℕ, ◌*◌, ◌≡◌, ◌≢◌, refl, List, [], ◌∷◌, none, some, ok, err, if◌then◌else◌, ◌==◌, ◌&&◌, ◌+◌, arith,
  eq_iff,
}
use acme_gateway.Model.{Account, Order, ResourceMap}
use acme_gateway.Model.Int.{pos}
use acme_gateway.Store.Db.{Db, empty, second, whole_seconds}
use acme_gateway.Store.Nonces.{issue_nonce, consume_nonce, no_faults}
use acme_gateway.Store.Nonces.Laws.{
  Call, run_calls, pending, nonce_single_use, consume_nonce-issue_nonce, consume_nonce-expired,
}
use acme_gateway.Store.Orders.{save_order, get_order, update_order_status}
use acme_gateway.Store.Orders.Laws.{
  stored, with_status, get_order-save_order, get_order-update_order_status,
}
use acme_gateway.Store.Resources.{save_resource, get_resource_by_upstream_url_and_order}
use acme_gateway.Store.Resources.Laws.{settled, mapped, get-save_resource}
use acme_gateway.Store.Integrity.{Integrity, Write, writes, writes-Integrity}

-- Ten in the evening, and a nonce of that time.
abbrev evening : ℕ
evening = 79_200 * second

abbrev issued : Db
issued = record empty {
  nonces = record { value = "n1"; expires_at = whole_seconds (evening + 600 * second) } ∷ [];
}

abbrev others : List Call
others = Call.issues (ok "n2") none evening ∷ Call.consumes no_faults evening "n2" ∷ []

nonce_single_use_example :
    (consume_nonce no_faults
      (evening + 2)
      "n1"
      (run_calls others (consume_nonce no_faults evening "n1" issued).1)).0
    ≢ ok tt
nonce_single_use_example =
    nonce_single_use no_faults no_faults evening (evening + 2) "n1" issued others
      (unfold consume_nonce in refl) (λ e. ground (arith, (eq_iff "n2" "n1").1 e), (tt, tt))

consume_nonce-issue_nonce_example :
    (consume_nonce no_faults (evening + 5) "n1" (issue_nonce (ok "n1") none evening empty).1).0
    ≡ ok tt
consume_nonce-issue_nonce_example =
    consume_nonce-issue_nonce "n1" none evening (evening + 5) empty (unfold issue_nonce in refl)
      (omega arith)

consume_nonce-expired_example :
    ((consume_nonce no_faults
        (evening + 601 * second)
        "n1"
        (issue_nonce (ok "n1") none evening empty).1).0
      ≡ err "nonce expired")
    × (pending "n1"
          (consume_nonce no_faults
            (evening + 601 * second)
            "n1"
            (issue_nonce (ok "n1") none evening empty).1).1
        ≡ none)
consume_nonce-expired_example =
    consume_nonce-expired "n1" none evening (evening + 601 * second) empty
      (unfold issue_nonce in refl) (omega arith)

abbrev client_account : Account
client_account = record {
  id = "acct-1";
  public_key = "{}";
  key_type = "ECDSA";
  contact = [];
  status = "valid";
  created_at = evening + 7;
}

abbrev web_order : Order
web_order = record {
  id = "order-1";
  account_id = "acct-1";
  upstream_id = "le";
  upstream_slot = pos 0;
  upstream_order_url = "https://ca/order/9";
  status = "pending";
  identifiers = "[]";
  profile = "";
  require_csr_key_type = "";
  created_at = evening + 7;
  updated_at = evening + 7;
}

abbrev with_account : Db
with_account = record empty { accounts = client_account ∷ [] }

abbrev with_order : Db
with_order = record with_account { orders = web_order ∷ [] }

abbrev authz : ResourceMap
authz = record {
  gateway_id = "authz-1";
  resource_type = "authz";
  order_id = "order-1";
  upstream_url = "https://ca/authz/3";
  cert_fingerprint = "";
}

get_order-save_order_example :
    get_order none "order-1" (save_order none web_order with_account).1 ≡ (
      if web_order.id == "order-1"
      then ok (some (stored web_order))
      else get_order none "order-1" with_account)
get_order-save_order_example =
    get_order-save_order none web_order with_account (unfold save_order in refl) "order-1"

get_order-update_order_status_example :
    ((update_order_status none evening "order-1" "invalid" with_order).0 ≡ ok tt)
    × (get_order none "order-1" (update_order_status none evening "order-1" "invalid" with_order).1
        ≡ ok (with_status evening "invalid" (some web_order)))
get_order-update_order_status_example =
    get_order-update_order_status evening "order-1" "invalid" "order-1" with_order

get-save_resource_example :
    get_resource_by_upstream_url_and_order none "https://ca/authz/3" "order-1"
      (save_resource none authz with_order).1
    ≡ ok (
        if (authz.upstream_url == "https://ca/authz/3") && (authz.order_id == "order-1")
        then some (settled authz (mapped "https://ca/authz/3" "order-1" with_order))
        else mapped "https://ca/authz/3" "order-1" with_order)
get-save_resource_example =
    get-save_resource authz with_order refl (unfold save_resource in refl) "https://ca/authz/3"
      "order-1"

abbrev order_of_writes : List Write
order_of_writes =
    Write.order none web_order
    ∷ Write.account none client_account
    ∷ Write.order none web_order
    ∷ Write.resource none authz
    ∷ Write.resource none authz
    ∷ Write.nonce (Call.issues (ok "n1") none evening)
    ∷ []

writes-Integrity_example : Integrity (writes order_of_writes empty)
writes-Integrity_example = writes-Integrity order_of_writes empty (record {
  accounts_keyed = tt;
  orders_keyed = tt;
  resources_keyed = tt;
  orders_owned = tt;
  resources_owned = tt;
})
