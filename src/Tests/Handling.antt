-- ===== src/Tests/Handling.antt =====
-- The handlers of internal/server with an upstream that is scripted.
use acme_gateway.Prelude.{
  ◌≡◌, refl, String, List, [], ◌∷◌, none, some, ok, true, false, has_suffix, eqb, if◌then◌else◌,
}
use acme_gateway.Model.{Order, Identifier}
use acme_gateway.Model.Int.{negsuc}
use acme_gateway.Store.Db.{second, whole_seconds}
use acme_gateway.Store.Accounts.{get_account, save_account}
use acme_gateway.Store.Orders.{get_order, save_order}
use acme_gateway.Store.Resources.{save_resource}
use acme_gateway.Store.Nonces.{no_faults}
use acme_gateway.Router.{route, route_from, matches, any_identifier_has_suffix}
use acme_gateway.Upstream.Types.{AcmeOrder, Challenge, returned, broken, problem}
use acme_gateway.Upstream.Pool.{new_pool, get_client_for_account}
use acme_gateway.Server.Errors.{relay_upstream_error, is_definitive_rejection}
use acme_gateway.Server.Requests.{ParsedJws, accepted, refused}
use acme_gateway.Server.World.{Gateway, World, Ca, Codec, NewOrderRequest, ◌>>=◌}
use acme_gateway.Server.Handlers.{Response, Body, reply}
use acme_gateway.Server.Handlers.Accounts.{new_account, create_account, account_response}
use acme_gateway.Server.Handlers.Accounts.Laws.{new_account-again}
use acme_gateway.Server.Handlers.Orders.{place_order}
use acme_gateway.Server.Handlers.Orders.Binding.{IsBound, place_order-order_client}
use acme_gateway.Server.Handlers.Orders.Records.{IsPlaced, place_order-IsPlaced}
use acme_gateway.Server.Handlers.Finalize.{finalized}
use acme_gateway.Server.Handlers.Finalize.Rejection.{finalized-rejected}
use acme_gateway.Server.Routes.{get_cert, answer_request}
use acme_gateway.Server.Routes.Nonces.{answer_request-nonce}
use acme_gateway.Tests.Routing.{validated}
use acme_gateway.Tests.Requests.{known, tables, jose, request}
use acme_gateway.Tests.Serving.{bad_csr, idle}
use acme_gateway.Tests.Upstreams.{env, fresh}

abbrev pub names : List Identifier
names = record { type = "dns"; value = "a.internal" } ∷ []

abbrev pub pending : AcmeOrder
pending = record {
  status = "pending";
  expires = "";
  identifiers = names;
  authorizations = "https://ca/authz/1" ∷ [];
  finalize = "https://ca/finalize/1";
  certificate = "";
  error = none;
}

abbrev waiting : Challenge
waiting = record {
  type = "dns-01";
  url = "https://ca/chal/1";
  token = "t";
  status = "pending";
  error = none;
}

abbrev ca : Ca
ca = record {
  submit_order = λ n c ids profile. returned (pending, "https://ca/order/1");
  get_order = λ n c url. returned pending;
  get_authorization = λ n c url. returned (record {
    identifier = record { type = "dns"; value = "a.internal" };
    status = "pending";
    expires = "";
    challenges = waiting ∷ [];
    wildcard = false;
  });
  trigger_challenge = λ n c url. returned waiting;
  finalize_order = λ n c url der. broken (problem bad_csr);
  fetch_certificate = λ n c url. returned ("pem", []);
  revoke_certificate = λ n c der reason. returned tt;
}

abbrev codec : Codec
codec = record {
  new_account_request = λ text.
      ok (record { contact = []; terms_of_service_agreed = false; only_return_existing = false });
  new_order_request = λ text. ok (record { identifiers = names; profile = "" });
  finalize_request = λ text. ok text;
  revoke_request = λ text. ok (record { certificate = text; reason = none });
  identifiers_json = λ ids. ok "[]";
  identifiers_of_json = λ text. names;
  base64_decode = λ text. ok text;
  jwk_key_type = λ jwk. ok "ECDSA";
  jwk_json = λ jwk. ok jwk;
  csr_key_type = λ der. ok "RSA";
  fingerprint = λ der. der;
  leaf = λ pem. some pem;
  quote = λ text. text;
  has_jwk = λ der. ok (λ jwk. true);
}

abbrev gateway : Gateway
gateway = record {
  cfg = validated;
  jose = jose;
  codec = codec;
  ca = ca;
  pool_env = λ n. env;
  now = λ n. second;
  uuid = λ n. if eqb n 2 then "order-1" else if eqb n 6 then "finalize-1" else "authz-1";
  random = λ n. ok "r1";
  fault = λ n. none;
  nonce_faults = λ n. no_faults;
}

abbrev open_order : Order
open_order = record {
  id = "1";
  account_id = "t1";
  upstream_id = "le";
  upstream_slot = negsuc 0;
  upstream_order_url = "https://ca/order/1";
  status = "ready";
  identifiers = "[]";
  profile = "";
  require_csr_key_type = "RSA";
  created_at = 0;
  updated_at = 0;
}

abbrev world : World
world = record {
  db = record tables { orders = open_order ∷ [] };
  pool = record new_pool { account_clients = ("le", "t1", fresh) ∷ [] };
  proc = idle;
  tick = 0;
  sent = [];
}

answer_request-nonce_example :
    (n : String) × ((answer_request gateway (get_cert "c1") request world).0.replay_nonce ≡ some n)
answer_request-nonce_example =
    answer_request-nonce gateway (get_cert "c1") request world "r1" refl refl refl

abbrev by_key : ParsedJws
by_key = record {
  payload = "";
  embedded_jwk = some "jwk1";
  account_kid = "";
  nonce = "n1";
  url = "https://gw/new-account";
  raw = "{}";
}

abbrev blank : World
blank = record world { db = record tables { accounts = [] } }

abbrev account_created : Response
account_created = account_response gateway 201 "t1" (record known { public_key = "jwk1" })

first : (new_account gateway by_key blank).0 ≡ accepted account_created
unfolding new_account create_account get_account save_account ◌>>=◌
first = refl

new_account-again_example :
    ((new_account gateway by_key (new_account gateway by_key blank).1).0
      ≡ accepted (record account_created { status = 200 }))
    × ((new_account gateway by_key (new_account gateway by_key blank).1).1.db
        ≡ (new_account gateway by_key blank).1.db)
new_account-again_example =
    new_account-again gateway by_key by_key blank (new_account gateway by_key blank).1
      account_created first "jwk1" "t1" refl refl refl refl
      (record { contact = []; terms_of_service_agreed = false; only_return_existing = false }) refl
      refl refl

abbrev order_request : NewOrderRequest
order_request = record { identifiers = names; profile = "" }

abbrev order_created : Response
order_created =
    record (reply 201 (
      Body.order (record {
        status = "pending";
        expires = "";
        identifiers = names;
        authorizations = "https://gw/authz/authz-1" ∷ [];
        finalize = "https://gw/finalize/finalize-1";
        certificate = "";
      }))) { location = "https://gw/order/order-1" }

placed : (place_order gateway known order_request world).0 ≡ accepted order_created
unfolding place_order get_client_for_account save_order save_resource route route_from matches
    any_identifier_has_suffix has_suffix ◌>>=◌
placed = refl

place_order-IsPlaced_example :
    IsPlaced gateway known order_request order_created
      (place_order gateway known order_request world).1.db
place_order-IsPlaced_example =
    place_order-IsPlaced gateway known order_request world order_created placed

abbrev after_order : World
after_order = (place_order gateway known order_request world).1

place_order-order_client_example :
    IsBound gateway known order_request order_created
      (place_order gateway known order_request world).1.db
      after_order
place_order-order_client_example =
    place_order-order_client gateway known order_request world after_order order_created placed refl

rejection :
    is_definitive_rejection
      (relay_upstream_error "finalizing upstream order" (problem bad_csr)).status
    ≡ true
unfolding is_definitive_rejection relay_upstream_error
rejection = refl

stored : get_order none "1" world.db ≡ ok (some open_order)
unfolding get_order
stored = refl

finalized-rejected_example :
    ((finalized gateway open_order (broken (problem bad_csr)) world).0
      ≡ refused (relay_upstream_error "finalizing upstream order" (problem bad_csr)))
    × (get_order none "1" (finalized gateway open_order (broken (problem bad_csr)) world).1.db
        ≡ ok (some (record open_order { status = "invalid"; updated_at = whole_seconds second })))
finalized-rejected_example =
    finalized-rejected gateway open_order open_order (problem bad_csr) world rejection refl stored
