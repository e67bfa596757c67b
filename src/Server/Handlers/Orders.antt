-- ===== src/Server/Handlers/Orders.antt =====
-- internal/server/handlers.go: handleNewOrder, handleOrder, buildOrderResponse and orderClient.
pub mod Sends
pub mod Records
pub mod Binding
use acme_gateway.Prelude.{
  ℕ, String, Bool, true, false, not, List, [], ◌∷◌, Option, none, some, Result, ok, err, ◌<>◌, ◌==◌,
  if◌then◌else◌, is_some, map,
}
use acme_gateway.Model.{
  Account, Identifier, Order, ResourceMap, resource_type_authz, resource_type_finalize,
  resource_type_cert,
}
use acme_gateway.Store.Db.{Db}
use acme_gateway.Model.Int.{ℤ, pos, negsuc}
use acme_gateway.Store.Orders.{save_order, get_order, update_order_status}
use acme_gateway.Store.Resources.{
  save_resource, get_resource_by_upstream_url, get_authz_resources_by_order_id,
}
use acme_gateway.Router.{Decision, route, resolve_upstream_profile}
use acme_gateway.Upstream.Types.{AcmeOrder, Client}
use acme_gateway.Upstream.Pool.{Pool, get_slot, get_client_for_account}
use acme_gateway.Server.Errors.{
  AcmeError, err_malformed, err_unauthorized, err_not_found, err_server_internal,
  relay_upstream_error,
}
use acme_gateway.Server.Requests.{
  ParsedJws, HttpRequest, Checked, accepted, refused, resolve_account,
}
use acme_gateway.Server.World.{
  Gateway, NewOrderRequest, ClientChoice, in_slot, for_account, Sent, Act, pure, lift, ask, reads,
  writes, reads_or, finds_or, writes_or, pools_or, call, call_or, ◌>>=◌, ◌>>◌, or_refuse, refuse_if,
}
use acme_gateway.Server.Handlers.{
  Response, OrderResponse, Body, reply, base_url, validate_request, nonnil,
}

abbrev required_kid : Option String → Checked (Unit {0})
required_kid none = accepted tt
required_kid (some jwk) = refused (err_malformed "new-order requires kid, not jwk")

abbrev pub unverified : AcmeError
unverified = err_unauthorized "signature verification failed"

abbrev pub mapping : String → String → String → String → ResourceMap
mapping gateway_id resource_type order_id upstream_url = record {
  gateway_id = gateway_id;
  resource_type = resource_type;
  order_id = order_id;
  upstream_url = upstream_url;
  cert_fingerprint = "";
}

-- len(req.Identifiers) == 0
abbrev has_none : List Identifier → Bool
has_none [] = true
has_none (i ∷ is) = false

-- orderClient: the order's slot, or its account where it has no slot
abbrev pub order_choice : Order → ℤ → ClientChoice
order_choice o (pos slot) = in_slot o.upstream_id (pos slot)
order_choice o (negsuc k) = for_account o.upstream_id o.account_id

module _ (g : Gateway) where
  -- the pool with its configuration
  abbrev pub upstreams : List (String × acme_gateway.Config.UpstreamConfig)
  upstreams = g.cfg.upstreams

  -- GetSlot, which writes nothing to the database, or GetClientForAccount
  abbrev pub choose : ClientChoice → ℕ → Db → Pool → Result Client × Pool × Db
  choose (in_slot id slot) n db p =
      let r = get_slot upstreams (g.pool_env n) id slot db p in (r.0, r.1, db)
  choose (for_account id account) n db p =
      get_client_for_account upstreams (g.pool_env n) id account db p

  abbrev pub chosen_client : AcmeError → ClientChoice → Act Client
  chosen_client e k = pools_or e k (choose k)

  -- with the handlers' answer to its error
  unfoldable pub order_client : Order → Act Client
  order_client o =
      chosen_client (err_server_internal "upstream unavailable") (order_choice o o.upstream_slot)

  -- mustParsePublicKey gives nil for a key that does not parse, which verifies nothing.
  abbrev verify_stored : ParsedJws → Option String → Checked (Unit {0})
  verify_stored p none = refused unverified
  verify_stored p (some key) = or_refuse unverified (g.jose.verify p.raw key)

  -- from the parsed request to the account, which signed it, and the order that it asks for
  unfoldable pub new_order_request : ParsedJws → Act (Account × NewOrderRequest)
  new_order_request p = do
    lift (required_kid p.embedded_jwk)
    c ← reads (λ n db. resolve_account g.jose (base_url g) p (g.fault n) db)
    o ← lift c
    acct ← lift (nonnil g o)
    lift (verify_stored p (g.jose.parse_public_key acct.public_key))
    req ←
        lift
          (or_refuse (err_malformed "invalid order payload") (g.codec.new_order_request p.payload))
    lift (refuse_if (has_none req.identifiers) (err_malformed "identifiers must not be empty"))
    pure (acct, req)

  unfoldable pub decide : Account → NewOrderRequest → Decision
  decide acct req =
      route g.cfg.routing
        (record { profile = req.profile; key_type = acct.key_type; identifiers = req.identifiers })

  -- The mapping of one authorization; its gateway URL.
  unfoldable pub save_authz : String → String → Act String
  save_authz order_id url = do
    authz_id ← ask g.uuid
    writes_or (err_server_internal "saving authz resource")
        (λ n db. save_resource (g.fault n) (mapping authz_id resource_type_authz order_id url) db)
    pure (base_url g <> "/authz/" <> authz_id)

  -- the loop over the authorizations
  unfoldable pub save_authzs : String → List String → Act (List String)
  unfolding save_authz
  save_authzs order_id [] = pure []
  save_authzs order_id (url ∷ urls) = do
    authz ← save_authz order_id url
    rest ← save_authzs order_id urls
    pure (authz ∷ rest)

  abbrev new_order_row :
      String → Account → NewOrderRequest → Decision → AcmeOrder → String → String → ℕ → ℕ → Order
  new_order_row order_id acct req d up up_url identifiers created updated = record {
    id = order_id;
    account_id = acct.id;
    upstream_id = d.upstream_id;
    upstream_slot = negsuc 0;
    upstream_order_url = up_url;
    status = up.status;
    identifiers = identifiers;
    profile = req.profile;
    require_csr_key_type = d.require_csr_key_type;
    created_at = created;
    updated_at = updated;
  }

  -- the mappings of an order, and the response
  unfoldable pub record_resources : String → NewOrderRequest → AcmeOrder → Act Response
  unfolding save_authzs
  record_resources order_id req up = do
    finalize_id ← ask g.uuid
    writes_or (err_server_internal "saving finalize resource") (λ n db.
        save_resource (g.fault n) (mapping finalize_id resource_type_finalize order_id up.finalize)
          db)
    authzs ← save_authzs order_id up.authorizations
    pure
        (record (reply 201 (
          Body.order (record {
            status = up.status;
            expires = up.expires;
            identifiers = req.identifiers;
            authorizations = authzs;
            finalize = base_url g <> "/finalize/" <> finalize_id;
            certificate = "";
          }))) { location = base_url g <> "/order/" <> order_id })

  -- from the upstream order on
  unfoldable pub record_order :
      Account → NewOrderRequest → Decision → AcmeOrder × String → Act Response
  unfolding record_resources
  record_order acct req d (up, up_url) = do
    order_id ← ask g.uuid
    id_json ← lift (
        or_refuse (err_server_internal "marshalling identifiers")
          (g.codec.identifiers_json req.identifiers))
    created ← ask g.now
    updated ← ask g.now
    writes_or (err_server_internal "saving order") (λ n db.
        save_order (g.fault n) (new_order_row order_id acct req d up up_url id_json created updated)
          db)
    record_resources order_id req up

  abbrev pub submit_error : acme_gateway.Upstream.Types.CallError → AcmeError
  submit_error (acme_gateway.Upstream.Types.problem ae) =
      err_server_internal
        ("upstream order failed: " <> acme_gateway.Upstream.Account.acme_error_text ae)
  submit_error (acme_gateway.Upstream.Types.failure m) =
      err_server_internal ("upstream order failed: " <> m)

  unfoldable pub place_order : Account → NewOrderRequest → Act Response
  unfolding record_order decide
  place_order acct req = do
    let d = decide acct req
    lift (
        refuse_if (d.upstream_id == "")
          (err_server_internal "no upstream matched and no default configured"))
    client ←
        chosen_client (err_server_internal "upstream account unavailable")
          (for_account d.upstream_id acct.id)
    let profile = resolve_upstream_profile d req.profile
    up ←
        call_or submit_error (Sent.submits_order req.identifiers profile)
          (λ n. g.ca.submit_order n client req.identifiers profile)
    record_order acct req d up

  unfoldable pub handle_new_order : HttpRequest → Act Response
  unfolding new_order_request place_order
  handle_new_order r = do
    p ← validate_request g r
    (acct, req) ← new_order_request p
    place_order acct req

  abbrev url_of : String → Option ResourceMap → String
  url_of kind none = ""
  url_of kind (some rm) = base_url g <> kind <> rm.gateway_id

  -- A lookup whose error is ignored
  abbrev or_nil : Result (Option ResourceMap) → Option ResourceMap
  or_nil (ok o) = o
  or_nil (err e) = none

  abbrev cert_mapping : String → String → Option ResourceMap → Act (Option ResourceMap)
  cert_mapping order_id url (some rm) = pure (some rm)
  cert_mapping order_id url none = do
    id ← ask g.uuid
    writes (λ n db. save_resource (g.fault n) (mapping id resource_type_cert order_id url) db)
    r ← reads (λ n db. get_resource_by_upstream_url (g.fault n) url db)
    pure (or_nil r)

  -- the certificate's URL; the errors of the store are ignored
  unfoldable pub cert_url : String → String → Act String
  cert_url order_id url = if url == "" then pure "" else (do
    r ← reads (λ n db. get_resource_by_upstream_url (g.fault n) url db)
    rm ← cert_mapping order_id url (or_nil r)
    pure (url_of "/cert/" rm))

  abbrev or_empty : Result (List ResourceMap) → List ResourceMap
  or_empty (ok l) = l
  or_empty (err e) = []

  unfoldable pub build_order_response : String → AcmeOrder → Act Response
  unfolding cert_url
  build_order_response order_id up = do
    o ← finds_or (err_not_found "order not found") (λ n db. get_order (g.fault n) order_id db)
    finalize ←
        reads_or (err_server_internal "looking up finalize resource")
          (λ n db. get_resource_by_upstream_url (g.fault n) up.finalize db)
    certificate ← cert_url order_id up.certificate
    authzs ← reads (λ n db. get_authz_resources_by_order_id (g.fault n) order_id db)
    pure (
        reply 200 (
          Body.order (record {
            status = up.status;
            expires = up.expires;
            identifiers = g.codec.identifiers_of_json o.identifiers;
            authorizations =
                map (λ (rm : ResourceMap). base_url g <> "/authz/" <> rm.gateway_id)
                  (or_empty authzs);
            finalize = url_of "/finalize/" finalize;
            certificate = certificate;
          })))

  -- UpdateOrderStatus, whose error is ignored
  unfoldable pub set_status : String → String → Act (Unit {0})
  set_status id status = do
    now ← ask g.now
    writes (λ n db. update_order_status (g.fault n) now id status db)
    pure tt

  -- what handleOrder does for an order of the client's
  unfoldable pub poll_order : Order → Act Response
  unfolding order_client set_status build_order_response
  poll_order o = do
    client ← order_client o
    up ←
        call_or (relay_upstream_error "polling upstream order") (Sent.polls o.upstream_order_url)
          (λ n. g.ca.get_order n client o.upstream_order_url)
    if up.status == o.status then pure tt else set_status o.id up.status
    build_order_response o.id up
