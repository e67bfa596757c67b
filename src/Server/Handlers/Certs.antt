-- ===== src/Server/Handlers/Certs.antt =====
-- internal/server/handlers.go: handleCert, ensureGatewayCertURL and handleRevokeCert.
pub mod Sends
pub mod Revokers
pub mod Revocation
use acme_gateway.Prelude.{
  ℕ, zero, String, Bool, true, false, not, ◌&&◌, ◌||◌, List, [], ◌∷◌, Option, none, some, Result,
  ok, err, ◌<>◌, ◌==◌, if◌then◌else◌, is_some,
}
use acme_gateway.Model.{Account, Order, ResourceMap, resource_type_cert}
use acme_gateway.Model.Int.{ℤ, pos, negsuc, is_negative}
use acme_gateway.Store.Orders.{get_order}
use acme_gateway.Store.Resources.{
  save_resource, get_resource, get_resource_by_upstream_url_and_order,
  get_resource_by_cert_fingerprint, update_resource_cert_fingerprint,
}
use acme_gateway.Upstream.Types.{Client, CallError, problem, failure}
use acme_gateway.Upstream.Account.{acme_error_text}
use acme_gateway.Server.Errors.{
  AcmeError, err_malformed, err_unauthorized, err_not_found, err_server_internal,
  relay_upstream_error,
}
use acme_gateway.Server.Requests.{ParsedJws, HttpRequest, Checked, accepted, refused}
use acme_gateway.Server.World.{
  Gateway, RevokeCertRequest, ClientChoice, in_slot, for_account, Sent, Act, pure, refuse, lift,
  ask, reads, writes, finds_or, call_or, ◌>>=◌, ◌>>◌, or_refuse, refuse_if,
}
use acme_gateway.Server.Handlers.{Response, Body, reply, base_url, validate_request, verify_request}
use acme_gateway.Server.Handlers.Orders.{mapping, order_client, chosen_client, unverified}

module _ (g : Gateway) where
  abbrev cert_url_of : Result (Option ResourceMap) → Option String
  cert_url_of (ok (some rm)) = some (base_url g <> "/cert/" <> rm.gateway_id)
  cert_url_of (ok none) = none
  cert_url_of (err e) = none

  abbrev reread : String → String → Result (Unit {0}) → Act (Option String)
  reread order_id url (err e) = pure none
  reread order_id url (ok u) = do
    r ← reads (λ n db. get_resource_by_upstream_url_and_order (g.fault n) url order_id db)
    pure (cert_url_of r)

  abbrev or_saved : String → String → Result (Option ResourceMap) → Act (Option String)
  or_saved order_id url (err e) = pure none
  or_saved order_id url (ok (some rm)) = pure (cert_url_of (ok (some rm)))
  or_saved order_id url (ok none) = do
    id ← ask g.uuid
    r ← writes (λ n db. save_resource (g.fault n) (mapping id resource_type_cert order_id url) db)
    reread order_id url r

  -- none for an error, which the caller only logs
  unfoldable pub ensure_gateway_cert_url : String → String → Act (Option String)
  ensure_gateway_cert_url order_id url = do
    r ← reads (λ n db. get_resource_by_upstream_url_and_order (g.fault n) url order_id db)
    or_saved order_id url r

  abbrev alternate : Option String → List String → List String
  alternate none links = links
  alternate (some url) links = ("<" <> url <> ">;rel=\"alternate\"") ∷ links

  unfoldable pub alternate_links : String → List String → Act (List String)
  unfolding ensure_gateway_cert_url
  alternate_links order_id [] = pure []
  alternate_links order_id (url ∷ urls) = do
    u ← ensure_gateway_cert_url order_id url
    rest ← alternate_links order_id urls
    pure (alternate u rest)

  -- The error of the update is only logged.
  abbrev cache_fingerprint : String → ResourceMap → Option String → Act (Unit {0})
  cache_fingerprint id rm none = pure tt
  cache_fingerprint id rm (some leaf) =
      if rm.cert_fingerprint == ""
      then (do
        writes
            (λ n db. update_resource_cert_fingerprint (g.fault n) id (g.codec.fingerprint leaf) db)
        pure tt)
      else pure tt

  -- the certificate of an order, from its upstream
  unfoldable pub fetch_cert : String → ResourceMap → Order → Act Response
  unfolding order_client alternate_links
  fetch_cert id rm o = do
    client ← order_client g o
    result ←
        call_or (relay_upstream_error "fetching certificate") (Sent.fetches rm.upstream_url)
          (λ n. g.ca.fetch_certificate n client rm.upstream_url)
    cache_fingerprint id rm (g.codec.leaf result.0)
    links ← alternate_links o.id result.1
    pure (record (reply 200 (Body.pem result.0)) { links = links })

  unfoldable pub serve_cert : String → Act Response
  unfolding fetch_cert
  serve_cert id = do
    rm ← finds_or (err_not_found "certificate not found") (λ n db. get_resource (g.fault n) id db)
    o ← finds_or (err_not_found "order not found") (λ n db. get_order (g.fault n) rm.order_id db)
    fetch_cert id rm o

  -- POST-as-GET: a valid request with an empty payload
  unfoldable pub check_post : HttpRequest → Act (Unit {0})
  check_post r = do
    p ← validate_request g r
    lift (refuse_if (not (p.payload == "")) (err_malformed "POST-as-GET payload must be empty"))
    o ← verify_request g p
    pure tt

  abbrev pub check_method : Bool → HttpRequest → Act (Unit {0})
  check_method is_post r = if is_post then check_post r else pure tt

  -- `is_post`: the method is POST
  unfoldable pub handle_cert : Bool → HttpRequest → String → Act Response
  unfolding check_post serve_cert
  handle_cert is_post r id = do check_method is_post r; serve_cert id

  -- The account of a revocation: none where the request embeds its key.
  abbrev revoker : ParsedJws → Option String → Act (Option Account)
  revoker p (some jwk) = do lift (or_refuse unverified (g.jose.verify p.raw jwk)); pure none
  revoker p none = verify_request g p

  abbrev matches_key : String → (String → Bool) → Checked (Unit {0})
  matches_key jwk has_key =
      refuse_if (not (has_key jwk)) (err_unauthorized "JWK does not match certificate public key")

  abbrev check_key : Option String → String → Act (Unit {0})
  check_key none der = pure tt
  check_key (some jwk) der = do
    has_key ← lift (or_refuse (err_malformed "invalid certificate DER") (g.codec.has_jwk der))
    lift (matches_key jwk has_key)

  -- Which client revokes: the upstream, the slot, and the account, empty for a slot's client.
  pub record Revoker : Type 0 where
    pub upstream_id : String
    pub slot : ℤ
    pub account_id : String

  abbrev default_revoker : Revoker
  default_revoker = record {
    upstream_id = g.cfg.routing.default_upstream;
    slot = pos zero;
    account_id = "";
  }

  abbrev revoker_of : Order → Revoker
  revoker_of o = record {
    upstream_id = o.upstream_id;
    slot = o.upstream_slot;
    account_id = if is_negative o.upstream_slot then o.account_id else "";
  }

  abbrev is_other : Option Account → Order → Bool
  is_other none o = false
  is_other (some acct) o = not (o.account_id == acct.id)

  abbrev by_order : Option Account → Result (Option Order) → Checked Revoker
  by_order acct (ok (some o)) =
      if is_other acct o
      then refused (err_unauthorized "certificate does not belong to this account")
      else accepted (revoker_of o)
  by_order acct (ok none) = accepted default_revoker
  by_order acct (err e) = accepted default_revoker

  abbrev by_resource : Option Account → Result (Option ResourceMap) → Act Revoker
  by_resource acct (ok (some rm)) = do
    r ← reads (λ n db. get_order (g.fault n) rm.order_id db)
    lift (by_order acct r)
  by_resource acct (ok none) = pure default_revoker
  by_resource acct (err e) = pure default_revoker

  -- the order whose certificate has the fingerprint, and its owner
  unfoldable pub find_revoker : Option Account → String → Act Revoker
  find_revoker acct fp = do
    r ← reads (λ n db. get_resource_by_cert_fingerprint (g.fault n) fp db)
    by_resource acct r

  abbrev revoker_choice : Revoker → ClientChoice
  revoker_choice v =
      if v.account_id == ""
      then in_slot v.upstream_id v.slot
      else for_account v.upstream_id v.account_id

  abbrev revoker_client : Revoker → Act Client
  revoker_client v = chosen_client g (err_server_internal "upstream unavailable") (revoker_choice v)

  abbrev revoke_error : CallError → AcmeError
  revoke_error (problem ae) = err_server_internal ("revoking certificate: " <> acme_error_text ae)
  revoke_error (failure m) = err_server_internal ("revoking certificate: " <> m)

  abbrev reason_of : Option ℤ → ℤ
  reason_of none = negsuc zero
  reason_of (some z) = z

  -- The request, checked: who asks, for which certificate, and the reason.
  unfoldable pub revocation : HttpRequest → Act (Option Account × String × ℤ)
  revocation r = do
    p ← validate_request g r
    acct ← revoker p p.embedded_jwk
    req ←
        lift (or_refuse (err_malformed "invalid revoke payload") (g.codec.revoke_request p.payload))
    lift (refuse_if (req.certificate == "") (err_malformed "certificate is required"))
    der ← lift (
        or_refuse (err_malformed "invalid certificate encoding")
          (g.codec.base64_decode req.certificate))
    check_key p.embedded_jwk der
    pure (acct, der, reason_of req.reason)

  unfoldable pub send_revocation : Revoker → String → ℤ → Act Response
  send_revocation v der reason = do
    client ← revoker_client v
    call_or revoke_error (Sent.revokes der reason)
        (λ n. g.ca.revoke_certificate n client der reason)
    pure (reply 200 Body.empty)

  unfoldable pub revoke : Option Account → String → ℤ → Act Response
  unfolding find_revoker send_revocation
  revoke acct der reason = do
    v ← find_revoker acct (g.codec.fingerprint der)
    send_revocation v der reason

  unfoldable pub handle_revoke_cert : HttpRequest → Act Response
  unfolding revocation revoke
  handle_revoke_cert r = do (acct, der, reason) ← revocation r; revoke acct der reason
