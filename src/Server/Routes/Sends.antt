-- ===== src/Server/Routes/Sends.antt =====
-- What the gateway does upstream, by route, and why it may.
use acme_gateway.Prelude.{String, ◌≡◌, ◌≢◌, Option, Result}
use acme_gateway.Model.{Account, Order, ResourceMap}
use acme_gateway.Model.Int.{ℤ}
use acme_gateway.Router.{resolve_upstream_profile}
use acme_gateway.Upstream.Types.{Client}
use acme_gateway.Server.Requests.{ParsedJws, HttpRequest, accepted}
use acme_gateway.Server.World.{Gateway, World, NewOrderRequest, ClientChoice, for_account, Sent}
use acme_gateway.Server.Handlers.{validate_request}
use acme_gateway.Server.Handlers.Ownership.{Owned, owned_resource}
use acme_gateway.Server.Handlers.Ownership.Laws.{IsOwner, IsOwnerOf}
use acme_gateway.Server.Handlers.Orders.{order_client, decide}
use acme_gateway.Server.Handlers.Orders.Sends.{IsClientOf, IsAnswer, IsOrdered}
use acme_gateway.Server.Handlers.Challenges.{challenge_words}
use acme_gateway.Server.Handlers.Challenges.Sends.{IsAuthzOf}
use acme_gateway.Server.Handlers.Finalize.Sends.{HasCsr}
use acme_gateway.Server.Handlers.Certs.{check_post, revocation}
use acme_gateway.Server.Handlers.Certs.Sends.{IsServed}
use acme_gateway.Server.Handlers.Certs.Revokers.{IsOwn, found_order}
use acme_gateway.Server.Handlers.Certs.Revocation.{IsRevocation}
use acme_gateway.Server.Routes.{
  Route, post_new_order, post_order, post_authz, post_challenge, post_finalize, get_cert, post_cert,
  post_revoke_cert,
}

-- Why a route may send something, for a request that its handler gets in this state.
pub data IsCaused (g : Gateway) (r : HttpRequest) (w : World) : Route → Sent → Type 0 where
  orders_client :
      {c : Result Client} (p : ParsedJws) (acct : Account) (req : NewOrderRequest)
      → (validate_request g r w).0 ≡ accepted p
      → IsOrdered g p acct req (validate_request g r w).1
      → (decide g acct req).upstream_id ≢ ""
      → IsAnswer g (for_account (decide g acct req).upstream_id acct.id) c
      → IsCaused g r w post_new_order
          (Sent.takes_client (for_account (decide g acct req).upstream_id acct.id) c)
  orders :
      (p : ParsedJws) (acct : Account) (req : NewOrderRequest)
      → (validate_request g r w).0 ≡ accepted p
      → IsOrdered g p acct req (validate_request g r w).1
      → (decide g acct req).upstream_id ≢ ""
      → IsCaused g r w post_new_order (
          Sent.submits_order req.identifiers
            (resolve_upstream_profile (decide g acct req) req.profile))
  polls_client :
      {id : String} {k : ClientChoice} {c : Result Client} (p : ParsedJws) (acct : Account)
      (o : Order)
      → IsOwner g r w p acct id o
      → IsClientOf o k
      → IsAnswer g k c
      → IsCaused g r w (post_order id) (Sent.takes_client k c)
  polls :
      {id : String} (p : ParsedJws) (acct : Account) (o : Order)
      → IsOwner g r w p acct id o
      → IsCaused g r w (post_order id) (Sent.polls o.upstream_order_url)
  authz_client :
      {id : String} {k : ClientChoice} {c : Result Client} (x : Owned)
      → IsOwnerOf g r w id x
      → IsClientOf x.order k
      → IsAnswer g k c
      → IsCaused g r w (post_authz id) (Sent.takes_client k c)
  authz :
      {id : String} (x : Owned)
      → IsOwnerOf g r w id x
      → IsCaused g r w (post_authz id) (Sent.polls x.rm.upstream_url)
  challenge_client :
      {id : String} {k : ClientChoice} {c : Result Client} (x : Owned)
      → IsOwnerOf g r w id x
      → IsClientOf x.order k
      → IsAnswer g k c
      → IsCaused g r w (post_challenge id) (Sent.takes_client k c)
  -- with the tables as they are once the client is there
  challenge_authz :
      {id : String} (x : Owned) (url : String)
      → IsOwnerOf g r w id x
      → IsAuthzOf g x.order.id
          (order_client g x.order (owned_resource g challenge_words r id w).1).1
          url
      → IsCaused g r w (post_challenge id) (Sent.polls url)
  challenge :
      {id : String} (x : Owned)
      → IsOwnerOf g r w id x
      → IsCaused g r w (post_challenge id) (Sent.starts id x.rm.upstream_url)
  finalize_client :
      {id : String} {k : ClientChoice} {c : Result Client} (x : Owned) (der : String)
      → IsOwnerOf g r w id x
      → HasCsr g x der
      → IsClientOf x.order k
      → IsAnswer g k c
      → IsCaused g r w (post_finalize id) (Sent.takes_client k c)
  finalize :
      {id : String} (x : Owned) (der : String)
      → IsOwnerOf g r w id x
      → HasCsr g x der
      → IsCaused g r w (post_finalize id) (Sent.finalizes x.rm.upstream_url der)
  get_cert_client :
      {id : String} {k : ClientChoice} {c : Result Client} (rm : ResourceMap) (o : Order)
      → IsServed g id w rm o
      → IsClientOf o k
      → IsAnswer g k c
      → IsCaused g r w (get_cert id) (Sent.takes_client k c)
  gets_cert :
      {id : String} (rm : ResourceMap) (o : Order)
      → IsServed g id w rm o
      → IsCaused g r w (get_cert id) (Sent.fetches rm.upstream_url)
  post_cert_client :
      {id : String} {k : ClientChoice} {c : Result Client} (rm : ResourceMap) (o : Order)
      → (check_post g r w).0 ≡ accepted tt
      → IsServed g id (check_post g r w).1 rm o
      → IsClientOf o k
      → IsAnswer g k c
      → IsCaused g r w (post_cert id) (Sent.takes_client k c)
  posts_cert :
      {id : String} (rm : ResourceMap) (o : Order)
      → (check_post g r w).0 ≡ accepted tt
      → IsServed g id (check_post g r w).1 rm o
      → IsCaused g r w (post_cert id) (Sent.fetches rm.upstream_url)
  revokes_client :
      {k : ClientChoice} {c : Result Client} (acct : Option Account) (der : String)
      → IsRevocation g r w acct der
      → IsOwn g acct k (found_order g der (revocation g r w).1)
      → IsAnswer g k c
      → IsCaused g r w post_revoke_cert (Sent.takes_client k c)
  revokes :
      {k : ClientChoice} (acct : Option Account) (der : String) (reason : ℤ)
      → IsRevocation g r w acct der
      → IsOwn g acct k (found_order g der (revocation g r w).1)
      → IsCaused g r w post_revoke_cert (Sent.revokes der reason)
