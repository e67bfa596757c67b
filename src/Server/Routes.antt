-- ===== src/Server/Routes.antt =====
-- internal/server/server.go: buildRouter, and the answer to one request. The routes of the directory
-- and of health, which read no table that is modelled here, are left out.
pub mod Sends
pub mod Nonces
use acme_gateway.Prelude.{ℕ, String, Bool, true, false, List, [], ◌∷◌, Option, if◌then◌else◌}
use acme_gateway.Server.Requests.{HttpRequest}
use acme_gateway.Server.World.{Gateway, World, Act}
use acme_gateway.Server.Handlers.{Response, Body, reply, attach_nonce, serve}
use acme_gateway.Server.Handlers.Accounts.{handle_new_account, handle_key_change}
use acme_gateway.Server.Handlers.Orders.{handle_new_order}
use acme_gateway.Server.Handlers.Challenges.{handle_authz, handle_challenge}
use acme_gateway.Server.Handlers.Finalize.{handle_finalize, handle_order}
use acme_gateway.Server.Handlers.Certs.{handle_cert, handle_revoke_cert}

-- The routes by method and path, with the `{id}` of the path.
pub data Route : Type 0 where
  head_new_nonce : Route
  get_new_nonce : Route
  post_new_account : Route
  post_new_order : Route
  post_order : String → Route
  post_authz : String → Route
  post_challenge : String → Route
  post_finalize : String → Route
  get_cert : String → Route
  post_cert : String → Route
  post_key_change : Route
  post_revoke_cert : Route

module _ (g : Gateway) where
  abbrev with_nonce : ℕ → Option String × World → Response × World
  with_nonce status (n, w) = (record (reply status Body.empty) { replay_nonce = n }, w)

  -- handleNewNonce
  unfoldable pub handle_new_nonce : Bool → World → Response × World
  unfolding attach_nonce
  handle_new_nonce is_head w = with_nonce (if is_head then 200 else 204) (attach_nonce g w)

  -- buildRouter
  unfoldable pub answer_request : Route → HttpRequest → World → Response × World
  unfolding handle_new_nonce serve
  answer_request head_new_nonce r = handle_new_nonce true
  answer_request get_new_nonce r = handle_new_nonce false
  answer_request post_new_account r = serve g (handle_new_account g r)
  answer_request post_new_order r = serve g (handle_new_order g r)
  answer_request (post_order id) r = serve g (handle_order g r id)
  answer_request (post_authz id) r = serve g (handle_authz g r id)
  answer_request (post_challenge id) r = serve g (handle_challenge g r id)
  answer_request (post_finalize id) r = serve g (handle_finalize g r id)
  answer_request (get_cert id) r = serve g (handle_cert g false r id)
  answer_request (post_cert id) r = serve g (handle_cert g true r id)
  answer_request post_key_change r = serve g (handle_key_change g)
  answer_request post_revoke_cert r = serve g (handle_revoke_cert g r)
