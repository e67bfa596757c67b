-- ===== src/Server/Routes/Nonces.antt =====
-- Every response gives the client a nonce for its next request.
use acme_gateway.Prelude.{
  ℕ, String, true, false, ◌≡◌, refl, ap, Option, none, some, Result, ok, err,
}
use acme_gateway.Store.Db.{Db}
use acme_gateway.Store.Nonces.{issue_nonce}
use acme_gateway.Store.Nonces.Laws.{pending}
use acme_gateway.Server.Requests.{HttpRequest}
use acme_gateway.Server.World.{Gateway, World}
use acme_gateway.Server.Handlers.{attach_nonce}
use acme_gateway.Server.Handlers.Shared.{serve-nonce}
use acme_gateway.Server.Handlers.Accounts.{handle_new_account, handle_key_change}
use acme_gateway.Server.Handlers.Orders.{handle_new_order}
use acme_gateway.Server.Handlers.Challenges.{handle_authz, handle_challenge}
use acme_gateway.Server.Handlers.Finalize.{handle_finalize, handle_order}
use acme_gateway.Server.Handlers.Certs.{handle_cert, handle_revoke_cert}
use acme_gateway.Server.Routes.{
  Route, head_new_nonce, get_new_nonce, post_new_account, post_new_order, post_order, post_authz,
  post_challenge, post_finalize, get_cert, post_cert, post_key_change, post_revoke_cert,
  handle_new_nonce, answer_request,
}

issue_nonce-working :
    (r : Result String) (f : Option String) (now : ℕ) (v : String) (db : Db)
    → r ≡ ok v
    → f ≡ none
    → pending v db ≡ none
    → (issue_nonce r f now db).0 ≡ ok v
unfolding issue_nonce
issue_nonce-working r f now v db drawn working new = rw (drawn, working, new) refl

module _ (g : Gateway) where
  attach_nonce-working :
      (w : World) (v : String)
      → g.random w.tick ≡ ok v
      → g.fault w.tick ≡ none
      → pending v w.db ≡ none
      → (attach_nonce g w).0 ≡ some v
  unfolding attach_nonce
  attach_nonce-working w v drawn working new =
      ap (λ (r : Result String). elim r [ ok n ↦ some n | err e ↦ none ])
        (issue_nonce-working (g.random w.tick) (g.fault w.tick) (g.now w.tick) v w.db drawn working
          new)

  -- If a nonce can be issued when a request arrives (the random source gives a value that the table
  -- does not hold, and the database works), then the response carries a nonce, whatever the route,
  -- the request and the handler's outcome are.
  pub answer_request-nonce :
      (route : Route) (r : HttpRequest) (w : World) (v : String)
      → g.random w.tick ≡ ok v
      → g.fault w.tick ≡ none
      → pending v w.db ≡ none
      → (n : String) × ((answer_request g route r w).0.replay_nonce ≡ some n)
  unfolding answer_request
  answer_request-nonce route r w v drawn working new =
      go route (attach_nonce-working w v drawn working new)
    where
      go :
          (route : Route)
          → (attach_nonce g w).0 ≡ some v
          → (n : String) × ((answer_request g route r w).0.replay_nonce ≡ some n)
      go head_new_nonce h = unfold handle_new_nonce in (v, h)
      go get_new_nonce h = unfold handle_new_nonce in (v, h)
      go post_new_account h = serve-nonce g (handle_new_account g r) w v h
      go post_new_order h = serve-nonce g (handle_new_order g r) w v h
      go (post_order id) h = serve-nonce g (handle_order g r id) w v h
      go (post_authz id) h = serve-nonce g (handle_authz g r id) w v h
      go (post_challenge id) h = serve-nonce g (handle_challenge g r id) w v h
      go (post_finalize id) h = serve-nonce g (handle_finalize g r id) w v h
      go (get_cert id) h = serve-nonce g (handle_cert g false r id) w v h
      go (post_cert id) h = serve-nonce g (handle_cert g true r id) w v h
      go post_key_change h = serve-nonce g (handle_key_change g) w v h
      go post_revoke_cert h = serve-nonce g (handle_revoke_cert g r) w v h
