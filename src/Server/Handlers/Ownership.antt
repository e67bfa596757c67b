-- ===== src/Server/Handlers/Ownership.antt =====
-- internal/server/handlers.go: how handleOrder, handleAuthz, handleChallenge and handleFinalize begin:
-- the request, the resource that its URL names, the order, and whose order it is.
pub mod Laws
use acme_gateway.Prelude.{ℕ, String, Bool, true, false, not, Option, none, some, ◌<>◌, ◌==◌}
use acme_gateway.Model.{Account, Order, ResourceMap}
use acme_gateway.Store.Orders.{get_order}
use acme_gateway.Store.Resources.{get_resource}
use acme_gateway.Server.Errors.{err_unauthorized, err_not_found}
use acme_gateway.Server.Requests.{ParsedJws, HttpRequest}
use acme_gateway.Server.World.{Gateway, Act, pure, lift, finds_or, ◌>>=◌, ◌>>◌, refuse_if}
use acme_gateway.Server.Handlers.{validate_request, verify_request, nonnil}

pub record OwnedOrder : Type 0 where
  pub parsed : ParsedJws
  pub acct : Account
  pub order : Order

pub record Owned : Type 0 where
  pub parsed : ParsedJws
  pub acct : Account
  pub rm : ResourceMap
  pub order : Order

-- The words of a handler's problems: the resource, and what of an order is missing or not the
-- account's.
pub record Words : Type 0 where
  pub resource : String
  pub order : String
  pub owned : String

module _ (g : Gateway) where
  unfoldable pub owned_order : HttpRequest → String → Act OwnedOrder
  owned_order r order_id = do
    p ← validate_request g r
    o ← verify_request g p
    order ← finds_or (err_not_found "order not found") (λ n db. get_order (g.fault n) order_id db)
    acct ← lift (nonnil g o)
    lift (
        refuse_if (not (order.account_id == acct.id))
          (err_unauthorized "order does not belong to this account"))
    pure (record { parsed = p; acct = acct; order = order })

  unfoldable pub owned_resource : Words → HttpRequest → String → Act Owned
  owned_resource words r id = do
    p ← validate_request g r
    o ← verify_request g p
    rm ←
        finds_or (err_not_found (words.resource <> " not found"))
          (λ n db. get_resource (g.fault n) id db)
    order ←
        finds_or (err_not_found (words.order <> " not found"))
          (λ n db. get_order (g.fault n) rm.order_id db)
    acct ← lift (nonnil g o)
    lift (
        refuse_if (not (order.account_id == acct.id))
          (err_unauthorized (words.owned <> " does not belong to this account")))
    pure (record { parsed = p; acct = acct; rm = rm; order = order })
