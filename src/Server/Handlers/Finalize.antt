-- ===== src/Server/Handlers/Finalize.antt =====
-- internal/server/handlers.go: handleFinalize and handleOrder.
pub mod Sends
pub mod Rejection
use acme_gateway.Prelude.{
  ℕ, String, Bool, true, false, not, ◌&&◌, Option, none, some, Result, ok, err, ◌<>◌, ◌==◌,
  if◌then◌else◌, equal_fold,
}
use acme_gateway.Model.{Order, order_status_invalid}
use acme_gateway.Upstream.Types.{AcmeOrder, Called, CallError}
use acme_gateway.Server.Errors.{
  AcmeError, err_malformed, err_bad_csr, relay_upstream_error, is_definitive_rejection,
}
use acme_gateway.Server.Requests.{HttpRequest, Checked, accepted, refused}
use acme_gateway.Server.World.{
  Gateway, Sent, Act, pure, refuse, lift, call, ◌>>=◌, ◌>>◌, or_refuse, refuse_if,
}
use acme_gateway.Server.Handlers.{Response}
use acme_gateway.Server.Handlers.Ownership.{Words, Owned, OwnedOrder, owned_resource, owned_order}
use acme_gateway.Server.Handlers.Orders.{order_client, set_status, build_order_response, poll_order}

abbrev csr_key_type_label : String → String
csr_key_type_label t = if t == "" then "an unrecognised key type" else t

-- The order's required key type, if it has one, is the CSR's, up to case.
abbrev has_wrong_key_type : Order → String → Bool
has_wrong_key_type o kt =
    not (o.require_csr_key_type == "") && not (equal_fold kt o.require_csr_key_type)

module _ (g : Gateway) where
  -- The CSR of the payload: its DER bytes, accepted for the order.
  unfoldable pub accepted_csr : Owned → Act String
  accepted_csr x = do
    csr ← lift (
        or_refuse (err_malformed "invalid finalize payload")
          (g.codec.finalize_request x.parsed.payload))
    lift (refuse_if (csr == "") (err_malformed "csr is required"))
    der ← lift (or_refuse (err_malformed "invalid csr encoding") (g.codec.base64_decode csr))
    kt ← lift (or_refuse (err_bad_csr "could not parse CSR") (g.codec.csr_key_type der))
    lift (
        refuse_if (has_wrong_key_type x.order kt) (
          err_bad_csr (
            "CSR public key must be "
            <> x.order.require_csr_key_type
            <> " for profile "
            <> g.codec.quote x.order.profile
            <> ", got "
            <> csr_key_type_label kt)))
    pure der

  -- A definitive rejection makes the order invalid; the error of that update is ignored.
  abbrev finalize_rejected : Order → AcmeError → Act Response
  finalize_rejected o e = do
    if is_definitive_rejection e.status then set_status g o.id order_status_invalid else pure tt
    refuse e

  unfoldable pub finalized : Order → Called AcmeOrder → Act Response
  unfolding set_status build_order_response is_definitive_rejection
  finalized o (Called.broken e) =
      finalize_rejected o (relay_upstream_error "finalizing upstream order" e)
  finalized o (Called.returned up) = do set_status g o.id up.status; build_order_response g o.id up

  -- what handleFinalize does for an order of the client's
  unfoldable pub finalize_order : Owned → Act Response
  unfolding accepted_csr order_client finalized
  finalize_order x = do
    der ← accepted_csr x
    client ← order_client g x.order
    up ←
        call (Sent.finalizes x.rm.upstream_url der)
          (λ n. g.ca.finalize_order n client x.rm.upstream_url der)
    finalized x.order up

  unfoldable pub handle_finalize : HttpRequest → String → Act Response
  unfolding finalize_order
  handle_finalize r id = do
    x ←
        owned_resource g
          (record { resource = "finalize resource"; order = "order"; owned = "order" }) r id
    finalize_order x

  unfoldable pub handle_order : HttpRequest → String → Act Response
  handle_order r id = do x ← owned_order g r id; poll_order g x.order
