-- ===== src/Server/Handlers/Accounts.antt =====
-- internal/server/handlers.go: handleNewAccount and handleKeyChange.
pub mod Laws
pub mod Quiet
use acme_gateway.Prelude.{
  ℕ, String, Bool, true, false, List, [], ◌∷◌, Option, none, some, Result, ok, err, ◌<>◌, ◌==◌,
  if◌then◌else◌,
}
use acme_gateway.Model.{Account, account_status_valid}
use acme_gateway.Store.Accounts.{save_account, get_account}
use acme_gateway.Server.Errors.{
  AcmeError, acme_error, err_malformed, err_unauthorized, err_server_internal,
}
use acme_gateway.Server.Requests.{ParsedJws, HttpRequest, Checked, accepted, refused}
use acme_gateway.Server.World.{
  Gateway, NewAccountRequest, Act, pure, refuse, lift, ask, reads_or, writes_or, ◌>>=◌, ◌>>◌,
  or_refuse, refuse_if,
}
use acme_gateway.Server.Handlers.{Response, Body, reply, base_url, validate_request}

abbrev required_jwk : Option String → Checked String
required_jwk none = refused (err_malformed "new-account must use jwk, not kid")
required_jwk (some jwk) = accepted jwk

abbrev fresh_account : String → String → String → List String → ℕ → Account
fresh_account tp jwk_json kt contact now = record {
  id = tp;
  public_key = jwk_json;
  key_type = kt;
  contact = contact;
  status = account_status_valid;
  created_at = now;
}

module _ (g : Gateway) where
  -- An empty payload is the zero request.
  abbrev account_request : String → Checked NewAccountRequest
  account_request payload =
      if payload == ""
      then accepted
          (record { contact = []; terms_of_service_agreed = false; only_return_existing = false })
      else or_refuse (err_malformed "invalid account payload") (g.codec.new_account_request payload)

  abbrev pub account_url : String → String
  account_url tp = base_url g <> "/account/" <> tp

  abbrev pub account_response : ℕ → String → Account → Response
  account_response status tp acct =
      record (reply status (Body.account acct.status acct.contact (account_url tp <> "/orders"))) {
        location = account_url tp;
      }

  -- the rest of the handler where the key has no account
  unfoldable pub create_account : String → String → NewAccountRequest → Act Response
  create_account jwk tp req = do
    lift (
        refuse_if req.only_return_existing
          (acme_error "accountDoesNotExist" 400 "account does not exist"))
    kt ← lift (or_refuse (err_malformed "unsupported key type") (g.codec.jwk_key_type jwk))
    jwk_json ← lift (or_refuse (err_server_internal "marshalling key") (g.codec.jwk_json jwk))
    now ← ask g.now
    let acct = fresh_account tp jwk_json kt req.contact now
    writes_or (err_server_internal "saving account") (λ n db. save_account (g.fault n) acct db)
    pure (account_response 201 tp acct)

  abbrev existing_or_new : String → String → NewAccountRequest → Option Account → Act Response
  existing_or_new jwk tp req (some acct) = pure (account_response 200 tp acct)
  existing_or_new jwk tp req none = create_account jwk tp req

  -- from the parsed request on
  unfoldable pub new_account : ParsedJws → Act Response
  unfolding create_account
  new_account p = do
    jwk ← lift (required_jwk p.embedded_jwk)
    req ← lift (account_request p.payload)
    tp ← lift (or_refuse (err_malformed "invalid JWK") (g.jose.thumbprint jwk))
    lift (or_refuse (err_unauthorized "signature verification failed") (g.jose.verify p.raw jwk))
    existing ←
        reads_or (err_server_internal "looking up account") (λ n db. get_account (g.fault n) tp db)
    existing_or_new jwk tp req existing

  unfoldable pub handle_new_account : HttpRequest → Act Response
  unfolding new_account
  handle_new_account r = do p ← validate_request g r; new_account p

  unfoldable pub handle_key_change : Act Response
  handle_key_change = refuse (err_server_internal "key roll-over is not supported by this gateway")
