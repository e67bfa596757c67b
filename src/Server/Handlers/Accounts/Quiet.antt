-- ===== src/Server/Handlers/Accounts/Quiet.antt =====
-- Creating an account sends nothing.
use acme_gateway.Prelude.{String, Option, none, some}
use acme_gateway.Model.{Account}
use acme_gateway.Server.Requests.{HttpRequest}
use acme_gateway.Server.World.{Gateway, NewAccountRequest}
use acme_gateway.Server.World.Keeps.{IsQuiet, IsQuiet-pure, quiet_rules}
use acme_gateway.Server.Handlers.Accounts.{
  create_account, existing_or_new, new_account, handle_new_account,
}
use acme_gateway.Server.Handlers.Shared.{validate_request-IsQuiet}

module _ (g : Gateway) where
  existing_or_new-IsQuiet :
      (jwk tp : String) (req : NewAccountRequest) (o : Option Account)
      → IsQuiet (existing_or_new g jwk tp req o)
  existing_or_new-IsQuiet jwk tp req (some acct) = IsQuiet-pure _
  existing_or_new-IsQuiet jwk tp req none = unfold create_account in search quiet_rules depth 40

  pub handle_new_account-IsQuiet : (r : HttpRequest) → IsQuiet (handle_new_account g r)
  unfolding handle_new_account new_account
  handle_new_account-IsQuiet r =
      search (quiet_rules, validate_request-IsQuiet, existing_or_new-IsQuiet) depth 40
