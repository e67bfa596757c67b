-- ===== src/Server/Handlers.antt =====
-- internal/server/handlers.go: what the handlers share, and how a handler's end becomes a response.
pub mod Shared
pub mod Accounts
pub mod Orders
pub mod Ownership
pub mod Challenges
pub mod Finalize
pub mod Certs
use acme_gateway.Prelude.{
  ℕ, String, Bool, true, false, List, [], ◌∷◌, Option, none, some, Result, ok, err, ◌<>◌,
}
use acme_gateway.Model.{Account, Identifier}
use acme_gateway.Store.Db.{Db}
use acme_gateway.Store.Nonces.{issue_nonce}
use acme_gateway.Upstream.Types.{AcmeError}
use acme_gateway.Server.Errors as Server
use acme_gateway.Server.Requests.{
  ParsedJws, HttpRequest, Checked, accepted, refused, parse_and_validate_jws, resolve_and_verify,
}
use acme_gateway.Server.World.{Gateway, World, Act, pure, lift, reads, writes, ◌>>=◌, ◌>>◌}

-- orderResponse, whose error no handler sets
pub record OrderResponse : Type 0 where
  pub status : String
  pub expires : String
  pub identifiers : List Identifier
  pub authorizations : List String
  pub finalize : String
  pub certificate : String

-- The error of a challenge: the upstream's, or the gateway's own by type and detail.
pub data ChallengeError : Type 0 where
  upstream : AcmeError → ChallengeError
  own : String → String → ChallengeError

pub record ChallengeResponse : Type 0 where
  pub type : String
  pub url : String
  pub token : String
  pub status : String
  pub error : Option ChallengeError

pub data Body : Type 0 where
  empty : Body
  problem : Server.AcmeError → Body
  -- status, contact, orders
  account : String → List String → String → Body
  order : OrderResponse → Body
  -- identifier, status, challenges, expires, wildcard
  authorization : Identifier → String → List ChallengeResponse → String → Bool → Body
  challenge : ChallengeResponse → Body
  pem : String → Body

pub record Response : Type 0 where
  pub status : ℕ
  pub replay_nonce : Option String
  pub location : String
  pub links : List String
  pub body : Body

abbrev pub reply : ℕ → Body → Response
reply status body = record {
  status = status;
  replay_nonce = none;
  location = "";
  links = [];
  body = body;
}

module _ (g : Gateway) where
  abbrev pub base_url : String
  base_url = g.cfg.server.base_url

  -- attachNonce: the value that is set, if one could be issued
  unfoldable pub attach_nonce : World → Option String × World
  attach_nonce w =
      let (r, db) = issue_nonce (g.random w.tick) (g.fault w.tick) (g.now w.tick) w.db in
      (elim r [ ok n ↦ some n | err e ↦ none ], record w { db = db; tick = ℕ.suc w.tick })

  abbrev link_header : String
  link_header = "<" <> base_url <> "/directory>;rel=\"index\""

  -- A nonce that is set again replaces the first.
  abbrev or_first : Option String → Option String → Option String
  or_first first none = first
  or_first first (some n) = some n

  abbrev error_response :
      Option String → Server.AcmeError → Option String × World → Response × World
  error_response first e (again, w) = (
    record (reply e.status (problem e)) {
      replay_nonce = or_first first again;
      links = link_header ∷ [];
    },
    w,
  )

  abbrev finished : Option String → Checked Response × World → Response × World
  finished first (accepted r, w) =
      (record r { replay_nonce = first; links = link_header ∷ r.links }, w)
  finished first (refused e, w) = error_response first e (attach_nonce w)

  abbrev after_headers : Act Response → Option String × World → Response × World
  after_headers h (first, w) = finished first (h w)

  -- A handler: addCommonHeaders, the handler's own steps, and writeError where they end in a problem.
  unfoldable pub serve : Act Response → World → Response × World
  unfolding attach_nonce
  serve h w = after_headers h (attach_nonce w)

  -- parseAndValidateJWS
  unfoldable pub validate_request : HttpRequest → Act ParsedJws
  validate_request r = do
    c ← writes (λ n db. parse_and_validate_jws g.jose base_url r (g.nonce_faults n) (g.now n) db)
    lift c

  unfoldable pub verify_request : ParsedJws → Act (Option Account)
  verify_request p = do
    c ← reads (λ n db. resolve_and_verify g.jose base_url p (g.fault n) db)
    lift c

  -- acct.ID where acct is nil: the handler panics, and the recovery middleware answers 500.
  abbrev nonnil : Option Account → Checked Account
  nonnil none = refused (Server.err_server_internal "panic: nil account")
  nonnil (some acct) = accepted acct
