-- ===== src/Server/Handlers/Challenges.antt =====
-- internal/server/handlers.go: handleAuthz, handleChallenge and gatewayAuthzURLForChallenge.
pub mod Sends
use acme_gateway.Prelude.{
  ℕ, String, Bool, true, false, not, ◌&&◌, ◌||◌, List, [], ◌∷◌, Option, none, some, Result, ok, err,
  ◌<>◌, ◌==◌, if◌then◌else◌,
}
use acme_gateway.Model.{Order, ResourceMap, resource_type_challenge}
use acme_gateway.Config.{lookup}
use acme_gateway.Store.Resources.{
  save_resource, get_resource_by_upstream_url_and_order, get_authz_resources_by_order_id,
}
use acme_gateway.Upstream.Types.{AcmeAuthorization, Challenge, Client, Called, CallError}
use acme_gateway.Upstream.Types as Upstream
use acme_gateway.Upstream.Account.{acme_error_text}
use acme_gateway.Server.Errors.{AcmeError, err_server_internal, relay_upstream_error}
use acme_gateway.Server.Challenges.{ChallengeProc, begin_challenge_proc, snapshot}
use acme_gateway.Server.Requests.{HttpRequest, Checked, accepted, refused}
use acme_gateway.Server.World.{
  Gateway, World, Sent, Act, pure, lift, gets, ask, reads, reads_or, finds_or, writes_or, call,
  call_or, processes, ◌>>=◌, ◌>>◌,
}
use acme_gateway.Server.Handlers.{
  Response, ChallengeResponse, ChallengeError, upstream, own, Body, reply, base_url,
}
use acme_gateway.Server.Handlers.Ownership.{Words, Owned, owned_resource}
use acme_gateway.Server.Handlers.Orders.{order_client, mapping}

abbrev error_text : CallError → String
error_text (Upstream.problem ae) = acme_error_text ae
error_text (Upstream.failure m) = m

abbrev upstream_error : Option Upstream.AcmeError → Option ChallengeError
upstream_error none = none
upstream_error (some e) = some (upstream e)

-- challengeProc.Load and the snapshot of what it gives
unfoldable pub progress : String → World → Option (String × String × String)
progress id w = elim (lookup id w.proc.entries) [ none ↦ none | some ref ↦ snapshot ref w.proc ]

-- A failure that the gateway has recorded itself goes over the upstream's state.
abbrev overlaid : Option (String × String × String) → ChallengeResponse → ChallengeResponse × Bool
overlaid none c = (c, false)
overlaid (some (status, err_type, err_msg)) c =
    if status == "invalid"
    then (record c { status = "invalid"; error = some (own err_type err_msg) }, true)
    else (c, false)

abbrev pub challenge_words : Words
challenge_words = record {
  resource = "challenge";
  order = "order for challenge";
  owned = "challenge";
}

module _ (g : Gateway) where
  abbrev new_mapping : String → String → Option ResourceMap → Act String
  new_mapping order_id url (some rm) = pure rm.gateway_id
  new_mapping order_id url none = do
    id ← ask g.uuid
    writes_or (err_server_internal "saving challenge resource")
        (λ n db. save_resource (g.fault n) (mapping id resource_type_challenge order_id url) db)
    persisted ←
        finds_or (err_server_internal "reading challenge resource")
          (λ n db. get_resource_by_upstream_url_and_order (g.fault n) url order_id db)
    pure persisted.gateway_id

  -- The gateway's id of an upstream challenge of an order, which is made where there is none.
  unfoldable pub challenge_id : String → String → Act String
  challenge_id order_id url = do
    rm ←
        reads_or (err_server_internal "checking challenge resource")
          (λ n db. get_resource_by_upstream_url_and_order (g.fault n) url order_id db)
    new_mapping order_id url rm

  abbrev shown : String → Challenge → ChallengeResponse
  shown id c = record {
    type = c.type;
    url = base_url g <> "/challenge/" <> id;
    token = c.token;
    status = c.status;
    error = upstream_error c.error;
  }

  -- one challenge: its response, and whether it has failed here
  unfoldable pub rewrite_challenge : String → Challenge → Act (ChallengeResponse × Bool)
  unfolding challenge_id progress
  rewrite_challenge order_id c = do
    id ← challenge_id order_id c.url
    local ← gets (progress id)
    pure (overlaid local (shown id c))

  -- the loop over the challenges
  unfoldable pub rewrite_challenges : String → List Challenge → Act (List ChallengeResponse × Bool)
  unfolding rewrite_challenge
  rewrite_challenges order_id [] = pure ([], false)
  rewrite_challenges order_id (c ∷ cs) = do
    r ← rewrite_challenge order_id c
    rest ← rewrite_challenges order_id cs
    pure (r.0 ∷ rest.0, r.1 || rest.1)

  -- what handleAuthz does for an authorization of the client's
  unfoldable pub show_authz : Owned → Act Response
  unfolding rewrite_challenges
  show_authz x = do
    client ← order_client g x.order
    up ←
        call_or (relay_upstream_error "fetching authorization") (Sent.polls x.rm.upstream_url)
          (λ n. g.ca.get_authorization n client x.rm.upstream_url)
    cs ← rewrite_challenges x.order.id up.challenges
    pure (
        reply 200 (
          Body.authorization up.identifier (if cs.1 then "invalid" else up.status) cs.0 up.expires
            up.wildcard))

  unfoldable pub handle_authz : HttpRequest → String → Act Response
  unfolding show_authz
  handle_authz r id = do
    x ←
        owned_resource g
          (record {
            resource = "authorization";
            order = "order for authorization";
            owned = "authorization";
          })
          r id
    show_authz x

  abbrev find_challenge : String → List Challenge → Option Challenge
  find_challenge url [] = none
  find_challenge url (c ∷ cs) = if c.url == url then some c else find_challenge url cs

  abbrev not_resolved : Option String → Result (String × Challenge)
  not_resolved none = err "parent authorization not found for challenge"
  not_resolved (some e) = err ("failed to resolve challenge authorization: " <> e)

  -- What an authorization says of the challenge: found, or the error to keep.
  abbrev found_in :
      String → Option String → Called AcmeAuthorization → Option Challenge × Option String
  found_in url last (Called.broken e) = (none, some (error_text e))
  found_in url last (Called.returned a) = (find_challenge url a.challenges, last)

  abbrev found_or_next :
      ResourceMap
      → Option Challenge × Option String
      → (Option String → Act (Result (String × Challenge)))
      → Act (Result (String × Challenge))
  found_or_next rm (some c, last) next = pure (ok (base_url g <> "/authz/" <> rm.gateway_id, c))
  found_or_next rm (none, last) next = next last

  -- The loop over the order's authorizations, with the last error.
  unfoldable pub search_authzs :
      String → Option String → List ResourceMap → Client → Act (Result (String × Challenge))
  search_authzs url last [] client = pure (not_resolved last)
  search_authzs url last (rm ∷ rms) client = do
    a ← call (Sent.polls rm.upstream_url) (λ n. g.ca.get_authorization n client rm.upstream_url)
    found_or_next rm (found_in url last a) (λ l. search_authzs url l rms client)

  abbrev resolving : Result (String × Challenge) → Checked (String × Challenge)
  resolving (ok r) = accepted r
  resolving (err e) = refused (err_server_internal ("resolving challenge authorization: " <> e))

  abbrev list_authzs : String → Client → Result (List ResourceMap) → Act (String × Challenge)
  list_authzs url client (err e) = lift (resolving (err ("listing authorization resources: " <> e)))
  list_authzs url client (ok rms) = search_authzs url none rms client >>= (λ x. lift (resolving x))

  unfoldable pub gateway_authz_url_for_challenge :
      Client → String → String → Act (String × Challenge)
  unfolding search_authzs
  gateway_authz_url_for_challenge client order_id url = do
    r ← reads (λ n db. get_authz_resources_by_order_id (g.fault n) order_id db)
    list_authzs url client r

  -- startChallengeProcessing: whether the worker was started goes into the log.
  abbrev started : String → String → Bool → Act (Unit {0})
  started id url true = call (Sent.starts id url) (λ n. tt)
  started id url false = pure tt

  unfoldable pub start_challenge_processing : String → String → Act (Unit {0})
  start_challenge_processing id url = do
    r ← processes (λ n s. begin_challenge_proc id (g.now n) s)
    started id url r.1

  abbrev up_link : String → Response → Response
  up_link url r = record r { links = ("<" <> url <> ">;rel=\"up\"") ∷ [] }

  abbrev challenge_reply : ChallengeResponse → Response
  challenge_reply c = reply 200 (Body.challenge c)

  -- The answer by the record of the challenge, or by starting its processing.
  abbrev process :
      String → Owned → ChallengeResponse → Option (String × String × String) → Act Response
  process id x c (some (status, err_type, err_msg)) = pure (
      challenge_reply (record c {
        status = status;
        error = if status == "invalid" then some (own err_type err_msg) else none;
      }))
  process id x c none = do
    start_challenge_processing id x.rm.upstream_url
    pure (challenge_reply (record c { status = "processing"; error = none }))

  abbrev answer_or_start : String → Owned → Challenge → Act Response
  answer_or_start id x up =
      if not (up.status == "") && not (up.status == "pending")
      then pure (challenge_reply (shown id up))
      else (gets (progress id) >>= process id x (shown id up))

  -- what handleChallenge does for a challenge of the client's
  unfoldable pub answer_challenge : String → Owned → Act Response
  unfolding gateway_authz_url_for_challenge progress start_challenge_processing
  answer_challenge id x = do
    client ← order_client g x.order
    found ← gateway_authz_url_for_challenge client x.order.id x.rm.upstream_url
    r ← answer_or_start id x found.1
    pure (up_link found.0 r)

  unfoldable pub handle_challenge : HttpRequest → String → Act Response
  unfolding answer_challenge
  handle_challenge r id = do x ← owned_resource g challenge_words r id; answer_challenge id x
