-- ===== src/Upstream/Orders.antt =====
-- internal/upstream/order.go: the calls on orders, authorizations, challenges and certificates. A call
-- gives its result and the client with the nonces that it has taken and saved.
pub mod Laws
use acme_gateway.Prelude.{
  ℕ, String, Bool, true, false, not, ◌&&◌, List, [], ◌∷◌, Option, none, some, Result, ok, err, ◌==◌,
  eqb, if◌then◌else◌, ◌<>◌,
}
use acme_gateway.Model.{Identifier}
use acme_gateway.Model.Int.{ℤ, pos, negsuc}
use acme_gateway.Upstream.Types.{
  AcmeDirectory, AcmeError, AcmeOrder, AcmeAuthorization, Challenge, Client, Called, returned,
  broken, CallError, problem, failure,
}
use acme_gateway.Upstream.SignedPost.{
  Response, Network, directory, signed_post, signed_post_with_headers, parse_acme_error,
}
use acme_gateway.Upstream.Links.{UrlParser, parse_alternate_cert_links}

-- JSON and base64. The payload of POST-as-GET is empty.
pub record OrderCodec : Type 0 where
  -- the identifiers, and the profile if it is in the payload
  pub order_payload : List Identifier → Option String → String
  pub csr_payload : String → String
  -- the certificate, and the reason if it is in the payload
  pub revocation_payload : String → Option ℤ → String
  -- {}
  pub empty_object : String
  pub read_order : String → Result AcmeOrder
  pub read_authorization : String → Result AcmeAuthorization
  pub read_challenge : String → Result Challenge
  -- the rest of the body, whose reading may fail
  pub read_all : String → Result String
  -- the URL of the response's request, if it is there
  pub request_url : Response → Option String

abbrev pub Posted : Type 0
Posted = Result Response × Client × List (String × Response)

abbrev pub error_of : Response → Option AcmeError → CallError
error_of resp none = failure ("upstream HTTP: " <> resp.body)
error_of resp (some ae) = problem ae

-- parseACMEError, with the status left out of its text, as the caller's error
abbrev pub status_error : Response → CallError
status_error resp = error_of resp (parse_acme_error resp)

module _ {A : Type 0} where
  abbrev pub read_or_fail : String → Result A → Called A
  read_or_fail what (ok a) = returned a
  read_or_fail what (err e) = broken (failure (what <> ": " <> e))

  -- A response of the expected status, read; what is said of a call that fails, and of a body that
  -- does not decode.
  abbrev pub result_of :
      String → String → (Response → Bool) → (Response → Result A) → Posted → Called A × Client
  result_of doing decoding expected read (err e, c, sent) =
      (broken (failure (doing <> ": " <> e)), c)
  result_of doing decoding expected read (ok resp, c, sent) =
      (if expected resp then read_or_fail decoding (read resp) else broken (status_error resp), c)

abbrev pub has_status : ℕ → Response → Bool
has_status n resp = eqb resp.status n

module _ (net : Network) (codec : OrderCodec) where
  abbrev profile_of : String → Option String
  profile_of profile = if profile == "" then none else some profile

  -- the order, with the Location of the response
  abbrev with_location : Response → Result AcmeOrder → Result (AcmeOrder × String)
  with_location resp (ok o) = ok (o, resp.location)
  with_location resp (err e) = err e

  abbrev submit_to :
      List Identifier
      → String
      → Result AcmeDirectory × Client
      → Called (AcmeOrder × String) × Client
  submit_to ids profile (err e, c) = (broken (failure e), c)
  submit_to ids profile (ok dir, c) =
      result_of "submitting order" "decoding order response" (has_status 201)
        (λ resp. with_location resp (codec.read_order resp.body))
        (signed_post net dir.new_order (codec.order_payload ids (profile_of profile)) c)

  -- SubmitOrder
  unfoldable pub submit_order :
      Client → List Identifier → String → Called (AcmeOrder × String) × Client
  submit_order c ids profile = submit_to ids profile (directory net 0 c)

  unfoldable pub get_order : Client → String → Called AcmeOrder × Client
  get_order c url =
      result_of "getting order" "decoding order" (has_status 200)
        (λ resp. codec.read_order resp.body) (signed_post net url "" c)

  unfoldable pub get_authorization : Client → String → Called AcmeAuthorization × Client
  get_authorization c url =
      result_of "getting authorization" "decoding authorization" (has_status 200)
        (λ resp. codec.read_authorization resp.body) (signed_post net url "" c)

  unfoldable pub trigger_challenge : Client → String → Called Challenge × Client
  trigger_challenge c url =
      result_of "triggering challenge" "decoding challenge" (has_status 200)
        (λ resp. codec.read_challenge resp.body) (signed_post net url codec.empty_object c)

  unfoldable pub finalize_order : Client → String → String → Called AcmeOrder × Client
  finalize_order c url csr_der =
      result_of "finalizing order" "decoding finalize response" (has_status 200)
        (λ resp. codec.read_order resp.body) (signed_post net url (codec.csr_payload csr_der) c)

  abbrev link_base : String → Option String → String
  link_base url none = url
  link_base url (some u) = u

  abbrev with_alternates :
      UrlParser → String → Response → Result String → Called (String × List String)
  with_alternates urls url resp (err e) = broken (failure e)
  with_alternates urls url resp (ok chain) =
      returned
        (chain, parse_alternate_cert_links urls resp.link (link_base url (codec.request_url resp)))

  abbrev fetched : UrlParser → String → Posted → Called (String × List String) × Client
  fetched urls url (err e, c, sent) = (broken (failure ("fetching certificate: " <> e)), c)
  fetched urls url (ok resp, c, sent) = (
    if has_status 200 resp
        then with_alternates urls url resp (codec.read_all resp.body)
        else broken (status_error resp),
    c,
  )

  -- FetchCertificateWithAlternates
  unfoldable pub fetch_certificate :
      UrlParser → Client → String → Called (String × List String) × Client
  fetch_certificate urls c url =
      fetched urls url (
        signed_post_with_headers net url "" (("Accept", "application/pem-certificate-chain") ∷ [])
          c)

  abbrev reason_field : ℤ → Option ℤ
  reason_field (pos n) = some (pos n)
  reason_field (negsuc k) = none

  abbrev revoked : Posted → Called (Unit {0}) × Client
  revoked (err e, c, sent) = (broken (failure ("revoking certificate: " <> e)), c)
  revoked (ok resp, c, sent) = (
    if not (has_status 200 resp) && not (has_status 204 resp)
        then broken (status_error resp)
        else returned tt,
    c,
  )

  abbrev revoke_at : String → ℤ → Result AcmeDirectory × Client → Called (Unit {0}) × Client
  revoke_at der reason (err e, c) = (broken (failure e), c)
  revoke_at der reason (ok dir, c) =
      revoked
        (signed_post net dir.revoke_cert (codec.revocation_payload der (reason_field reason)) c)

  -- RevokeCertificate
  unfoldable pub revoke_certificate : Client → String → ℤ → Called (Unit {0}) × Client
  revoke_certificate c der reason = revoke_at der reason (directory net 0 c)
