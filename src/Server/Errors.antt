-- ===== src/Server/Errors.antt =====
-- internal/server/handlers.go: the problem documents, and how an upstream CA's error is relayed.
pub mod Laws
use acme_gateway.Prelude.{
  ℕ, String, Bool, true, false, ◌||◌, ◌==◌, ltb, leb, eqb, if◌then◌else◌, ◌<>◌,
}
use acme_gateway.Upstream.Types as Upstream
use acme_gateway.Upstream.Types.{CallError, problem, failure}

-- acmeError: what the gateway's client is answered
pub record AcmeError : Type 0 where
  pub type : String
  pub detail : String
  pub status : ℕ
  pub subproblems : String

abbrev pub acme_error : String → ℕ → String → AcmeError
acme_error kind status detail = record {
  type = "urn:ietf:params:acme:error:" <> kind;
  detail = detail;
  status = status;
  subproblems = "";
}

abbrev pub err_bad_nonce : String → AcmeError
err_bad_nonce detail = acme_error "badNonce" 400 detail

abbrev pub err_malformed : String → AcmeError
err_malformed detail = acme_error "malformed" 400 detail

abbrev pub err_unauthorized : String → AcmeError
err_unauthorized detail = acme_error "unauthorized" 401 detail

abbrev pub err_not_found : String → AcmeError
err_not_found detail = acme_error "malformed" 404 detail

abbrev pub err_server_internal : String → AcmeError
err_server_internal detail = acme_error "serverInternal" 500 detail

abbrev pub err_bad_csr : String → AcmeError
err_bad_csr detail = acme_error "badCSR" 400 detail

abbrev or_text : String → String → String
or_text d s = if s == "" then d else s

unfoldable pub relay_upstream_error : String → CallError → AcmeError
relay_upstream_error fallback (failure message) = err_server_internal (fallback <> ": " <> message)
relay_upstream_error fallback (problem ae) = record {
  type = or_text "urn:ietf:params:acme:error:serverInternal" ae.type;
  detail = or_text fallback ae.detail;
  status = if ltb ae.status 400 || ltb 599 ae.status then 502 else ae.status;
  subproblems = ae.subproblems;
}

unfoldable pub is_definitive_rejection : ℕ → Bool
is_definitive_rejection status =
    if ltb status 400 || leb 500 status
    then false
    else if eqb status 408
    then false
    else if eqb status 429
    then false
    else true
