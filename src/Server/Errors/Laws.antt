-- ===== src/Server/Errors/Laws.antt =====
-- What relaying an upstream error keeps and what it guarantees.
use acme_gateway.Prelude.{◌≤◌, ◌<◌, String, true, ◌≡◌, ◌≢◌, ◌↔◌, eq_iff, arith}
use acme_gateway.Upstream.Types as Upstream
use acme_gateway.Server.Errors.{or_text, relay_upstream_error, is_definitive_rejection}
use acme_gateway.Upstream.Types.{CallError, problem, failure}

or_text-nonempty : (d s : String) → d ≢ "" → or_text d s ≢ ""
or_text-nonempty d s h = ground (arith, eq_iff s "")

-- Whatever an upstream call failed with, the client is answered with an HTTP error status, 400 to
-- 599, and with a problem that has a type.
pub relay_upstream_error-is_error :
    (fallback : String) (e : CallError)
    → (400 ≤ (relay_upstream_error fallback e).status)
      × ((relay_upstream_error fallback e).status ≤ 599)
      × ((relay_upstream_error fallback e).type ≢ "")
unfolding relay_upstream_error
relay_upstream_error-is_error fallback (failure m) = (omega arith, omega arith, cc)
relay_upstream_error-is_error fallback (problem ae) = (
  ground arith,
  ground arith,
  or_text-nonempty "urn:ietf:params:acme:error:serverInternal" ae.type (cc),
)

-- The gateway takes the relayed problem for a definitive rejection, which makes the order invalid,
-- exactly when the CA's own status is a 4xx other than 408 and 429.
pub is_definitive_rejection-relay_upstream_error :
    (fallback : String) (ae : Upstream.AcmeError)
    → (is_definitive_rejection (relay_upstream_error fallback (problem ae)).status ≡ true)
      ↔ ((400 ≤ ae.status) × (ae.status < 500) × (ae.status ≢ 408) × (ae.status ≢ 429))
unfolding relay_upstream_error is_definitive_rejection
is_definitive_rejection-relay_upstream_error fallback ae = ground arith
