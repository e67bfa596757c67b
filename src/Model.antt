-- ===== src/Model.antt =====
-- internal/model/types.go: the data that the components share.
pub mod Int
use acme_gateway.Prelude.{ℕ, String, List}
use Int.{ℤ}

pub record Identifier : Type 0 where
  pub type : String
  pub value : String

-- Times are nanoseconds; what the store writes keeps whole seconds.
pub record Account : Type 0 where
  pub id : String
  pub public_key : String
  pub key_type : String
  pub contact : List String
  pub status : String
  pub created_at : ℕ

pub record UpstreamAccount : Type 0 where
  pub upstream_id : String
  pub account_id : String
  pub slot : ℕ
  pub account_url : String
  pub private_key : String
  pub created_at : ℕ

pub record Order : Type 0 where
  pub id : String
  pub account_id : String
  pub upstream_id : String
  pub upstream_slot : ℤ
  pub upstream_order_url : String
  pub status : String
  pub identifiers : String
  pub profile : String
  pub require_csr_key_type : String
  pub created_at : ℕ
  pub updated_at : ℕ

-- An empty `cert_fingerprint` is the column's NULL.
pub record ResourceMap : Type 0 where
  pub gateway_id : String
  pub resource_type : String
  pub order_id : String
  pub upstream_url : String
  pub cert_fingerprint : String

pub record Nonce : Type 0 where
  pub value : String
  pub expires_at : ℕ

abbrev pub key_type_rsa : String
key_type_rsa = "RSA"

abbrev pub key_type_ecdsa : String
key_type_ecdsa = "ECDSA"

abbrev pub order_status_invalid : String
order_status_invalid = "invalid"

abbrev pub account_status_valid : String
account_status_valid = "valid"

abbrev pub resource_type_authz : String
resource_type_authz = "authz"

abbrev pub resource_type_challenge : String
resource_type_challenge = "challenge"

abbrev pub resource_type_finalize : String
resource_type_finalize = "finalize"

abbrev pub resource_type_cert : String
resource_type_cert = "cert"

abbrev pub upstream_profile_passthrough : String
upstream_profile_passthrough = "$passthrough"
