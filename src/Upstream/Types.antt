-- ===== src/Upstream/Types.antt =====
-- internal/upstream/client.go: the objects that an upstream CA answers with, and the client.
use acme_gateway.Prelude.{ℕ, String, Bool, List, Option, none, replicate}
use acme_gateway.Model.{Identifier}

pub record AcmeDirectory : Type 0 where
  pub new_nonce : String
  pub new_account : String
  pub new_order : String
  pub revoke_cert : String
  pub key_change : String

-- `subproblems` is raw JSON.
pub record AcmeError : Type 0 where
  pub type : String
  pub detail : String
  pub status : ℕ
  pub subproblems : String

-- The error of an upstream call: a problem document of the CA, or any other error by its message.
pub data CallError : Type 0 where
  problem : AcmeError → CallError
  failure : String → CallError

-- What an upstream call gives: a value or an error.
pub data Called (A : Type 0) : Type 0 where
  returned : A → Called A
  broken : CallError → Called A

pub record AcmeOrder : Type 0 where
  pub status : String
  pub expires : String
  pub identifiers : List Identifier
  pub authorizations : List String
  pub finalize : String
  pub certificate : String
  pub error : Option AcmeError

pub record Challenge : Type 0 where
  pub type : String
  pub url : String
  pub token : String
  pub status : String
  pub error : Option AcmeError

pub record AcmeAuthorization : Type 0 where
  pub identifier : Identifier
  pub status : String
  pub expires : String
  pub challenges : List Challenge
  pub wildcard : Bool

abbrev pub nonce_pool_size : ℕ
nonce_pool_size = 8

-- The key pair is named by its PEM text.
pub record Client : Type 0 where
  pub directory_url : String
  pub key : String
  pub account_url : String
  pub directory : Option AcmeDirectory
  pub nonces : List String
  pub nonce_head : ℕ
  pub nonce_tail : ℕ
  pub nonce_count : ℕ

-- New with a key
abbrev pub new_client : String → String → Client
new_client directory_url key = record {
  directory_url = directory_url;
  key = key;
  account_url = "";
  directory = none;
  nonces = replicate nonce_pool_size "";
  nonce_head = 0;
  nonce_tail = 0;
  nonce_count = 0;
}
