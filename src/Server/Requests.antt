-- ===== src/Server/Requests.antt =====
-- internal/server/jws.go and handlers.go: from the body of a request to the account that signed it.
-- JSON, base64 and go-jose are parameters; a key is named by its JWK text.
pub mod Laws
use acme_gateway.Prelude.{
  ℕ, String, Bool, true, false, not, ◌||◌, ◌&&◌, Option, none, some, Result, ok, err, ◌==◌, eqb,
  if◌then◌else◌, ◌<>◌, has_prefix, trim_prefix, is_some,
}
use acme_gateway.Model.{Account}
use acme_gateway.Store.Db.{Db}
use acme_gateway.Store.Nonces.{Faults, consume_nonce}
use acme_gateway.Store.Accounts.{get_account}
use acme_gateway.Server.Errors.{
  AcmeError, err_bad_nonce, err_malformed, err_unauthorized, err_server_internal,
}

-- What go-jose reads from a signed object: the number of signatures, and the first one's protected
-- header. `raw` is the object itself, which is verified later.
pub record Signed : Type 0 where
  pub signatures : ℕ
  pub nonce : String
  pub url : String
  pub jwk : Option String
  pub kid : String
  pub raw : String

pub record Jose : Type 0 where
  -- the "payload" of the body as a JSON object
  pub raw_payload : String → Result String
  pub parse_signed : String → Result Signed
  pub base64_decode : String → Result String
  pub thumbprint : String → Result String
  -- the key of an account's stored JWK
  pub parse_public_key : String → Option String
  -- signed object and key
  pub verify : String → String → Result (Unit {0})

pub record ParsedJws : Type 0 where
  pub payload : String
  pub embedded_jwk : Option String
  pub account_kid : String
  pub nonce : String
  pub url : String
  pub raw : String

pub record HttpRequest : Type 0 where
  pub content_type : String
  -- up to 1 MiB of the body
  pub body : Result String
  pub path : String

-- A value, or the problem that the client is answered with.
pub data Checked {ℓ} (V : Type ℓ) : Type ℓ where
  accepted : V → Checked V
  refused : AcmeError → Checked V

module _ (jose : Jose) where
  abbrev parsed : Signed → String → ParsedJws
  parsed s payload = record {
    payload = payload;
    embedded_jwk = s.jwk;
    account_kid = if is_some s.jwk then "" else s.kid;
    nonce = s.nonce;
    url = s.url;
    raw = s.raw;
  }

  abbrev with_payload : Signed → Result String → Result ParsedJws
  with_payload s (err e) = err ("decoding JWS payload: " <> e)
  with_payload s (ok payload) = ok (parsed s payload)

  abbrev decoded : String → Result String
  decoded payload = if payload == "" then ok "" else jose.base64_decode payload

  abbrev check_headers : Signed → String → Result ParsedJws
  check_headers s payload =
      if not (eqb s.signatures 1)
      then err "JWS must have exactly one signature"
      else if s.nonce == ""
      then err "missing nonce in JWS protected header"
      else if s.url == ""
      then err "missing url in JWS protected header"
      else if is_some s.jwk && not (s.kid == "")
      then err "JWS must not have both jwk and kid in protected header"
      else if not (is_some s.jwk) && s.kid == ""
      then err "JWS must have either jwk or kid in protected header"
      else with_payload s (decoded payload)

  abbrev signed_object : String → Result Signed → Result ParsedJws
  signed_object payload (err e) = err ("malformed JWS: " <> e)
  signed_object payload (ok s) = check_headers s payload

  abbrev raw_object : String → Result String → Result ParsedJws
  raw_object body (err e) = err ("malformed JWS: " <> e)
  raw_object body (ok payload) = signed_object payload (jose.parse_signed body)

  unfoldable pub parse_jws : String → Result ParsedJws
  parse_jws body = raw_object body (jose.raw_payload body)

  module _ (base_url : String) where
    abbrev consumed : ParsedJws → Result (Unit {0}) × Db → Checked ParsedJws × Db
    consumed p (err e, db) = (refused (err_bad_nonce e), db)
    consumed p (ok _, db) = (accepted p, db)

    abbrev check_url : HttpRequest → Faults → ℕ → Db → Result ParsedJws → Checked ParsedJws × Db
    check_url r f now db (err e) = (refused (err_malformed e), db)
    check_url r f now db (ok p) =
        if p.url == base_url <> r.path
        then consumed p (consume_nonce f now p.nonce db)
        else (refused (err_malformed "JWS url does not match request URL"), db)

    abbrev check_body : HttpRequest → Faults → ℕ → Db → Result String → Checked ParsedJws × Db
    check_body r f now db (err e) = (refused (err_malformed "reading request body"), db)
    check_body r f now db (ok body) = check_url r f now db (parse_jws body)

    -- parseAndValidateJWS, with the problem that it writes
    unfoldable pub parse_and_validate_jws : HttpRequest → Faults → ℕ → Db → Checked ParsedJws × Db
    unfolding parse_jws
    parse_and_validate_jws r f now db =
        if r.content_type == "application/jose+json"
        then check_body r f now db r.body
        else (refused (err_malformed "Content-Type must be application/jose+json"), db)

    abbrev looked_up : Result (Option Account) → Checked (Option Account)
    looked_up (err e) = refused (err_server_internal "looking up account")
    looked_up (ok acct) = accepted acct

    abbrev required : Checked (Option Account) → Checked (Option Account)
    required (refused e) = refused e
    required (accepted none) = refused (err_unauthorized "account not found")
    required (accepted (some acct)) = accepted (some acct)

    abbrev by_thumbprint : Option String → Db → Result String → Checked (Option Account)
    by_thumbprint failure db (err e) = refused (err_malformed ("invalid JWK: " <> e))
    by_thumbprint failure db (ok tp) = looked_up (get_account failure tp db)

    abbrev pub account_prefix : String
    account_prefix = base_url <> "/account/"

    -- An embedded JWK may be of no account.
    abbrev account_of : ParsedJws → Option String → Db → Option String → Checked (Option Account)
    account_of p failure db (some jwk) = by_thumbprint failure db (jose.thumbprint jwk)
    account_of p failure db none =
        if has_prefix p.account_kid account_prefix
        then required
            (looked_up (get_account failure (trim_prefix p.account_kid account_prefix) db))
        else refused (err_unauthorized "kid does not reference a known account URL")

    unfoldable pub resolve_account : ParsedJws → Option String → Db → Checked (Option Account)
    resolve_account p failure db = account_of p failure db p.embedded_jwk

    abbrev verified : Option Account → Result (Unit {0}) → Checked (Option Account)
    verified acct (err e) = refused (err_unauthorized "signature verification failed")
    verified acct (ok _) = accepted acct

    abbrev with_stored_key : ParsedJws → Account → Option String → Checked (Option Account)
    with_stored_key p acct none = refused (err_server_internal "could not parse account public key")
    with_stored_key p acct (some key) = verified (some acct) (jose.verify p.raw key)

    -- The key is the embedded one or the account's; without either the code would panic, which
    -- `resolve_account` excludes.
    abbrev verify_with : ParsedJws → Option Account → Option String → Checked (Option Account)
    verify_with p acct (some jwk) = verified acct (jose.verify p.raw jwk)
    verify_with p (some acct) none = with_stored_key p acct (jose.parse_public_key acct.public_key)
    verify_with p none none = refused (err_server_internal "nil account")

    abbrev verify_resolved : ParsedJws → Checked (Option Account) → Checked (Option Account)
    verify_resolved p (refused e) = refused e
    verify_resolved p (accepted acct) = verify_with p acct p.embedded_jwk

    -- resolveAndVerify: the account is none where the embedded JWK is of no account.
    unfoldable pub resolve_and_verify : ParsedJws → Option String → Db → Checked (Option Account)
    unfolding resolve_account
    resolve_and_verify p failure db = verify_resolved p (resolve_account p failure db)
