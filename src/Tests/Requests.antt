-- ===== src/Tests/Requests.antt =====
-- internal/server with a signer that is scripted.
use acme_gateway.Prelude.{
  ◌*◌, ◌≢◌, refl, List, [], ◌∷◌, none, some, ok, err, arith, eq_iff, ◌==◌, if◌then◌else◌,
  has_prefix, trim_prefix,
}
use acme_gateway.Model.{Account}
use acme_gateway.Store.Db.{Db, empty, second, whole_seconds}
use acme_gateway.Store.Nonces.{consume_nonce, no_faults}
use acme_gateway.Store.Nonces.Laws.{Call, run_calls}
use acme_gateway.Store.Accounts.{get_account}
use acme_gateway.Server.Requests.{
  Jose, ParsedJws, HttpRequest, accepted, parse_jws, parse_and_validate_jws, resolve_account,
  resolve_and_verify,
}
use acme_gateway.Server.Requests.Laws.{
  IsFresh, IsSigned, parse_and_validate_jws-once, resolve_and_verify-IsSigned,
}

abbrev pub known : Account
known = record {
  id = "t1";
  public_key = "jwk1";
  key_type = "ECDSA";
  contact = [];
  status = "valid";
  created_at = 0;
}

abbrev pub tables : Db
tables = record empty {
  accounts = known ∷ [];
  nonces = record { value = "n1"; expires_at = whole_seconds (600 * second) } ∷ [];
}

abbrev pub jose : Jose
jose = record {
  raw_payload = λ body. ok "";
  parse_signed = λ body. ok (record {
    signatures = 1;
    nonce = "n1";
    url = "https://gw/order/1";
    jwk = none;
    kid = "https://gw/account/t1";
    raw = body;
  });
  base64_decode = λ text. ok text;
  thumbprint = λ jwk. ok "t1";
  parse_public_key = λ jwk. some jwk;
  verify = λ raw key. if key == "jwk1" then ok tt else err "bad signature";
}

abbrev pub request : HttpRequest
request = record { content_type = "application/jose+json"; body = ok "{}"; path = "/order/1" }

abbrev read : ParsedJws
read = record {
  payload = "";
  embedded_jwk = none;
  account_kid = "https://gw/account/t1";
  nonce = "n1";
  url = "https://gw/order/1";
  raw = "{}";
}

abbrev between : List Call
between = Call.issues (ok "n2") none second ∷ []

parse_and_validate_jws-once_example :
    IsFresh jose "https://gw" request no_faults second tables read
    × ((parse_and_validate_jws jose "https://gw" request no_faults (2 * second) (
          run_calls between
            (parse_and_validate_jws jose "https://gw" request no_faults second tables).1)).0
        ≢ accepted read)
parse_and_validate_jws-once_example =
    parse_and_validate_jws-once jose "https://gw" request no_faults no_faults second (2 * second)
      tables read read between (unfold parse_and_validate_jws parse_jws consume_nonce in refl)
      (λ e. ground (arith, (eq_iff "n2" "n1").1 e), tt)

resolve_and_verify-IsSigned_example : IsSigned jose "https://gw" read tables (some known)
resolve_and_verify-IsSigned_example =
    resolve_and_verify-IsSigned jose "https://gw" read none tables (some known)
      (unfold resolve_and_verify resolve_account get_account has_prefix trim_prefix in refl)
