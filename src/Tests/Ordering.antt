-- ===== src/Tests/Ordering.antt =====
-- internal/upstream/order.go with an upstream that is scripted.
use acme_gateway.Prelude.{
  ◌≡◌, refl, String, List, [], ◌∷◌, none, some, ok, false, All, ◌==◌, trim_space, has_prefix,
  trim_prefix, equal_fold,
}
use acme_gateway.Prelude.Tables.{Distinct}
use acme_gateway.Upstream.Types.{returned, broken, problem}
use acme_gateway.Upstream.NonceRing.{take_nonce, save_nonce}
use acme_gateway.Upstream.SignedPost.{
  Network, directory, get_nonce, round, attempts, signed_post, signed_post_with_headers,
  parse_acme_error,
}
use acme_gateway.Upstream.Links.{Url, UrlParser, parse_alternate_cert_links}
use acme_gateway.Upstream.Links.Laws.{IsSameOrigin, parse_alternate_cert_links-IsSameOrigin}
use acme_gateway.Upstream.Orders.{OrderCodec, submit_order, finalize_order}
use acme_gateway.Upstream.Orders.Laws.{
  IsSubmitted, submit_order-IsSubmitted, IsProblem, finalize_order-IsProblem,
}
use acme_gateway.Tests.Serving.{bad_csr}
use acme_gateway.Tests.Upstreams.{fresh, bad_nonce, scripted}
use acme_gateway.Tests.Handling.{pending, names}

abbrev url : String → Url
url text = record { scheme = "https"; host = "ca"; text = text }

abbrev urls : UrlParser
urls = record { parse = λ text. ok (url text); resolve_reference = λ base u. u }

abbrev links : List String
links =
    "<https://ca/1/alt>;title=\"a,b\";rel=\"up alternate\", <https://ca/1/alt>; rel=alternate"
    ∷ "<https://ca/directory>;rel=\"index\"" ∷ []

parse_alternate_cert_links_test :
    parse_alternate_cert_links urls links "https://ca/1" ≡ "https://ca/1/alt" ∷ []
unfolding parse_alternate_cert_links trim_space has_prefix trim_prefix equal_fold
parse_alternate_cert_links_test = refl

parse_alternate_cert_links-IsSameOrigin_example :
    All
      (IsSameOrigin urls links (url "https://ca/1"))
      (parse_alternate_cert_links urls links "https://ca/1")
    × Distinct (λ a b. a == b) (parse_alternate_cert_links urls links "https://ca/1")
parse_alternate_cert_links-IsSameOrigin_example =
    parse_alternate_cert_links-IsSameOrigin urls (url "https://ca/1") links "https://ca/1" refl

abbrev codec : OrderCodec
codec = record {
  order_payload = λ ids profile. "order";
  csr_payload = λ der. der;
  revocation_payload = λ der reason. der;
  empty_object = "{}";
  read_order = λ body. ok pending;
  read_authorization = λ body. ok (record {
    identifier = record { type = "dns"; value = "a.internal" };
    status = "pending";
    expires = "";
    challenges = [];
    wildcard = false;
  });
  read_challenge =
      λ body. ok (record { type = "dns-01"; url = ""; token = ""; status = ""; error = none });
  read_all = λ body. ok body;
  request_url = λ resp. none;
}

submitted :
    (submit_order scripted codec fresh names "tls").0 ≡ returned (pending, "https://ca/acct/1")
unfolding submit_order directory get_nonce round attempts signed_post signed_post_with_headers
    take_nonce save_nonce parse_acme_error
submitted = refl

submit_order-IsSubmitted_example :
    IsSubmitted scripted codec fresh names "tls" pending "https://ca/acct/1"
submit_order-IsSubmitted_example =
    submit_order-IsSubmitted scripted codec fresh names "tls" pending "https://ca/acct/1" submitted

abbrev rejecting : Network
rejecting = record scripted {
  post = λ i u body headers. ok (record bad_nonce { status = 403; problem = some bad_csr });
}

rejected :
    (finalize_order rejecting codec fresh "https://ca/finalize/1" "csr").0
    ≡ broken (problem bad_csr)
unfolding finalize_order directory get_nonce round attempts signed_post signed_post_with_headers
    take_nonce save_nonce parse_acme_error
rejected = refl

finalize_order-IsProblem_example :
    IsProblem 200 (signed_post rejecting "https://ca/finalize/1" "csr" fresh).0 bad_csr
finalize_order-IsProblem_example =
    finalize_order-IsProblem rejecting codec fresh "https://ca/finalize/1" "csr" bad_csr rejected
