-- ===== src/Tests/Routing.antt =====
-- internal/config and internal/router at a concrete configuration.
use acme_gateway.Prelude.{
  false, ◌≡◌, ◌≢◌, refl, [], ◌∷◌, none, some, ok, has_prefix, has_suffix, trim_space, to_upper,
  to_lower,
}
use acme_gateway.Model.Int.{pos}
use acme_gateway.Config.{Config, DnsHook, UpstreamConfig, RoutingRule, tls_enabled, mode_or_default}
use acme_gateway.Config.Validate.{
  validate, validate_upstreams, validate_dns_hook_policy, validate_rules, validate_rule,
  validate_tls,
}
use acme_gateway.Config.Validate.Laws.{HasKnownRoutes, HasKnownUpstream, validate_sound}
use acme_gateway.Router.{Request, route, route_from, matches, any_identifier_has_suffix}
use acme_gateway.Router.Laws.{IsRouted, route-IsRouted, route-validate_known}

abbrev pub no_hook : DnsHook
no_hook = record {
  deploy_script = "";
  cleanup_script = "";
  propagation = record {
    enabled = none;
    timeout_seconds = pos 0;
    poll_seconds = pos 0;
    min_consecutive_successes = pos 2;
    quorum_percent = pos 0;
    settle_seconds = pos 0;
  };
  delegation = record { enabled = none; mode = ""; allowed_zone_suffixes = [] };
}

abbrev pub le : UpstreamConfig
le = record {
  directory_url = "https://ca/directory";
  contact_email = "ops@example.com";
  eab = none;
  dns_hook = no_hook;
  account_count = pos 2;
  ca_cert_path = "";
}

abbrev internal_rule : RoutingRule
internal_rule = record {
  match = record { profile = ""; key_type = ""; domain_suffix = ".internal" };
  upstream = "le";
  upstream_profile = "";
  require_csr_key_type = "rsa";
}

abbrev raw : Config
raw = record {
  server = record { listen = ""; base_url = "https://gw"; tls = some false };
  db_path = "state.db";
  bootstrap = record {
    enabled = false;
    upstream = "";
    domain = "";
    contact_email = "";
    challenge = "";
    cert_path = "";
    key_path = "";
    renew_before_days = pos 0;
    dns_hook = no_hook;
  };
  upstreams = ("le", le) ∷ [];
  profiles = [];
  routing = record { rules = internal_rule ∷ []; default_upstream = "" };
}

abbrev pub validated : Config
validated = record raw {
  server = record raw.server { listen = ":80" };
  routing = record raw.routing {
    rules = record internal_rule { require_csr_key_type = "RSA" } ∷ [];
  };
}

abbrev asked : Request
asked = record {
  profile = "web";
  key_type = "ECDSA";
  identifiers = record { type = "dns"; value = "a.internal" } ∷ [];
}

is_validated : validate raw ≡ ok validated
unfolding validate has_suffix validate_upstreams validate_dns_hook_policy mode_or_default to_lower
    trim_space validate_rules validate_rule to_upper has_prefix validate_tls tls_enabled
is_validated = refl

validate_sound_example : HasKnownRoutes validated
validate_sound_example = validate_sound raw validated is_validated

route-IsRouted_example : IsRouted validated.routing asked (route validated.routing asked)
route-IsRouted_example = route-IsRouted validated.routing asked

routed : (route validated.routing asked).upstream_id ≢ ""
unfolding route route_from matches any_identifier_has_suffix has_suffix
routed = cc

route-validate_known_example :
    HasKnownUpstream validated (route validated.routing asked).upstream_id
route-validate_known_example = route-validate_known raw validated asked is_validated routed
