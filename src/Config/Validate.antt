-- ===== src/Config/Validate.antt =====
-- internal/config/config.go, validate and validateDNSHookPolicy. A result is the configuration as
-- validation leaves it: the listen address filled in, the required key types in upper case.
pub mod Laws
use acme_gateway.Prelude.{
  ℕ, String, Bool, true, false, not, ◌&&◌, ◌||◌, List, [], ◌∷◌, Option, none, some, Result, ok, err,
  ◌>>=◌, ◌>>◌, ◌==◌, leb, ltb, is_some, if◌then◌else◌, ◌<>◌, trim_space, has_suffix, has_prefix,
  to_upper,
}
use acme_gateway.Model.{key_type_rsa, key_type_ecdsa}
use acme_gateway.Model.Int.{ℤ, pos, negsuc, is_negative}
use acme_gateway.Config.{
  ServerConfig, DnsHook, BootstrapConfig, UpstreamConfig, RoutingRule, RoutingConfig, Config,
  lookup, tls_enabled, mode_or_default,
}

-- if b { return fmt.Errorf(e) }
abbrev pub reject : Bool → String → Result (Unit {0})
reject true e = err e
reject false e = ok tt

-- z > n
abbrev exceeds : ℤ → ℕ → Bool
exceeds (pos m) n = ltb n m
exceeds (negsuc m) n = false

validate_suffixes : String → List String → Result (Unit {0})
validate_suffixes path [] = ok tt
validate_suffixes path (suffix ∷ rest) = do
  reject (trim_space suffix == "") (path <> ".delegation.allowed_zone_suffixes must not be empty")
  validate_suffixes path rest

unfoldable pub validate_dns_hook_policy : String → DnsHook → Result (Unit {0})
unfolding validate_suffixes
validate_dns_hook_policy path hook = do
  reject (is_negative hook.propagation.timeout_seconds)
      (path <> ".propagation.timeout_seconds must be >= 0")
  reject (is_negative hook.propagation.poll_seconds)
      (path <> ".propagation.poll_seconds must be >= 0")
  reject (is_negative hook.propagation.min_consecutive_successes)
      (path <> ".propagation.min_consecutive_successes must be >= 0")
  reject
      (is_negative hook.propagation.quorum_percent || exceeds hook.propagation.quorum_percent 100)
      (path <> ".propagation.quorum_percent must be between 0 and 100")
  let mode = mode_or_default hook.delegation
  reject (not (mode == "strict") && not (mode == "permissive"))
      (path <> ".delegation.mode must be strict or permissive")
  validate_suffixes path hook.delegation.allowed_zone_suffixes

unfoldable pub validate_upstreams : List (String × UpstreamConfig) → Result (Unit {0})
validate_upstreams [] = ok tt
validate_upstreams ((name, up) ∷ rest) = do
  reject (up.directory_url == "") ("upstreams." <> name <> ": directory_url is required")
  reject (exceeds up.account_count 1 && is_some up.eab)
      ("upstreams." <> name <> ": account_count > 1 requires no EAB")
  validate_dns_hook_policy ("upstreams." <> name <> ".dns_hook") up.dns_hook
  validate_upstreams rest

abbrev is_key_type : String → Bool
is_key_type kt = kt == "" || kt == key_type_rsa || kt == key_type_ecdsa

module _ (cfg : Config) where
  unfoldable pub validate_rule : RoutingRule → Result RoutingRule
  validate_rule rule = do
    reject (rule.upstream == "") "routing.rules: upstream is required"
    reject (not (is_some (lookup rule.upstream cfg.upstreams)))
        ("routing.rules: upstream " <> rule.upstream <> " not found in upstreams")
    reject
        (not (rule.match.profile == "") && not (is_some (lookup rule.match.profile cfg.profiles)))
        ("routing.rules: profile " <> rule.match.profile <> " not defined in profiles map")
    reject (not (is_key_type (to_upper rule.match.key_type)))
        ("routing.rules: key_type must be RSA or ECDSA, got " <> rule.match.key_type)
    reject (not (is_key_type (to_upper rule.require_csr_key_type))) (
        "routing.rules: require_csr_key_type must be RSA or ECDSA, got "
        <> rule.require_csr_key_type)
    ok (record rule { require_csr_key_type = to_upper rule.require_csr_key_type })

  unfoldable pub validate_rules : List RoutingRule → Result (List RoutingRule)
  validate_rules [] = ok []
  validate_rules (rule ∷ rest) = do
    rule' ← validate_rule rule
    rest' ← validate_rules rest
    ok (rule' ∷ rest')

abbrev cert_paths_missing : BootstrapConfig → Bool
cert_paths_missing b = b.cert_path == "" || b.key_path == ""

unfoldable pub validate_tls : Config → Result (Unit {0})
validate_tls cfg =
    if not (tls_enabled cfg.server)
    then reject cfg.bootstrap.enabled "bootstrap.enabled cannot be true when server.tls is false"
    else if cfg.bootstrap.enabled
    then (do
      reject (cfg.bootstrap.upstream == "")
          "bootstrap.upstream is required when bootstrap is enabled"
      reject (not (is_some (lookup cfg.bootstrap.upstream cfg.upstreams)))
          ("bootstrap.upstream " <> cfg.bootstrap.upstream <> " not found in upstreams")
      reject (cfg.bootstrap.domain == "") "bootstrap.domain is required when bootstrap is enabled"
      reject (cert_paths_missing cfg.bootstrap)
          "bootstrap.cert_path and bootstrap.key_path are required when bootstrap is enabled"
      validate_dns_hook_policy "bootstrap.dns_hook" cfg.bootstrap.dns_hook)
    else reject (cert_paths_missing cfg.bootstrap)
        "bootstrap.cert_path and bootstrap.key_path are required when bootstrap.enabled is false"

abbrev pub default_listen : ServerConfig → String
default_listen s = if s.listen == "" then (if tls_enabled s then ":443" else ":80") else s.listen

unfoldable pub validate : Config → Result Config
validate cfg = do
  reject (cfg.server.base_url == "") "server.base_url is required"
  reject (has_suffix cfg.server.base_url "/") "server.base_url must not have a trailing slash"
  reject (cfg.db_path == "") "state.db_path is required"
  reject (elim cfg.upstreams [ [] ↦ true | _ ↦ false ]) "at least one upstream must be configured"
  validate_upstreams cfg.upstreams
  rules ← validate_rules cfg cfg.routing.rules
  let routing = record cfg.routing { rules = rules }
  reject
      (not (routing.default_upstream == "")
        && not (is_some (lookup routing.default_upstream cfg.upstreams)))
      ("routing.default_upstream " <> routing.default_upstream <> " not found in upstreams")
  reject (not (has_prefix cfg.server.base_url "https://"))
      "server.base_url must begin with https://"
  validate_tls cfg
  ok (record cfg {
    server = record cfg.server { listen = default_listen cfg.server };
    routing = routing;
  })
