-- ===== src/Config.antt =====
-- internal/config/config.go: the configuration and its validation. A Go map is a list of pairs with
-- distinct keys; its iteration order is the list's.
pub mod Validate
use acme_gateway.Prelude.{
  ℕ, zero, suc, ◌*◌, String, Bool, true, false, List, [], ◌∷◌, Option, none, some, ◌==◌,
  if◌then◌else◌, trim_space, to_lower,
}
use acme_gateway.Model.Int.{ℤ, pos, negsuc}
use acme_gateway.Store.Db.{second}

pub record ServerConfig : Type 0 where
  pub listen : String
  pub base_url : String
  pub tls : Option Bool

pub record DnsPropagationPolicy : Type 0 where
  pub enabled : Option Bool
  pub timeout_seconds : ℤ
  pub poll_seconds : ℤ
  pub min_consecutive_successes : ℤ
  pub quorum_percent : ℤ
  pub settle_seconds : ℤ

pub record DnsDelegationPolicy : Type 0 where
  pub enabled : Option Bool
  pub mode : String
  pub allowed_zone_suffixes : List String

pub record DnsHook : Type 0 where
  pub deploy_script : String
  pub cleanup_script : String
  pub propagation : DnsPropagationPolicy
  pub delegation : DnsDelegationPolicy

pub record BootstrapConfig : Type 0 where
  pub enabled : Bool
  pub upstream : String
  pub domain : String
  pub contact_email : String
  pub challenge : String
  pub cert_path : String
  pub key_path : String
  pub renew_before_days : ℤ
  pub dns_hook : DnsHook

pub record EabConfig : Type 0 where
  pub key_id : String
  pub hmac_key : String

pub record UpstreamConfig : Type 0 where
  pub directory_url : String
  pub contact_email : String
  pub eab : Option EabConfig
  pub dns_hook : DnsHook
  pub account_count : ℤ
  pub ca_cert_path : String

pub record MatchConfig : Type 0 where
  pub profile : String
  pub key_type : String
  pub domain_suffix : String

pub record RoutingRule : Type 0 where
  pub match : MatchConfig
  pub upstream : String
  pub upstream_profile : String
  pub require_csr_key_type : String

pub record RoutingConfig : Type 0 where
  pub rules : List RoutingRule
  pub default_upstream : String

pub record Config : Type 0 where
  pub server : ServerConfig
  pub db_path : String
  pub bootstrap : BootstrapConfig
  pub upstreams : List (String × UpstreamConfig)
  pub profiles : List (String × String)
  pub routing : RoutingConfig

-- m[k] of a Go map
abbrev pub lookup {ℓ} : {V : Type ℓ} → String → List (String × V) → Option V
lookup k [] = none
lookup k ((j, v) ∷ m) = if j == k then some v else lookup k m

unfoldable pub tls_enabled : ServerConfig → Bool
tls_enabled s = elim s.tls [ none ↦ true | some b ↦ b ]

abbrev or_default : Bool → Option Bool → Bool
or_default d none = d
or_default d (some b) = b

-- `v`, or `d` where v <= 0
abbrev positive_or : ℕ → ℤ → ℕ
positive_or d (pos zero) = d
positive_or d (pos (suc n)) = suc n
positive_or d (negsuc n) = d

unfoldable pub propagation_enabled_or_default : DnsPropagationPolicy → Bool
propagation_enabled_or_default p = or_default true p.enabled

-- Durations are in nanoseconds.
unfoldable pub timeout_or_default : DnsPropagationPolicy → ℕ
timeout_or_default p = positive_or 300 p.timeout_seconds * second

unfoldable pub poll_or_default : DnsPropagationPolicy → ℕ
poll_or_default p = positive_or 2 p.poll_seconds * second

unfoldable pub min_consecutive_or_default : DnsPropagationPolicy → ℕ
min_consecutive_or_default p = positive_or 3 p.min_consecutive_successes

unfoldable pub quorum_percent_or_default : DnsPropagationPolicy → ℕ
quorum_percent_or_default p = positive_or 100 p.quorum_percent

unfoldable pub settle_delay_or_default : DnsPropagationPolicy → ℕ
settle_delay_or_default p = positive_or 0 p.settle_seconds * second

unfoldable pub delegation_enabled_or_default : DnsDelegationPolicy → Bool
delegation_enabled_or_default d = or_default false d.enabled

unfoldable pub mode_or_default : DnsDelegationPolicy → String
mode_or_default d = let mode = to_lower (trim_space d.mode) in if mode == "" then "strict" else mode
