-- ===== src/Router.antt =====
-- internal/router/router.go: the choice of an upstream for an order.
pub mod Laws
use acme_gateway.Prelude.{
  String, Bool, true, false, not, ◌&&◌, ◌||◌, List, [], ◌∷◌, ◌==◌, any, if◌then◌else◌, equal_fold,
  has_suffix,
}
use acme_gateway.Model.{Identifier, upstream_profile_passthrough}
use acme_gateway.Config.{MatchConfig, RoutingRule, RoutingConfig}

pub record Decision : Type 0 where
  pub upstream_id : String
  pub upstream_profile : String
  pub require_csr_key_type : String

pub record Request : Type 0 where
  pub profile : String
  pub key_type : String
  pub identifiers : List Identifier

unfoldable pub any_identifier_has_suffix : List Identifier → String → Bool
any_identifier_has_suffix ids suffix = any (λ id. has_suffix id.value suffix) ids

unfoldable pub matches : MatchConfig → Request → Bool
unfolding any_identifier_has_suffix
matches mc req =
    if not (mc.profile == "") && not (mc.profile == req.profile)
    then false
    else if not (mc.key_type == "") && not (equal_fold mc.key_type req.key_type)
    then false
    else if not (mc.domain_suffix == "")
        && not (any_identifier_has_suffix req.identifiers mc.domain_suffix)
    then false
    else true

abbrev pub decision_of : RoutingRule → Decision
decision_of rule = record {
  upstream_id = rule.upstream;
  upstream_profile = rule.upstream_profile;
  require_csr_key_type = rule.require_csr_key_type;
}

unfoldable pub route_from : String → List RoutingRule → Request → Decision
route_from default [] req = record {
  upstream_id = default;
  upstream_profile = "";
  require_csr_key_type = "";
}
route_from default (rule ∷ rest) req =
    if matches rule.match req then decision_of rule else route_from default rest req

unfoldable pub route : RoutingConfig → Request → Decision
unfolding route_from
route cfg req = route_from cfg.default_upstream cfg.rules req

unfoldable pub resolve_upstream_profile : Decision → String → String
resolve_upstream_profile d inbound =
    if d.upstream_profile == ""
    then ""
    else if d.upstream_profile == upstream_profile_passthrough
    then inbound
    else d.upstream_profile
