-- ===== src/Router/Laws.antt =====
-- The first rule that matches decides, and a validated configuration routes to known upstreams.
use acme_gateway.Prelude.{
  Some, String, true, false, ◌≡◌, ◌≢◌, ◌⊎◌, ◌↔◌, inl, inr, List, [], ◌∷◌, ◌++◌, ok, refl, ap, ◌∙◌,
  eq_iff, arith, All, equal_fold, has_suffix, Bool-cases,
}
use acme_gateway.Prelude.Text.Suffix.{EndsIn, has_suffix_iff}
use acme_gateway.Model.{Identifier}
use acme_gateway.Config.{Config, MatchConfig, RoutingRule, RoutingConfig}
use acme_gateway.Config.Validate.{validate}
use acme_gateway.Config.Validate.Laws.{
  HasKnownUpstream, HasKnownRoutes, IsSoundRule, validate_sound,
}
use acme_gateway.Prelude.Tables.{All-middle}
use acme_gateway.Router.{
  Decision, Request, any_identifier_has_suffix, matches, decision_of, route_from, route,
}

-- Every condition that the rule states is met: the profile is equal, the key type is equal up to
-- case, and some identifier ends in the suffix.
abbrev pub Meets : MatchConfig → Request → Type 0
Meets mc req =
    ((mc.profile ≡ "") ⊎ (mc.profile ≡ req.profile))
    × ((mc.key_type ≡ "") ⊎ (equal_fold mc.key_type req.key_type ≡ true))
    × ((mc.domain_suffix ≡ "")
        ⊎ Some (λ (id : Identifier). EndsIn id.value mc.domain_suffix) req.identifiers)

Some-suffix :
    (ids : List Identifier) (suffix : String)
    → (any_identifier_has_suffix ids suffix ≡ true)
      ↔ Some (λ (id : Identifier). EndsIn id.value suffix) ids
unfolding any_identifier_has_suffix
Some-suffix [] suffix = (λ h. cc, λ h. absurd h)
Some-suffix (id ∷ ids) suffix = elim (Bool-cases (has_suffix id.value suffix)) [
  | inl e ↦ (λ _. inl ((has_suffix_iff id.value suffix).0 e), λ _. rw e)
  | inr e ↦ (
    λ h. inr ((Some-suffix ids suffix).0 (rw e at h)),
    λ s. elim s [
      | inl ends ↦ rw ((has_suffix_iff id.value suffix).1 ends)
      | inr later ↦ rw e ((Some-suffix ids suffix).1 later)
    ],
  )
]

matches_iff : (mc : MatchConfig) (req : Request) → (matches mc req ≡ true) ↔ Meets mc req
unfolding matches
matches_iff mc req = ground (
  arith,
  eq_iff mc.profile "",
  eq_iff mc.profile req.profile,
  eq_iff mc.key_type "",
  eq_iff mc.domain_suffix "",
  Some-suffix req.identifiers mc.domain_suffix,
)

-- The decision of the first rule whose conditions are met, or the default upstream with no profile
-- and no key type where none is.
pub data IsRouted (cfg : RoutingConfig) (req : Request) (d : Decision) : Type 0 where
  by_rule :
      (before : List RoutingRule) (rule : RoutingRule) (after : List RoutingRule)
      → cfg.rules ≡ before ++ rule ∷ after
      → All (λ r. ¬ Meets r.match req) before
      → Meets rule.match req
      → d ≡ decision_of rule
      → IsRouted cfg req d
  by_default :
      All (λ r. ¬ Meets r.match req) cfg.rules
      → d.upstream_id ≡ cfg.default_upstream
      → d.upstream_profile ≡ ""
      → d.require_csr_key_type ≡ ""
      → IsRouted cfg req d

not_met : (mc : MatchConfig) (req : Request) → matches mc req ≡ false → ¬ Meets mc req
not_met mc req h m = cc ((matches_iff mc req).1 m)

IsRouted-cons :
    (default : String) (rule : RoutingRule) (rest : List RoutingRule) (req : Request) {d : Decision}
    → ¬ Meets rule.match req
    → IsRouted (record { rules = rest; default_upstream = default }) req d
    → IsRouted (record { rules = rule ∷ rest; default_upstream = default }) req d
IsRouted-cons default rule rest req h (by_rule before r after p none_met met q) =
    by_rule (rule ∷ before) r after (ap (λ l. rule ∷ l) p) (h, none_met) met q
IsRouted-cons default rule rest req h (by_default none_met p q r) = by_default (h, none_met) p q r

route_from-IsRouted :
    (default : String) (rules : List RoutingRule) (req : Request)
    → IsRouted
        (record { rules = rules; default_upstream = default })
        req
        (route_from default rules req)
unfolding route_from
route_from-IsRouted default [] req = by_default tt refl refl refl
route_from-IsRouted default (rule ∷ rest) req = elim (Bool-cases (matches rule.match req)) [
  | inl e ↦ by_rule [] rule rest refl tt ((matches_iff rule.match req).0 e) (rw e)
  | inr e ↦ rw e (
      IsRouted-cons default rule rest req (not_met rule.match req e)
        (route_from-IsRouted default rest req))
]

-- Routing takes the first rule whose conditions are all met, and the default upstream (with no
-- profile and no required key type) exactly where no rule's are.
pub route-IsRouted : (cfg : RoutingConfig) (req : Request) → IsRouted cfg req (route cfg req)
unfolding route
route-IsRouted cfg req = route_from-IsRouted cfg.default_upstream cfg.rules req

routed_known :
    (cfg : Config) (req : Request) (d : Decision)
    → HasKnownRoutes cfg
    → IsRouted cfg.routing req d
    → d.upstream_id ≢ ""
    → HasKnownUpstream cfg d.upstream_id
routed_known cfg req d v (by_rule before rule after p none_met met q) h =
    rw q (All-middle (IsSoundRule cfg) before rule after (rw p at v.rules)).0.0
routed_known cfg req d v (by_default none_met p q r) h = elim v.default [
  | inl e ↦ absurd (h (p ∙ e))
  | inr known ↦ rw p known
]

-- Under a configuration that passed validation, an order is routed to an upstream that is
-- configured, unless it is routed nowhere, to the empty id.
pub route-validate_known :
    (raw cfg : Config) (req : Request)
    → validate raw ≡ ok cfg
    → (route cfg.routing req).upstream_id ≢ ""
    → HasKnownUpstream cfg (route cfg.routing req).upstream_id
route-validate_known raw cfg req h nonempty =
    routed_known cfg req (route cfg.routing req) (validate_sound raw cfg h)
      (route-IsRouted cfg.routing req) nonempty
