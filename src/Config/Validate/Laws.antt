-- ===== src/Config/Validate/Laws.antt =====
-- What a configuration that passed validation guarantees.
use mathlib.Core.Path.{subst}
use acme_gateway.Prelude.{
  Bool-cases, String, true, false, ◌||◌, ◌≡◌, ◌≢◌, ◌⊎◌, List, [], ◌∷◌, ok, >>=-eq-ok, Result-cases,
  inl, inr, sym, ◌==◌, eq_iff, arith, All, is_some, has_prefix, has_suffix, to_upper,
}
use acme_gateway.Model.{key_type_rsa, key_type_ecdsa}
use acme_gateway.Config.{Config, RoutingRule, lookup}
use acme_gateway.Config.Validate.{validate_rule, validate_rules, validate, default_listen}

abbrev pub HasKnownUpstream : Config → String → Type 0
HasKnownUpstream cfg id = is_some (lookup id cfg.upstreams) ≡ true

abbrev pub IsKeyType : String → Type 0
IsKeyType kt = (kt ≡ "") ⊎ (kt ≡ key_type_rsa) ⊎ (kt ≡ key_type_ecdsa)

abbrev pub IsSoundRule : Config → RoutingRule → Type 0
IsSoundRule cfg r = HasKnownUpstream cfg r.upstream × IsKeyType r.require_csr_key_type

pub record HasKnownRoutes (cfg : Config) : Type 0 where
  pub rules : All (IsSoundRule cfg) cfg.routing.rules
  pub default :
      (cfg.routing.default_upstream ≡ "") ⊎ HasKnownUpstream cfg cfg.routing.default_upstream
  pub base_url :
      (has_prefix cfg.server.base_url "https://" ≡ true)
      × (has_suffix cfg.server.base_url "/" ≡ false)

IsKeyType-of_test :
    (kt : String) → (kt == "" || kt == key_type_rsa || kt == key_type_ecdsa) ≡ true → IsKeyType kt
IsKeyType-of_test kt h =
    ground (arith, eq_iff kt "", eq_iff kt key_type_rsa, eq_iff kt key_type_ecdsa)

rule_sound :
    (cfg : Config) (rule rule' : RoutingRule)
    → validate_rule cfg rule ≡ ok rule'
    → HasKnownUpstream cfg rule'.upstream × IsKeyType rule'.require_csr_key_type
unfolding validate_rule
rule_sound cfg rule rule' h =
    (ground arith, ground (arith, IsKeyType-of_test (to_upper rule.require_csr_key_type)))

rules_sound :
    (cfg : Config) (rules rules' : List RoutingRule)
    → validate_rules cfg rules ≡ ok rules'
    → All (IsSoundRule cfg) rules'
unfolding validate_rules
rules_sound cfg [] rules' h =
    let e : [] ≡ rules' = ground arith in subst (All (IsSoundRule cfg)) e tt
rules_sound cfg (rule ∷ rest) rules' h =
    let (rule', p, h') = >>=-eq-ok (validate_rule cfg rule) _ h in
    let (rest', q, e) = >>=-eq-ok (validate_rules cfg rest) _ h' in
    let e' : rule' ∷ rest' ≡ rules' = ground arith in
    subst (All (IsSoundRule cfg)) e' (rule_sound cfg rule rule' p, rules_sound cfg rest rest' q)

-- What validation makes of a configuration whose rules it has checked.
abbrev accepted : Config → List RoutingRule → Config
accepted raw rules = record raw {
  server = record raw.server { listen = default_listen raw.server };
  routing = record raw.routing { rules = rules };
}

validate_inv :
    (raw cfg : Config)
    → validate raw ≡ ok cfg
    → (rules : List RoutingRule) × (validate_rules raw raw.routing.rules ≡ ok rules)
      × (cfg ≡ accepted raw rules)
unfolding validate
validate_inv raw cfg h = elim (Result-cases (validate_rules raw raw.routing.rules)) [
  | inl (rules, e) ↦ (rules, e, ground arith)
  | inr (m, e) ↦ absurd (ground arith)
]

base_url_sound :
    (raw cfg : Config)
    → validate raw ≡ ok cfg
    → (has_prefix raw.server.base_url "https://" ≡ true)
      × (has_suffix raw.server.base_url "/" ≡ false)
unfolding validate
base_url_sound raw cfg h = (ground arith, ground arith)

default_sound :
    (raw cfg : Config)
    → validate raw ≡ ok cfg
    → raw.routing.default_upstream ≢ ""
    → HasKnownUpstream raw raw.routing.default_upstream
unfolding validate
default_sound raw cfg h nonempty = ground (arith, eq_iff raw.routing.default_upstream "")

-- A validated configuration has only rules for configured upstreams with a required key type that is
-- empty, RSA or ECDSA, a default upstream that is configured if there is one, and a base URL that
-- begins with https:// and does not end in a slash.
pub validate_sound : (raw cfg : Config) → validate raw ≡ ok cfg → HasKnownRoutes cfg
validate_sound raw cfg h =
    let (rules, p, e) = validate_inv raw cfg h in
    subst HasKnownRoutes (sym e) (record {
      rules = rules_sound raw raw.routing.rules rules p;
      default = elim (Bool-cases (raw.routing.default_upstream == "")) [
        | inl e ↦ inl ((eq_iff raw.routing.default_upstream "").0 e)
        | inr e ↦
            inr (
              default_sound raw cfg h (λ p. ground (arith, eq_iff raw.routing.default_upstream "")))
      ];
      base_url = base_url_sound raw cfg h;
    })
