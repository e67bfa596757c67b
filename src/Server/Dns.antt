-- ===== src/Server/Dns.antt =====
-- internal/server/dns_policy.go: the names of dns-01 records and where they are delegated to.
pub mod Delegation
pub mod Target
pub mod Quorum
pub mod Propagation
use acme_gateway.Prelude.{
  ℕ, zero, suc, ◌+◌, ◌*◌, ◌/◌, String, Bool, true, false, ◌||◌, ◌&&◌, List, [], ◌∷◌, Result, ok,
  err, ◌==◌, ltb, if◌then◌else◌, ◌<>◌, has_prefix, trim_prefix, has_suffix, trim_suffix, trim_space,
  to_lower,
}
use Prim.Native.String as Text
use acme_gateway.Model.Int.{ℤ, pos, negsuc}
use acme_gateway.Config.{DnsHook, delegation_enabled_or_default, mode_or_default}

unfoldable pub normalize_fqdn : String → String
normalize_fqdn s = trim_space (to_lower (trim_suffix s "."))

unfoldable pub trim_acme_challenge_prefix : String → String
unfolding normalize_fqdn
trim_acme_challenge_prefix fqdn = trim_prefix (normalize_fqdn fqdn) "_acme-challenge."

-- strings.Contains
unfoldable pub contains : String → String → Bool
contains Text.[] t = has_prefix Text.[] t
contains (Text.◌∷◌ c s) t = has_prefix (Text.◌∷◌ c s) t || contains s t

-- An error of the resolver: whether it is a net.DNSError, and that error's fields.
pub record LookupError : Type 0 where
  pub is_dns_error : Bool
  pub is_not_found : Bool
  pub text : String

pub data Cname : Type 0 where
  found : String → Cname
  failed : LookupError → Cname

unfoldable pub is_missing : LookupError → Bool
unfolding contains
is_missing e = e.is_dns_error && (e.is_not_found || contains (to_lower e.text) "no such host")

unfoldable pub has : String → List String → Bool
has k [] = false
has k (x ∷ xs) = (x == k) || has k xs

-- One of the allowed suffixes, as written in the configuration, admits the name.
unfoldable pub admits : String → String → Bool
unfolding normalize_fqdn
admits trimmed suffix =
    let s = trim_prefix (normalize_fqdn (trim_space suffix)) "." in
    if s == "" then false else (trimmed == s) || has_suffix trimmed ("." <> s)

unfoldable pub any_admits : String → List String → Bool
unfolding admits
any_admits trimmed [] = false
any_admits trimmed (suffix ∷ rest) = admits trimmed suffix || any_admits trimmed rest

abbrev not_allowed : String → Bool → Result (Unit {0})
not_allowed fqdn true = ok tt
not_allowed fqdn false =
    err ("delegated dns-01 fqdn " <> fqdn <> " does not match any allowed_zone_suffixes")

unfoldable pub validate_delegated_target : String → List String → Result (Unit {0})
unfolding any_admits normalize_fqdn
validate_delegated_target fqdn [] = ok tt
validate_delegated_target fqdn (suffix ∷ rest) =
    not_allowed fqdn (any_admits (normalize_fqdn fqdn) (suffix ∷ rest))

-- What a lookup says of the current name: it is the end, an error, or the next name.
pub data Next : Type 0 where
  ends : Next
  stops : String → Next
  goes : String → Next

unfoldable pub next : String → Cname → Next
unfolding is_missing normalize_fqdn
next current (failed e) =
    if is_missing e then ends else stops ("lookup cname for " <> current <> ": " <> e.text)
next current (found name) =
    if (name == "") || (normalize_fqdn name == current) then ends else goes (normalize_fqdn name)

pub record DnsChallengeTarget : Type 0 where
  pub source_domain : String
  pub source_fqdn : String
  pub effective_domain : String
  pub effective_fqdn : String

-- net.DefaultResolver.LookupCNAME for one call of the function below, which asks for a name once.
module _ (resolve : String → Cname) where
  abbrev normalized : Cname → Cname
  normalized (found name) = found (normalize_fqdn name)
  normalized (failed e) = failed e

  unfoldable pub lookup_cname_once : String → Cname
  unfolding normalize_fqdn
  lookup_cname_once fqdn = normalized (resolve fqdn)

  -- The loop, with the lookups that are left, from `depth`.
  unfoldable pub follow : ℕ → ℕ → String → List String → Result (String × Bool)
  unfolding has next lookup_cname_once
  follow zero depth current seen = err "cname delegation exceeded max depth"
  follow (suc left) depth current seen =
      if has current seen
      then err ("cname delegation loop detected at " <> current)
      else elim (next current (lookup_cname_once current)) [
        | ends ↦ ok (current, ltb 0 depth)
        | stops message ↦ err message
        | goes name ↦ follow left (depth + 1) name (current ∷ seen)
      ]

  abbrev from_current : String → Result (String × Bool)
  from_current current =
      if current == "" then err "empty dns-01 source fqdn" else follow 10 0 current []

  unfoldable pub resolve_delegated_fqdn : String → Result (String × Bool)
  unfolding normalize_fqdn follow
  resolve_delegated_fqdn source_fqdn = from_current (normalize_fqdn source_fqdn)

  module _ (hook : DnsHook) where
    abbrev undelegated : String → String → DnsChallengeTarget
    undelegated domain fqdn = record {
      source_domain = domain;
      source_fqdn = fqdn;
      effective_domain = domain;
      effective_fqdn = fqdn;
    }

    -- An error of the lookup or of the suffix policy
    abbrev fall_back : String → DnsChallengeTarget → Result DnsChallengeTarget
    fall_back message target =
        if mode_or_default hook.delegation == "permissive" then ok target else err message

    abbrev delegate : String → DnsChallengeTarget → Result (Unit {0}) → Result DnsChallengeTarget
    delegate fqdn target (err message) = fall_back message target
    delegate fqdn target (ok u) = ok (record target {
      effective_fqdn = normalize_fqdn fqdn;
      effective_domain = trim_acme_challenge_prefix (normalize_fqdn fqdn);
    })

    abbrev resolved : DnsChallengeTarget → Result (String × Bool) → Result DnsChallengeTarget
    resolved target (err message) = fall_back message target
    resolved target (ok (fqdn, delegated)) =
        if delegated
        then delegate fqdn target
            (validate_delegated_target fqdn hook.delegation.allowed_zone_suffixes)
        else ok target

    -- The target that comes with an error is not used by the caller and left out.
    unfoldable pub resolve_dns_challenge_target : String → String → Result DnsChallengeTarget
    unfolding normalize_fqdn resolve_delegated_fqdn validate_delegated_target
    resolve_dns_challenge_target domain fqdn =
        let target = undelegated domain (normalize_fqdn fqdn) in
        if delegation_enabled_or_default hook.delegation
        then resolved target (resolve_delegated_fqdn target.source_fqdn)
        else ok target

-- min(p, 100), and 100 where p <= 0
abbrev pub percent : ℤ → ℕ
percent (pos zero) = 100
percent (pos (suc p)) = if ltb 100 (suc p) then 100 else suc p
percent (negsuc p) = 100

-- The quotient is rounded up exactly, as the floating-point one is for all numbers of name servers.
unfoldable pub quorum_requirement : ℤ → ℤ → ℕ
quorum_requirement (pos n) quorum_percent = (n * percent quorum_percent + 99) / 100
quorum_requirement (negsuc n) quorum_percent = 0
