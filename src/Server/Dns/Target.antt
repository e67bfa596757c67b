-- ===== src/Server/Dns/Target.antt =====
-- The record that the deploy script is told to publish lies at the source name or in an allowed
-- zone.
use acme_gateway.Prelude.{
  String, Bool, true, false, ◌≡◌, ◌≢◌, ◌⊎◌, refl, List, [], ◌∷◌, Result, ok, err, ◌==◌, eq_iff,
  arith, Bool-cases, inl, inr, ◌<>◌, trim_prefix, trim_space, Some,
}
use acme_gateway.Prelude.Text.Suffix.{EndsIn, has_suffix_iff}
use acme_gateway.Config.{DnsHook, delegation_enabled_or_default, mode_or_default}
use acme_gateway.Server.Dns.{
  Cname, DnsChallengeTarget, admits, any_admits, normalize_fqdn, validate_delegated_target,
  undelegated, fall_back, delegate, resolved, resolve_delegated_fqdn, resolve_dns_challenge_target,
  trim_acme_challenge_prefix,
}

-- A configured suffix without surroundings: no space, no dot at its ends.
unfoldable pub bare : String → String
bare suffix = trim_prefix (normalize_fqdn (trim_space suffix)) "."

-- The suffix is not blank, and the name is that zone or lies under it.
pub record LiesIn (name suffix : String) : Type 0 where
  pub nonblank : bare suffix ≢ ""
  pub inside : (name ≡ bare suffix) ⊎ EndsIn name ("." <> bare suffix)

-- No suffix is configured, or the name lies in the zone of one.
unfoldable pub IsAllowed : String → List String → Type 0
IsAllowed fqdn suffixes = (suffixes ≡ []) ⊎ Some (LiesIn (normalize_fqdn fqdn)) suffixes

admits-LiesIn : (name suffix : String) → admits name suffix ≡ true → LiesIn name suffix
unfolding admits bare
admits-LiesIn name suffix h = elim (Bool-cases (bare suffix == "")) [
  | inl e ↦ absurd (ground arith)
  | inr e ↦ record {
    nonblank = λ k. ground (arith, eq_iff (bare suffix) "");
    inside = elim (Bool-cases (name == bare suffix)) [
      | inl k ↦ inl ((eq_iff name (bare suffix)).0 k)
      | inr k ↦ inr ((has_suffix_iff name ("." <> bare suffix)).0 (ground arith))
    ];
  }
]

any_admits-LiesIn :
    (name : String) (suffixes : List String)
    → any_admits name suffixes ≡ true
    → Some (LiesIn name) suffixes
unfolding any_admits
any_admits-LiesIn name [] h = absurd (cc)
any_admits-LiesIn name (x ∷ xs) h = elim (Bool-cases (admits name x)) [
  | inl e ↦ inl (admits-LiesIn name x e)
  | inr e ↦ inr (any_admits-LiesIn name xs (ground arith))
]

validate_delegated_target-IsAllowed :
    (fqdn : String) (suffixes : List String)
    → validate_delegated_target fqdn suffixes ≡ ok tt
    → IsAllowed fqdn suffixes
unfolding validate_delegated_target IsAllowed
validate_delegated_target-IsAllowed fqdn [] h = inl refl
validate_delegated_target-IsAllowed fqdn (x ∷ xs) h =
    elim (Bool-cases (any_admits (normalize_fqdn fqdn) (x ∷ xs))) [
      | inl e ↦ inr (any_admits-LiesIn (normalize_fqdn fqdn) (x ∷ xs) e)
      | inr e ↦ absurd (ground arith)
    ]

module _ (resolve : String → Cname) (hook : DnsHook) (domain fqdn : String) where
  -- The target is at the end of the source name's aliases, and allowed.
  pub record IsDelegated (target : DnsChallengeTarget) : Type 0 where
    pub enabled : delegation_enabled_or_default hook.delegation ≡ true
    pub end : String
    pub reached : resolve_delegated_fqdn resolve (normalize_fqdn fqdn) ≡ ok (end, true)
    pub allowed : IsAllowed end hook.delegation.allowed_zone_suffixes
    pub name : target.effective_fqdn ≡ normalize_fqdn end
    pub zone : target.effective_domain ≡ trim_acme_challenge_prefix (normalize_fqdn end)

  unfoldable pub IsSafe : DnsChallengeTarget → Type 0
  IsSafe target =
      ((target.effective_fqdn ≡ normalize_fqdn fqdn) × (target.effective_domain ≡ domain))
      ⊎ IsDelegated target

  abbrev source : DnsChallengeTarget
  source = undelegated resolve hook domain (normalize_fqdn fqdn)

  fall_back-IsSafe :
      (message : String) (target : DnsChallengeTarget)
      → fall_back resolve hook message source ≡ ok target
      → IsSafe target
  unfolding IsSafe
  fall_back-IsSafe m target h =
      elim (Bool-cases (mode_or_default hook.delegation == "permissive")) [
        | inl e ↦ let same : target ≡ source = ground arith in rw same (inl (refl, refl))
        | inr e ↦ absurd (ground arith)
      ]

  delegate-IsSafe :
      (end : String) (target : DnsChallengeTarget) (v : Result Unit)
      → delegation_enabled_or_default hook.delegation ≡ true
      → resolve_delegated_fqdn resolve (normalize_fqdn fqdn) ≡ ok (end, true)
      → validate_delegated_target end hook.delegation.allowed_zone_suffixes ≡ v
      → delegate resolve hook end source v ≡ ok target
      → IsSafe target
  delegate-IsSafe end target (err m) on r v h = fall_back-IsSafe m target h
  delegate-IsSafe end target (ok u) on r v h =
      unfold IsSafe in
      inr (record {
        enabled = on;
        end = end;
        reached = r;
        allowed = validate_delegated_target-IsAllowed end hook.delegation.allowed_zone_suffixes v;
        name = cc;
        zone = cc;
      })

  resolved-IsSafe :
      (target : DnsChallengeTarget) (r : Result (String × Bool))
      → delegation_enabled_or_default hook.delegation ≡ true
      → resolve_delegated_fqdn resolve (normalize_fqdn fqdn) ≡ r
      → resolved resolve hook source r ≡ ok target
      → IsSafe target
  resolved-IsSafe target (err m) on r h = fall_back-IsSafe m target h
  resolved-IsSafe target (ok (end, true)) on r h =
      delegate-IsSafe end target
        (validate_delegated_target end hook.delegation.allowed_zone_suffixes) on r refl h
  resolved-IsSafe target (ok (end, false)) on r h =
      let same : target ≡ source = cc in rw same (unfold IsSafe in inl (refl, refl))

  -- A dns-01 record is published at the normalised source name, for the identifier's own domain, or
  -- delegation is enabled and it is published at the end of the source name's aliases, which lies in
  -- a zone that the configured suffixes allow, where any are configured.
  pub resolve_dns_challenge_target-IsSafe :
      (target : DnsChallengeTarget)
      → resolve_dns_challenge_target resolve hook domain fqdn ≡ ok target
      → IsSafe target
  unfolding resolve_dns_challenge_target
  resolve_dns_challenge_target-IsSafe target h =
      elim (Bool-cases (delegation_enabled_or_default hook.delegation)) [
        | inl e ↦
            resolved-IsSafe target (resolve_delegated_fqdn resolve (normalize_fqdn fqdn)) e refl
              (rw e at h)
        | inr e ↦
            let same : target ≡ source = ground arith in rw same (unfold IsSafe in inl (refl, refl))
      ]

  permissive-fall_back :
      (message : String) (target : DnsChallengeTarget)
      → mode_or_default hook.delegation ≡ "permissive"
      → fall_back resolve hook message target ≡ ok target
  permissive-fall_back m target h =
      ground (arith, eq_iff (mode_or_default hook.delegation) "permissive")

  permissive-resolved :
      (r : Result (String × Bool))
      → mode_or_default hook.delegation ≡ "permissive"
      → (target : DnsChallengeTarget) × (resolved resolve hook source r ≡ ok target)
  permissive-resolved (err m) h = (source, permissive-fall_back m source h)
  permissive-resolved (ok (end, false)) h = (source, refl)
  permissive-resolved (ok (end, true)) h =
      go (validate_delegated_target end hook.delegation.allowed_zone_suffixes)
    where
      go :
          (v : Result Unit)
          → (target : DnsChallengeTarget) × (delegate resolve hook end source v ≡ ok target)
      go (ok u) = (_, refl)
      go (err m) = (source, permissive-fall_back m source h)

  -- In permissive mode there is always a target, whatever the resolver answers and whatever the
  -- suffixes refuse.
  pub resolve_dns_challenge_target-permissive :
      mode_or_default hook.delegation ≡ "permissive"
      → (target : DnsChallengeTarget) × (resolve_dns_challenge_target resolve hook domain fqdn
          ≡ ok target)
  unfolding resolve_dns_challenge_target
  resolve_dns_challenge_target-permissive h =
      elim (Bool-cases (delegation_enabled_or_default hook.delegation)) [
        | inl e ↦
            rw e (permissive-resolved (resolve_delegated_fqdn resolve (normalize_fqdn fqdn)) h)
        | inr e ↦ rw e (source, refl)
      ]
