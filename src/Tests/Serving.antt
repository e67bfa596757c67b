-- ===== src/Tests/Serving.antt =====
-- internal/server at concrete challenges, names and answers.
use acme_gateway.Prelude.{
  ℕ, zero, suc, ◌+◌, ◌*◌, ◌≤◌, ◌<◌, String, true, false, ◌≡◌, ◌≢◌, ◌↔◌, refl, List, [], ◌∷◌, none,
  some, ok, err, arith, eq_iff, ◌==◌, if◌then◌else◌, trim_suffix, to_lower, trim_space, has_prefix,
  has_suffix, trim_prefix,
}
use acme_gateway.Model.Int.{pos}
use acme_gateway.Store.Db.{second}
use acme_gateway.Config.{
  DnsHook, timeout_or_default, min_consecutive_or_default, propagation_enabled_or_default,
  delegation_enabled_or_default, mode_or_default, quorum_percent_or_default,
  settle_delay_or_default,
}
use acme_gateway.Upstream.Types as Upstream
use acme_gateway.Server.Errors.{relay_upstream_error, is_definitive_rejection}
use acme_gateway.Upstream.Types.{problem}
use acme_gateway.Server.Errors.Laws.{
  relay_upstream_error-is_error, is_definitive_rejection-relay_upstream_error,
}
use acme_gateway.Server.Challenges.{
  ChallengeProc, begin_challenge_proc, evict_stale_challenge_proc, challenge_proc_retention,
}
use acme_gateway.Server.Challenges.Laws.{
  Event, run_events, AreWithin, IsWithin, begin_challenge_proc-once,
}
use acme_gateway.Server.Challenges.Retention.{IsRecent, begin_challenge_proc-IsRecent}
use acme_gateway.Prelude.{All}
use acme_gateway.Server.Dns.{
  Cname, found, normalize_fqdn, percent, quorum_requirement, lookup_cname_once, next, has, follow,
  resolve_delegated_fqdn, resolve_dns_challenge_target, DnsChallengeTarget,
  validate_delegated_target, any_admits, admits, trim_acme_challenge_prefix,
}
use acme_gateway.Server.Dns.Delegation.{IsEnd, resolve_delegated_fqdn-IsEnd}
use acme_gateway.Server.Dns.Target.{
  IsSafe, resolve_dns_challenge_target-IsSafe, resolve_dns_challenge_target-permissive,
}
use acme_gateway.Server.Dns.Quorum.{quorum_requirement-least}
use acme_gateway.Server.Dns.Propagation.{
  Zone, Txt, values, query_txt, sweep, required, await, settle_after_quorum,
  wait_for_dns_propagation, resolve_nameserver_endpoints,
}
use acme_gateway.Server.Dns.Propagation.Laws.{AreDistinct, IsAgreed}
use acme_gateway.Server.Dns.Propagation.Await.{
  wait_for_dns_propagation-IsAgreed, wait_for_dns_propagation-total,
}
use acme_gateway.Tests.Routing.{no_hook}

abbrev pub bad_csr : Upstream.AcmeError
bad_csr = record {
  type = "urn:ietf:params:acme:error:badCSR";
  detail = "weak key";
  status = 403;
  subproblems = "";
}

relay_upstream_error-is_error_example :
    (400 ≤ (relay_upstream_error "finalizing" (problem bad_csr)).status)
    × ((relay_upstream_error "finalizing" (problem bad_csr)).status ≤ 599)
    × ((relay_upstream_error "finalizing" (problem bad_csr)).type ≢ "")
relay_upstream_error-is_error_example = relay_upstream_error-is_error "finalizing" (problem bad_csr)

is_definitive_rejection-relay_upstream_error_example :
    (is_definitive_rejection (relay_upstream_error "finalizing" (problem bad_csr)).status ≡ true)
    ↔ ((400 ≤ bad_csr.status)
        × (bad_csr.status < 500)
        × (bad_csr.status ≢ 408)
        × (bad_csr.status ≢ 429))
is_definitive_rejection-relay_upstream_error_example =
    is_definitive_rejection-relay_upstream_error "finalizing" bad_csr

abbrev pub idle : ChallengeProc
idle = record { entries = []; records = [] }

abbrev events : List Event
events =
    Event.failure 0 "dns" "deploy script"
    ∷ Event.begin "chal-2" (60 * second)
    ∷ Event.done "chal-2"
    ∷ []

within : AreWithin "chal-1" (0 + challenge_proc_retention) events
unfolding AreWithin IsWithin
within = (tt, (omega arith, (λ e. ground (arith, (eq_iff "chal-2" "chal-1").1 e), tt)))

begin_challenge_proc-once_example :
    (begin_challenge_proc "chal-1"
      (3600 * second)
      (run_events events (begin_challenge_proc "chal-1" 0 idle).1)).0
    ≡ (0, false)
begin_challenge_proc-once_example =
    begin_challenge_proc-once "chal-1" 0 (3600 * second) 0 idle events
      (unfold begin_challenge_proc evict_stale_challenge_proc in refl) within (omega arith)

-- The challenge name is an alias of a name in the delegated zone.
abbrev resolver : String → Cname
resolver name = if name == "_acme-challenge.a.example" then found "a.acme.example." else found name

abbrev hook : DnsHook
hook = record no_hook {
  delegation = record {
    enabled = some true;
    mode = "strict";
    allowed_zone_suffixes = ".acme.example" ∷ [];
  };
}

resolve_delegated_fqdn-IsEnd_example :
    (resolve_delegated_fqdn resolver "_acme-challenge.a.example." ≡ ok ("a.acme.example", true))
    ↔ IsEnd resolver (normalize_fqdn "_acme-challenge.a.example.") "a.acme.example" true
resolve_delegated_fqdn-IsEnd_example =
    resolve_delegated_fqdn-IsEnd resolver "_acme-challenge.a.example." "a.acme.example" true (
      unfold normalize_fqdn trim_suffix to_lower trim_space in
      λ e. ground (arith, (eq_iff "_acme-challenge.a.example" "").1 e))

abbrev delegated : DnsChallengeTarget
delegated = record {
  source_domain = "a.example";
  source_fqdn = "_acme-challenge.a.example";
  effective_domain = "a.acme.example";
  effective_fqdn = "a.acme.example";
}

resolve_dns_challenge_target-IsSafe_example :
    IsSafe resolver hook "a.example" "_acme-challenge.a.example" delegated
resolve_dns_challenge_target-IsSafe_example =
    resolve_dns_challenge_target-IsSafe resolver hook "a.example" "_acme-challenge.a.example"
      delegated
      (unfold resolve_dns_challenge_target resolve_delegated_fqdn follow has next lookup_cname_once
          normalize_fqdn validate_delegated_target any_admits admits trim_acme_challenge_prefix
          delegation_enabled_or_default mode_or_default trim_suffix to_lower trim_space has_prefix
          has_suffix trim_prefix in
        refl)

abbrev permissive : DnsHook
permissive = record hook {
  delegation = record {
    enabled = some true;
    mode = "Permissive";
    allowed_zone_suffixes = "other" ∷ [];
  };
}

resolve_dns_challenge_target-permissive_example :
    (target : DnsChallengeTarget) × (resolve_dns_challenge_target resolver permissive "a.example"
        "_acme-challenge.a.example"
      ≡ ok target)
resolve_dns_challenge_target-permissive_example =
    resolve_dns_challenge_target-permissive resolver permissive "a.example"
      "_acme-challenge.a.example" (unfold mode_or_default to_lower trim_space in refl)

quorum_requirement-least_example :
    (1 ≤ quorum_requirement (pos 3) (pos 60))
    × (quorum_requirement (pos 3) (pos 60) ≤ 3)
    × (3 * percent (pos 60) ≤ quorum_requirement (pos 3) (pos 60) * 100)
    × (quorum_requirement (pos 3) (pos 60) * 100 < 3 * percent (pos 60) + 100)
quorum_requirement-least_example = quorum_requirement-least 3 (pos 60) (omega arith)

-- Two name servers, of which the second has the record from the second round on.
abbrev from_second : ℕ → Txt
from_second zero = values []
from_second (suc n) = values ("v" ∷ [])

abbrev zone : Zone
zone = record {
  lookup_ip = λ host. err "no address";
  lookup_txt =
      λ round server name. if server == "ns1" then values ("v" ∷ []) else from_second round;
  clock = λ i. i;
  canceled = λ i. false;
  settle_canceled = false;
}

abbrev servers : List String
servers = "ns1" ∷ "ns2" ∷ []

distinct : AreDistinct servers
unfolding AreDistinct
distinct = ((λ e. ground (arith, (eq_iff "ns1" "ns2").1 e), tt), (tt, tt))

wait_for_dns_propagation-IsAgreed_example :
    IsAgreed zone no_hook "_acme-challenge.a.example" "v"
      (resolve_nameserver_endpoints zone.lookup_ip servers)
      servers
wait_for_dns_propagation-IsAgreed_example =
    wait_for_dns_propagation-IsAgreed zone no_hook "_acme-challenge.a.example" "v" servers 4
      distinct (unfold propagation_enabled_or_default in refl)
      (unfold wait_for_dns_propagation await sweep query_txt required settle_after_quorum
          resolve_nameserver_endpoints quorum_requirement quorum_percent_or_default
          settle_delay_or_default min_consecutive_or_default timeout_or_default
          propagation_enabled_or_default normalize_fqdn trim_suffix to_lower trim_space in
        refl)

wait_for_dns_propagation-total_example :
    wait_for_dns_propagation zone no_hook "_acme-challenge.a.example" "v"
      (suc (timeout_or_default no_hook.propagation))
      (ok servers)
    ≢ none
wait_for_dns_propagation-total_example =
    wait_for_dns_propagation-total zone no_hook "_acme-challenge.a.example" "v" (ok servers)
      (λ i. omega arith)

abbrev old : ChallengeProc
old = record {
  entries = ("chal-0", 0) ∷ [];
  records = record { created_at = 0; status = "invalid"; err_type = "dns"; err_msg = "" } ∷ [];
}

begin_challenge_proc-IsRecent_example :
    All
      (IsRecent (3601 * second) (begin_challenge_proc "chal-1" (3601 * second) old).1.records)
      (begin_challenge_proc "chal-1" (3601 * second) old).1.entries
begin_challenge_proc-IsRecent_example = begin_challenge_proc-IsRecent "chal-1" (3601 * second) old
