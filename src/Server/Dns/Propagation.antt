-- ===== src/Server/Dns/Propagation.antt =====
-- internal/server/dns_policy.go: waiting until the authoritative name servers report the record.
pub mod Laws
pub mod Await
use acme_gateway.Prelude.{
  ℕ, zero, suc, ◌+◌, String, Bool, true, false, ◌||◌, ◌&&◌, eqb, List, [], ◌∷◌, Option, none, some,
  Result, ok, err, ◌==◌, ltb, leb, if◌then◌else◌, length, ◌<>◌, trim_space,
}
use acme_gateway.Model.Int.{ℤ, pos}
use acme_gateway.Config.{
  DnsHook, lookup, propagation_enabled_or_default, timeout_or_default, poll_or_default,
  min_consecutive_or_default, quorum_percent_or_default, settle_delay_or_default,
}
use acme_gateway.Server.Dns.{LookupError, is_missing, normalize_fqdn, quorum_requirement}

pub record IpAddr : Type 0 where
  pub is_v4 : Bool
  pub text : String

pub data Txt : Type 0 where
  values : List String → Txt
  failed : LookupError → Txt

abbrev has_value : String → List String → Bool
has_value expected [] = false
has_value expected (v ∷ vs) = (trim_space v == expected) || has_value expected vs

unfoldable pub query_txt : String → Txt → Result Bool
unfolding is_missing
query_txt expected (values vs) = ok (has_value expected vs)
query_txt expected (failed e) = if is_missing e then ok false else err e.text

-- The first address of version 4, or the first at all
abbrev first_v4 : IpAddr → List IpAddr → String
first_v4 d [] = d.text
first_v4 d (ip ∷ ips) = if ip.is_v4 then ip.text else first_v4 d ips

abbrev endpoint_of : String → List (String × String) → Result (List IpAddr) → List (String × String)
endpoint_of host rest (err e) = rest
endpoint_of host rest (ok []) = rest
endpoint_of host rest (ok (ip ∷ ips)) = (host, first_v4 ip (ip ∷ ips)) ∷ rest

unfoldable pub resolve_nameserver_endpoints :
    (String → Result (List IpAddr)) → List String → List (String × String)
resolve_nameserver_endpoints lookup_ip [] = []
resolve_nameserver_endpoints lookup_ip (host ∷ hosts) =
    endpoint_of host (resolve_nameserver_endpoints lookup_ip hosts) (lookup_ip host)

abbrev endpoint : String → Option String → String
endpoint ns none = ns
endpoint ns (some e) = if e == "" then ns else e

-- What the wait meets: the name servers' answers to a query in a round, given the server's endpoint
-- and the name; the clock when the loop is tested; whether the context ends during a wait.
pub record Zone : Type 0 where
  pub lookup_ip : String → Result (List IpAddr)
  pub lookup_txt : ℕ → String → String → Txt
  pub clock : ℕ → ℕ
  pub canceled : ℕ → Bool
  pub settle_canceled : Bool

module _ (zone : Zone) (hook : DnsHook) (fqdn expected : String) where
  abbrev pub Successes : Type 0
  Successes = String → ℕ

  abbrev set_count : String → ℕ → Successes → Successes
  set_count ns v counts k = if ns == k then v else counts k

  -- The server's new count of successes in a row, and whether it is stable.
  abbrev counted : Result Bool → ℕ → ℕ × Bool
  counted (err e) n = (0, false)
  counted (ok true) n = (n + 1, leb (min_consecutive_or_default hook.propagation) (n + 1))
  counted (ok false) n = (0, leb (min_consecutive_or_default hook.propagation) 0)

  abbrev pub query : List (String × String) → ℕ → String → Result Bool
  query endpoints round ns =
      query_txt expected
        (zone.lookup_txt round (endpoint ns (lookup ns endpoints)) (normalize_fqdn fqdn))

  -- One round of queries: the counts, and the number of stable servers.
  unfoldable pub sweep : List (String × String) → ℕ → List String → Successes → ℕ → Successes × ℕ
  unfolding query_txt
  sweep endpoints round [] counts stable = (counts, stable)
  sweep endpoints round (ns ∷ rest) counts stable =
      let c = counted (query endpoints round ns) (counts ns) in
      sweep endpoints round rest (set_count ns c.0 counts) (if c.1 then stable + 1 else stable)

  unfoldable pub settle_after_quorum : Result (Unit {0})
  settle_after_quorum =
      if ltb 0 (settle_delay_or_default hook.propagation) && zone.settle_canceled
      then err "dns propagation settle canceled"
      else ok tt

  module _ (hosts : List String) where
    unfoldable pub required : ℕ
    required =
        let q =
          quorum_requirement (pos (length hosts))
            (pos (quorum_percent_or_default hook.propagation)) in
        if ltb q 1 then 1 else q

    -- The loop from `round`; none if the fuel does not last.
    unfoldable pub await : ℕ → ℕ → Successes → Option (Result (Unit {0}))
    unfolding sweep
    await zero round counts = none
    await (suc fuel) round counts =
        elim (ltb (zone.clock (suc round)) (zone.clock 0 + timeout_or_default hook.propagation)) [
          | false ↦ some (err ("dns propagation timeout for " <> fqdn))
          | true ↦
              let swept =
                sweep (resolve_nameserver_endpoints zone.lookup_ip hosts) round hosts counts 0 in
              elim (leb required swept.1) [
                | true ↦ some settle_after_quorum
                | false ↦ elim (zone.canceled round) [
                  | true ↦ some (err "dns propagation wait canceled")
                  | false ↦ await fuel (round + 1) swept.0
                ]
              ]
        ]

  -- waitForDNSPropagation, given what authoritativeNameservers has answered
  unfoldable pub wait_for_dns_propagation : ℕ → Result (List String) → Option (Result (Unit {0}))
  unfolding await
  wait_for_dns_propagation fuel (err e) =
      if propagation_enabled_or_default hook.propagation
      then some (err ("resolving authoritative nameservers for " <> fqdn <> ": " <> e))
      else some (ok tt)
  wait_for_dns_propagation fuel (ok hosts) =
      if propagation_enabled_or_default hook.propagation
      then if eqb (length hosts) 0
        then some (err ("no authoritative nameservers discovered for " <> fqdn))
        else await hosts fuel 0 (λ ns. 0)
      else some (ok tt)
