-- ===== src/Server/Dns/Propagation/Await.antt =====
-- What a successful wait has seen, and that the wait ends.
use acme_gateway.Prelude.{
  ℕ, zero, suc, ◌+◌, ◌≤◌, ◌<◌, String, true, false, ◌≡◌, ◌≢◌, List, [], ◌∷◌, none, some, Result, ok,
  err, arith, ltb, leb, eqb, leb→le, length, All, Bool-cases, inl, inr,
}
use acme_gateway.Config.{DnsHook, propagation_enabled_or_default, timeout_or_default}
use acme_gateway.Server.Dns.Propagation.{
  Zone, sweep, required, await, wait_for_dns_propagation, resolve_nameserver_endpoints,
}
use acme_gateway.Server.Dns.Propagation.Laws.{
  AreDistinct, Confirmed, Counts, sweep-Confirmed, sweep-IsSwept, IsAgreed,
}

module _ (zone : Zone) (hook : DnsHook) (fqdn expected : String) (hosts : List String) where
  abbrev endpoints : List (String × String)
  endpoints = resolve_nameserver_endpoints zone.lookup_ip hosts

  abbrev swept :
      ℕ → Counts zone hook fqdn expected endpoints → Counts zone hook fqdn expected endpoints × ℕ
  swept round counts = sweep zone hook fqdn expected endpoints round hosts counts 0

  await-IsAgreed :
      (fuel round : ℕ) (counts : Counts zone hook fqdn expected endpoints)
      → AreDistinct hosts
      → All (λ k. Confirmed zone hook fqdn expected endpoints (counts k) round k) hosts
      → await zone hook fqdn expected hosts fuel round counts ≡ some (ok tt)
      → IsAgreed zone hook fqdn expected endpoints hosts
  unfolding await
  await-IsAgreed zero round counts d w h = absurd (cc)
  await-IsAgreed (suc fuel) round counts d w h =
      elim (Bool-cases
        (ltb (zone.clock (suc round)) (zone.clock 0 + timeout_or_default hook.propagation))) [
          | inr e ↦ absurd (ground arith)
          | inl e ↦
              elim (Bool-cases
                (leb (required zone hook fqdn expected hosts) (swept round counts).1)) [
                  | inl q ↦
                      let s =
                        sweep-IsSwept zone hook fqdn expected endpoints round hosts counts 0 d w in
                      record {
                        round = round;
                        good = s.good;
                        part = s.part;
                        enough = omega (arith, s.count, leb→le _ _ q);
                        confirmed = s.confirmed;
                      }
                  | inr q ↦ elim (Bool-cases (zone.canceled round)) [
                    | inl c ↦ absurd (ground arith)
                    | inr c ↦
                        await-IsAgreed fuel (round + 1) (swept round counts).0 d
                          (rw (one_more round) (
                            sweep-Confirmed zone hook fqdn expected endpoints round hosts counts 0 d
                              w))
                          (ground arith)
                  ]
                ]
        ]
    where
      one_more : (n : ℕ) → n + 1 ≡ suc n
      one_more n = omega arith

  -- `deadline` is no later than the test of the loop that the fuel lasts for.
  await-total :
      (fuel round : ℕ) (counts : Counts zone hook fqdn expected endpoints)
      → ((i : ℕ) → zone.clock i < zone.clock (suc i))
      → zone.clock 0 + timeout_or_default hook.propagation ≤ zone.clock (suc round) + fuel
      → await zone hook fqdn expected hosts (suc fuel) round counts ≢ none
  unfolding await
  await-total zero round counts later le =
      let late : ltb (zone.clock (suc round)) (zone.clock 0 + timeout_or_default hook.propagation)
          ≡ false =
        ground arith in
      ground arith
  await-total (suc fuel) round counts later le =
      elim (Bool-cases
        (ltb (zone.clock (suc round)) (zone.clock 0 + timeout_or_default hook.propagation))) [
          | inr e ↦ ground arith
          | inl e ↦
              elim (Bool-cases
                (leb (required zone hook fqdn expected hosts) (swept round counts).1)) [
                  | inl q ↦ ground arith
                  | inr q ↦ elim (Bool-cases (zone.canceled round)) [
                    | inl c ↦ ground arith
                    | inr c ↦
                        let rest =
                          await-total fuel (round + 1) (swept round counts).0 later
                            (rw (one_more round) (omega (arith, later (suc round), le))) in
                        rw (e, await) (rw (q, await) (rw (c, await) rest))
                  ]
                ]
        ]
    where
      one_more : (n : ℕ) → n + 1 ≡ suc n
      one_more n = omega arith

  All-zero : (xs : List String) → All (λ k. Confirmed zone hook fqdn expected endpoints 0 0 k) xs
  unfolding Confirmed
  All-zero [] = tt
  All-zero (x ∷ xs) = (tt, All-zero xs)

  -- Where propagation checks are enabled and the wait succeeds, there was a round in which name
  -- servers, as many as the quorum requires, had reported the expected value in every one of the
  -- last rounds, as many as the policy requires. The name servers found are distinct.
  pub wait_for_dns_propagation-IsAgreed :
      (fuel : ℕ)
      → AreDistinct hosts
      → propagation_enabled_or_default hook.propagation ≡ true
      → wait_for_dns_propagation zone hook fqdn expected fuel (ok hosts) ≡ some (ok tt)
      → IsAgreed zone hook fqdn expected endpoints hosts
  unfolding wait_for_dns_propagation
  wait_for_dns_propagation-IsAgreed fuel d on h = elim (Bool-cases (eqb (length hosts) 0)) [
    | inl e ↦ absurd (ground arith)
    | inr e ↦ await-IsAgreed fuel 0 (λ ns. 0) d (All-zero hosts) (rw (on, e) at h)
  ]

-- The wait ends: if each reading of the clock is later than the one before, as many rounds as the
-- timeout has nanoseconds, and one more, are enough, whatever the name servers answer.
pub wait_for_dns_propagation-total :
    (zone : Zone) (hook : DnsHook) (fqdn expected : String) (discovered : Result (List String))
    → ((i : ℕ) → zone.clock i < zone.clock (suc i))
    → wait_for_dns_propagation zone hook fqdn expected
        (suc (timeout_or_default hook.propagation))
        discovered
      ≢ none
unfolding wait_for_dns_propagation
wait_for_dns_propagation-total zone hook fqdn expected (err e) later =
    elim (Bool-cases (propagation_enabled_or_default hook.propagation)) [
      | inl on ↦ ground arith
      | inr on ↦ ground arith
    ]
wait_for_dns_propagation-total zone hook fqdn expected (ok hosts) later =
    elim (Bool-cases (propagation_enabled_or_default hook.propagation)) [
      | inr on ↦ ground arith
      | inl on ↦ elim (Bool-cases (eqb (length hosts) 0)) [
        | inl e ↦ ground arith
        | inr e ↦
            rw (on, e)
              (await-total zone hook fqdn expected hosts (timeout_or_default hook.propagation) 0
                (λ ns. 0) later (omega (arith, later 0)))
      ]
    ]
