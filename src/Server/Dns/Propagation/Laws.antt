-- ===== src/Server/Dns/Propagation/Laws.antt =====
-- What one round of queries finds: the servers that have reported the record often enough.
use acme_gateway.Prelude.{
  ℕ, zero, suc, ◌+◌, ◌≤◌, String, Bool, true, false, ◌≡◌, ◌≢◌, ◌⊎◌, refl, sym, ◌∙◌, List, [], ◌∷◌,
  Result, ok, err, eq_iff, eq_refl, arith, leb→le, length, All, Bool-cases, inl, inr,
}
use acme_gateway.Config.{DnsHook, min_consecutive_or_default}
use acme_gateway.Server.Dns.Propagation.{
  Zone, Successes, set_count, counted, query, sweep, required,
}

-- `xs` is part of `ys`, in order.
unfoldable pub IsPart : List String → List String → Type 0
IsPart [] ys = Unit
IsPart (x ∷ xs) [] = ⊥
IsPart (x ∷ xs) (y ∷ ys) = ((x ≡ y) × IsPart xs ys) ⊎ IsPart (x ∷ xs) ys

IsPart-skip : (xs : List String) (y : String) (ys : List String) → IsPart xs ys → IsPart xs (y ∷ ys)
unfolding IsPart
IsPart-skip [] y ys h = tt
IsPart-skip (x ∷ xs) y ys h = inr h

IsPart-keep :
    (xs : List String) (y : String) (ys : List String) → IsPart xs ys → IsPart (y ∷ xs) (y ∷ ys)
unfolding IsPart
IsPart-keep xs y ys h = inl (refl, h)

unfoldable pub AreDistinct : List String → Type 0
AreDistinct [] = Unit
AreDistinct (x ∷ xs) = All (λ y. x ≢ y) xs × AreDistinct xs

module _ (zone : Zone) (hook : DnsHook) (fqdn expected : String)
    (endpoints : List (String × String)) where
  -- The server has reported the expected value in each of the last `n` rounds before `round`.
  unfoldable pub Confirmed : ℕ → ℕ → String → Type 0
  Confirmed zero round ns = Unit
  Confirmed (suc n) zero ns = ⊥
  Confirmed (suc n) (suc round) ns =
      (query zone hook fqdn expected endpoints round ns ≡ ok true) × Confirmed n round ns

  Confirmed-le : (m n round : ℕ) (ns : String) → m ≤ n → Confirmed n round ns → Confirmed m round ns
  unfolding Confirmed
  Confirmed-le zero n round ns le h = tt
  Confirmed-le (suc m) zero round ns le h = absurd (omega arith)
  Confirmed-le (suc m) (suc n) zero ns le h = h
  Confirmed-le (suc m) (suc n) (suc round) ns le (q, h) =
      (q, Confirmed-le m n round ns (omega arith) h)

  Confirmed-counted :
      (n round : ℕ) (ns : String) (r : Result Bool)
      → query zone hook fqdn expected endpoints round ns ≡ r
      → Confirmed n round ns
      → Confirmed (counted zone hook fqdn expected r n).0 (suc round) ns
  unfolding Confirmed
  Confirmed-counted n round ns (err e) q h = tt
  Confirmed-counted n round ns (ok true) q h = let eq : n + 1 ≡ suc n = omega arith in rw eq (q, h)
  Confirmed-counted n round ns (ok false) q h = tt

  abbrev pub minimum : ℕ
  minimum = min_consecutive_or_default hook.propagation

  stable-counted :
      (n : ℕ) (r : Result Bool)
      → (counted zone hook fqdn expected r n).1 ≡ true
      → minimum ≤ (counted zone hook fqdn expected r n).0
  stable-counted n (err e) h = absurd (cc)
  stable-counted n (ok true) h = leb→le minimum (n + 1) h
  stable-counted n (ok false) h = leb→le minimum 0 h

  abbrev pub Counts : Type 0
  Counts = Successes zone hook fqdn expected

  -- The servers that a round has found stable.
  pub record IsSwept (round : ℕ) (hosts : List String) (stable : ℕ) (r : Counts × ℕ) : Type 0 where
    pub good : List String
    pub part : IsPart good hosts
    pub confirmed : All (Confirmed minimum (suc round)) good
    pub count : r.1 ≡ stable + length good

  abbrev set : String → ℕ → Counts → Counts
  set = set_count zone hook fqdn expected

  set_other : (ns k : String) (v : ℕ) (counts : Counts) → ns ≢ k → set ns v counts k ≡ counts k
  set_other ns k v counts ne = ground (arith, eq_iff ns k)

  set_self : (ns : String) (v : ℕ) (counts : Counts) → set ns v counts ns ≡ v
  set_self ns v counts = ground (arith, eq_refl ns)

  sweep-other :
      (round : ℕ) (hosts : List String) (counts : Counts) (stable : ℕ) (k : String)
      → All (λ y. k ≢ y) hosts
      → (sweep zone hook fqdn expected endpoints round hosts counts stable).0 k ≡ counts k
  unfolding sweep
  sweep-other round [] counts stable k h = refl
  sweep-other round (ns ∷ rest) counts stable k (ne, h) =
      sweep-other round rest _ _ k h ∙ set_other ns k _ counts (λ e. ne (sym e))

  All-set :
      (round v : ℕ) (ns : String) (hosts : List String) (counts : Counts)
      → All (λ y. ns ≢ y) hosts
      → All (λ k. Confirmed (counts k) round k) hosts
      → All (λ k. Confirmed (set ns v counts k) round k) hosts
  All-set round v ns [] counts h w = tt
  All-set round v ns (x ∷ xs) counts (ne, h) (c, w) =
      (rw (set_other ns x v counts ne) c, All-set round v ns xs counts h w)

  -- One round keeps every count no larger than the number of reports in a row.
  pub sweep-Confirmed :
      (round : ℕ) (hosts : List String) (counts : Counts) (stable : ℕ)
      → AreDistinct hosts
      → All (λ k. Confirmed (counts k) round k) hosts
      → All
          (λ k.
            Confirmed
              ((sweep zone hook fqdn expected endpoints round hosts counts stable).0 k)
              (suc round)
              k)
          hosts
  unfolding sweep AreDistinct
  sweep-Confirmed round [] counts stable d w = tt
  sweep-Confirmed round (ns ∷ rest) counts stable (ne, d) (c, w) =
      let r = query zone hook fqdn expected endpoints round ns in
      let n = (counted zone hook fqdn expected r (counts ns)).0 in
      (
        rw (sweep-other round rest (set ns n counts) _ ns ne, set_self ns n counts)
            (Confirmed-counted (counts ns) round ns r refl c),
        sweep-Confirmed round rest (set ns n counts) _ d (All-set round n ns rest counts ne w),
      )

  pub sweep-IsSwept :
      (round : ℕ) (hosts : List String) (counts : Counts) (stable : ℕ)
      → AreDistinct hosts
      → All (λ k. Confirmed (counts k) round k) hosts
      → IsSwept round hosts stable
          (sweep zone hook fqdn expected endpoints round hosts counts stable)
  unfolding sweep AreDistinct
  sweep-IsSwept round [] counts stable d w = record {
    good = [];
    part = unfold IsPart in tt;
    confirmed = tt;
    count = omega arith;
  }
  sweep-IsSwept round (ns ∷ rest) counts stable (ne, d) (c, w) =
      let r = query zone hook fqdn expected endpoints round ns in
      let n = (counted zone hook fqdn expected r (counts ns)).0 in
      let next = All-set round n ns rest counts ne w in
      elim (Bool-cases (counted zone hook fqdn expected r (counts ns)).1) [
        | inl e ↦
            let h = sweep-IsSwept round rest (set ns n counts) (stable + 1) d next in
            record {
              good = ns ∷ h.good;
              part = IsPart-keep h.good ns rest h.part;
              confirmed = (
                Confirmed-le minimum n (suc round) ns (stable-counted (counts ns) r e)
                    (Confirmed-counted (counts ns) round ns r refl c),
                h.confirmed,
              );
              count = rw (e, sweep) (h.count ∙ omega arith);
            }
        | inr e ↦
            let h = sweep-IsSwept round rest (set ns n counts) stable d next in
            record {
              good = h.good;
              part = IsPart-skip h.good ns rest h.part;
              confirmed = h.confirmed;
              count = rw (e, sweep) h.count;
            }
      ]

  -- A good round: enough servers have reported the value in all of the last rounds.
  pub record IsAgreed (hosts : List String) : Type 0 where
    pub round : ℕ
    pub good : List String
    pub part : IsPart good hosts
    pub enough : required zone hook fqdn expected hosts ≤ length good
    pub confirmed : All (Confirmed minimum (suc round)) good
