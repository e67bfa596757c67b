-- ===== src/Server/Dns/Delegation.antt =====
-- Which name a dns-01 record goes to: the end of the chain of aliases, as far as it is allowed.
use acme_gateway.Prelude.{
  ℕ, zero, suc, ◌+◌, ◌≤◌, ◌<◌, String, Bool, false, ◌≡◌, ◌≢◌, ◌↔◌, refl, ap, ◌∙◌, List, [], ◌∷◌,
  Result, ok, err, ◌==◌, eq_iff, arith, ltb, Bool-cases, inl, inr,
}
use acme_gateway.Server.Dns.{
  Cname, Next, ends, stops, goes, next, lookup_cname_once, has, follow, from_current,
  resolve_delegated_fqdn, normalize_fqdn,
}

module _ (resolve : String → Cname) where
  -- What the lookup of a name says of it.
  unfoldable pub answer : String → Next
  answer a = next a (lookup_cname_once resolve a)

  -- `c` is reached from `a` by `n` aliases, and is no alias itself.
  unfoldable pub Chain : ℕ → String → String → Type 0
  unfolding answer
  Chain zero a c = (a ≡ c) × (answer a ≡ ends)
  Chain (suc n) a c = (b : String) × (answer a ≡ goes b) × Chain n b c

  Chain-unique : (n m : ℕ) (a c d : String) → Chain n a c → Chain m a d → n ≡ m
  unfolding Chain
  Chain-unique zero zero a c d (e, h) (e', h') = refl
  Chain-unique zero (suc m) a c d (e, h) (b, h', k') = absurd (cc)
  Chain-unique (suc n) zero a c d (b, h, k) (e', h') = absurd (cc)
  Chain-unique (suc n) (suc m) a c d (b, h, k) (b', h', k') =
      let same : b' ≡ b = cc in ap suc (Chain-unique n m b c d k (rw same at k'))

  -- Every name seen is further from the end than the current one.
  unfoldable AreBefore : ℕ → String → List String → Type 0
  AreBefore n c [] = Unit
  AreBefore n c (x ∷ xs) = ((m : ℕ) × (n < m) × Chain m x c) × AreBefore n c xs

  has-AreBefore :
      (n : ℕ) (a c : String) (seen : List String)
      → Chain n a c
      → AreBefore n c seen
      → has a seen ≡ false
  unfolding has AreBefore
  has-AreBefore n a c [] h w = refl
  has-AreBefore n a c (x ∷ xs) h ((m, lt, k), w) = elim (Bool-cases (x == a)) [
    | inl e ↦
        let same : x ≡ a = ((eq_iff x a).0 e) in
        let eq = Chain-unique n m a c c h (rw same at k) in absurd (omega (arith, eq))
    | inr e ↦ rw (e) (has-AreBefore n a c xs h w)
  ]

  AreBefore-pred :
      (n : ℕ) (c : String) (seen : List String) → AreBefore (suc n) c seen → AreBefore n c seen
  unfolding AreBefore
  AreBefore-pred n c [] w = tt
  AreBefore-pred n c (x ∷ xs) ((m, lt, k), w) = ((m, omega arith, k), AreBefore-pred n c xs w)

  follow-Chain :
      (n left depth : ℕ) (a c : String) (seen : List String)
      → n < left
      → Chain n a c
      → AreBefore n c seen
      → follow resolve left depth a seen ≡ ok (c, ltb 0 (depth + n))
  unfolding follow Chain answer
  follow-Chain n zero depth a c seen lt h w = absurd (omega arith)
  follow-Chain zero (suc left) depth a c seen lt (e, h) w =
      rw (has-AreBefore 0 a c seen (e, h) w, h, e) (ground arith)
  follow-Chain (suc n) (suc left) depth a c seen lt (b, h, k) w =
      rw (has-AreBefore (suc n) a c seen (b, h, k) w, h)
        (follow-Chain n left (depth + 1) b c (a ∷ seen) (omega arith) k
            (unfold AreBefore in ((suc n, omega arith, (b, h, k)), AreBefore-pred n c seen w))
          ∙ ap (λ i. ok (c, ltb 0 i)) (omega arith))

  -- The chain that a successful loop has followed.
  record IsFollowed (left depth : ℕ) (a t : String) (delegated : Bool) : Type 0 where
    hops : ℕ
    few : hops < left
    chain : Chain hops a t
    flag : delegated ≡ ltb 0 (depth + hops)

  abbrev after : ℕ → ℕ → String → List String → Next → Result (String × Bool)
  after left depth a seen ends = ok (a, ltb 0 depth)
  after left depth a seen (stops message) = err message
  after left depth a seen (goes name) = follow resolve left (depth + 1) name (a ∷ seen)

  follow-IsFollowed :
      (left depth : ℕ) (a t : String) (delegated : Bool) (seen : List String)
      → follow resolve left depth a seen ≡ ok (t, delegated)
      → IsFollowed left depth a t delegated
  unfolding follow Chain answer
  follow-IsFollowed zero depth a t d seen h = absurd (cc)
  follow-IsFollowed (suc left) depth a t d seen h = elim (Bool-cases (has a seen)) [
    | inl e ↦ absurd (ground arith)
    | inr e ↦
        go (next a (lookup_cname_once resolve a)) refl (rw e at h)
          (λ b k. follow-IsFollowed left (depth + 1) b t d (a ∷ seen) k)
  ]
    where
      go :
          (x : Next)
          → next a (lookup_cname_once resolve a) ≡ x
          → after left depth a seen x ≡ ok (t, d)
          → ((b : String)
              → follow resolve left (depth + 1) b (a ∷ seen) ≡ ok (t, d)
              → IsFollowed left (depth + 1) b t d)
          → IsFollowed (suc left) depth a t d
      go ends e k rest = record {
        hops = 0;
        few = omega arith;
        chain = (cc, e);
        flag = ground arith;
      }
      go (stops message) e k rest = absurd (cc)
      go (goes b) e k rest =
          let f = rest b k in
          record {
            hops = suc f.hops;
            few = omega (arith, f.few);
            chain = (b, e, f.chain);
            flag = f.flag ∙ ap (ltb 0) (omega arith);
          }

  -- The chain of aliases from the source name ends in `t` after at most nine of them.
  pub record IsEnd (source t : String) (delegated : Bool) : Type 0 where
    pub hops : ℕ
    pub few : hops ≤ 9
    pub chain : Chain hops source t
    pub flag : delegated ≡ ltb 0 hops

  from_current-IsEnd :
      (a t : String) (delegated : Bool)
      → a ≢ ""
      → (from_current resolve a ≡ ok (t, delegated)) ↔ IsEnd a t delegated
  from_current-IsEnd a t d ne = (forth, back)
    where
      nonempty : (a == "") ≡ false
      nonempty = ground (arith, eq_iff a "")

      forth : from_current resolve a ≡ ok (t, d) → IsEnd a t d
      forth h =
          let f = follow-IsFollowed 10 0 a t d [] (rw nonempty at h) in
          record {
            hops = f.hops;
            few = omega (arith, f.few);
            chain = f.chain;
            flag = f.flag ∙ ap (ltb 0) (omega arith);
          }

      back : IsEnd a t d → from_current resolve a ≡ ok (t, d)
      back e =
          rw (nonempty, e.flag)
            (follow-Chain e.hops 10 0 a t [] (omega (arith, e.few)) e.chain (unfold AreBefore in tt)
              ∙ ap (λ i. ok (t, ltb 0 i)) (omega arith))

  -- For a source name that is not empty, the lookup gives a name exactly when following the aliases
  -- from the normalised source name, as the resolver answers them, ends in that name after at most
  -- nine, and it says "delegated" exactly when there was one at least. Loops, longer chains and
  -- failures of the resolver give no name.
  pub resolve_delegated_fqdn-IsEnd :
      (source t : String) (delegated : Bool)
      → normalize_fqdn source ≢ ""
      → (resolve_delegated_fqdn resolve source ≡ ok (t, delegated))
        ↔ IsEnd (normalize_fqdn source) t delegated
  unfolding resolve_delegated_fqdn
  resolve_delegated_fqdn-IsEnd source t d ne = from_current-IsEnd (normalize_fqdn source) t d ne
