-- ===== src/Server/Handlers/Certs/Revocation.antt =====
-- Who may revoke a certificate: what a revocation has passed before it is sent upstream.
use mathlib.Core.Path.{subst}
use acme_gateway.Prelude.{
  ℕ, String, Bool, true, false, not, ◌≡◌, refl, List, Option, none, some, Result, ok, err, ◌==◌,
  arith,
}
use acme_gateway.Model.{Account, ResourceMap}
use acme_gateway.Model.Int.{ℤ}
use acme_gateway.Server.Requests.{ParsedJws, HttpRequest, accepted, resolve_and_verify}
use acme_gateway.Server.World.{
  Gateway, World, RevokeCertRequest, ClientChoice, Sent, ◌>>=◌, or_refuse, refuse_if,
}
use acme_gateway.Server.World.Keeps.{IsQuiet, IsQuiet-pure, quiet_rules}
use acme_gateway.Server.World.Runs.{
  bind-accepted, lift-accepted, pure-accepted, refuse_if-accepted, or_refuse-accepted,
}
use acme_gateway.Server.World.Sends.{
  Extends, Extends-refl, IsSending, IsSending-quiet, bind-sends, sending_rules,
}
use acme_gateway.Server.Handlers.{validate_request, verify_request, base_url}
use acme_gateway.Server.Handlers.Shared.{validate_request-IsQuiet, verify_request-IsQuiet}
use acme_gateway.Server.Handlers.Orders.Sends.{Takes, chosen_client-IsSending}
use acme_gateway.Server.Handlers.Certs.Revokers.{IsOwn, found_order, find_revoker-IsOwn}
use acme_gateway.Server.Handlers.Certs.{
  revoker, check_key, Revoker, revoker_choice, by_resource, find_revoker, revoker_client,
  send_revocation, revocation, revoke, handle_revoke_cert,
}

module _ (g : Gateway) where
  -- The request is signed by the certificate's own key, or by the key of the account that its kid
  -- names.
  pub data IsEntitled (p : ParsedJws) (w : World) (acct : Option Account) (der : String)
      : Type 0 where
    by_key :
        (jwk : String) (has_key : String → Bool)
        → p.embedded_jwk ≡ some jwk
        → g.jose.verify p.raw jwk ≡ ok tt
        → g.codec.has_jwk der ≡ ok has_key
        → has_key jwk ≡ true
        → IsEntitled p w acct der
    by_account :
        (n : ℕ)
        → p.embedded_jwk ≡ none
        → resolve_and_verify g.jose (base_url g) p (g.fault n) w.db ≡ accepted acct
        → IsEntitled p w acct der

  -- The request asks for the revocation of this certificate, and its signer is entitled to it.
  pub record IsRevocation (r : HttpRequest) (w : World) (acct : Option Account) (der : String)
      : Type 0 where
    pub p : ParsedJws
    pub req : RevokeCertRequest
    pub valid : (validate_request g r w).0 ≡ accepted p
    pub read : g.codec.revoke_request p.payload ≡ ok req
    pub decoded : g.codec.base64_decode req.certificate ≡ ok der
    pub entitled : IsEntitled p (validate_request g r w).1 acct der

  revoker-key :
      (p : ParsedJws) (w : World) (jwk : String) (acct : Option Account)
      → (revoker g p (some jwk) w).0 ≡ accepted acct
      → g.jose.verify p.raw jwk ≡ ok tt
  unfolding ◌>>=◌
  revoker-key p w jwk acct h =
      let (u, fine, h1) = lift-accepted _ w (or_refuse _ (g.jose.verify p.raw jwk)) h in
      or_refuse-accepted _ _ fine

  revoker-account :
      (p : ParsedJws) (w : World) (acct : Option Account)
      → (revoker g p none w).0 ≡ accepted acct
      → resolve_and_verify g.jose (base_url g) p (g.fault w.tick) w.db ≡ accepted acct
  unfolding verify_request ◌>>=◌
  revoker-account p w acct h = h

  check_key-accepted :
      (jwk der : String) (w : World) {u : Unit {0}}
      → (check_key g (some jwk) der w).0 ≡ accepted u
      → (has_key : String → Bool) × (g.codec.has_jwk der ≡ ok has_key) × (has_key jwk ≡ true)
  unfolding ◌>>=◌
  check_key-accepted jwk der w h =
      let (has_key, read, h1) = lift-accepted _ w (or_refuse _ (g.codec.has_jwk der)) h in
      (has_key, or_refuse-accepted _ _ read, not_false (has_key jwk) (refuse_if-accepted _ _ h1))
    where
      not_false : (b : Bool) → not b ≡ false → b ≡ true
      not_false b e = ground arith

  entitled :
      (jwk : Option String) (p : ParsedJws) (w v : World) (acct : Option Account) (der : String)
      {u : Unit {0}}
      → p.embedded_jwk ≡ jwk
      → (revoker g p jwk w).0 ≡ accepted acct
      → (check_key g jwk der v).0 ≡ accepted u
      → IsEntitled p w acct der
  entitled none p w v acct der e h k = by_account w.tick e (revoker-account p w acct h)
  entitled (some jwk) p w v acct der e h k =
      let (has_key, read, same) = check_key-accepted jwk der v k in
      by_key jwk has_key e (revoker-key p w jwk acct h) read same

  revocation-IsRevocation :
      (r : HttpRequest) (w : World) (acct : Option Account) (der : String) (reason : ℤ)
      → (revocation g r w).0 ≡ accepted (acct, der, reason)
      → IsRevocation r w acct der
  unfolding revocation
  revocation-IsRevocation r w acct der reason h =
      let (p, valid, h1) = bind-accepted (validate_request g r) _ w h in
      let (a, by, h2) = bind-accepted (revoker g p p.embedded_jwk) _ _ h1 in
      let (req, read, h3) = lift-accepted _ _ (or_refuse _ (g.codec.revoke_request p.payload)) h2 in
      let (u, given, h4) = lift-accepted _ _ (refuse_if (req.certificate == "") _) h3 in
      let (d, decoded, h5) =
        lift-accepted _ _ (or_refuse _ (g.codec.base64_decode req.certificate)) h4 in
      let (u2, keyed, h6) = bind-accepted (check_key g p.embedded_jwk d) _ _ h5 in
      subst (λ (y : Option Account × String × ℤ). IsRevocation r w y.0 y.1) (pure-accepted _ _ h6)
        (record {
          p = p;
          req = req;
          valid = valid;
          read = or_refuse-accepted _ _ read;
          decoded = or_refuse-accepted _ _ decoded;
          entitled = entitled p.embedded_jwk p _ _ a d refl by keyed;
        })

  revoker-IsQuiet : (p : ParsedJws) (jwk : Option String) → IsQuiet (revoker g p jwk)
  revoker-IsQuiet p (some jwk) = search quiet_rules depth 40
  revoker-IsQuiet p none = verify_request-IsQuiet g p

  check_key-IsQuiet : (jwk : Option String) (der : String) → IsQuiet (check_key g jwk der)
  check_key-IsQuiet none der = IsQuiet-pure tt
  check_key-IsQuiet (some jwk) der = search quiet_rules depth 40

  revocation-IsQuiet : (r : HttpRequest) → IsQuiet (revocation g r)
  unfolding revocation
  revocation-IsQuiet r =
      search (quiet_rules, validate_request-IsQuiet, revoker-IsQuiet, check_key-IsQuiet) depth 60

  by_resource-IsQuiet :
      (acct : Option Account) (m : Result (Option ResourceMap)) → IsQuiet (by_resource g acct m)
  by_resource-IsQuiet acct (ok (some rm)) = search quiet_rules depth 40
  by_resource-IsQuiet acct (ok none) = IsQuiet-pure _
  by_resource-IsQuiet acct (err e) = IsQuiet-pure _

  find_revoker-IsQuiet : (acct : Option Account) (fp : String) → IsQuiet (find_revoker g acct fp)
  unfolding find_revoker
  find_revoker-IsQuiet acct fp = search (quiet_rules, by_resource-IsQuiet) depth 40

  module _ {P : Sent → Type 0} where
    revoker_client-IsSending :
        (v : Revoker g) → Takes g P (revoker_choice g v) → IsSending P (revoker_client g v)
    revoker_client-IsSending v p = search (sending_rules, chosen_client-IsSending) depth 40

    send_revocation-IsSending :
        (v : Revoker g) (der : String) (reason : ℤ)
        → Takes g P (revoker_choice g v)
        → P (Sent.revokes der reason)
        → IsSending P (send_revocation g v der reason)
    unfolding send_revocation
    send_revocation-IsSending v der reason p q =
        search (sending_rules, revoker_client-IsSending) depth 40

    revoke-sends :
        (acct : Option Account) (der : String) (reason : ℤ) (base : List Sent) (w : World)
        → Extends P base w.sent
        → ((k : ClientChoice) → IsOwn g acct k (found_order g der w) → Takes g P k)
        → ((k : ClientChoice) → IsOwn g acct k (found_order g der w) → P (Sent.revokes der reason))
        → Extends P base (revoke g acct der reason w).1.sent
    unfolding revoke
    revoke-sends acct der reason base w e p q =
        let quiet = IsSending-quiet _ (find_revoker-IsQuiet acct (g.codec.fingerprint der)) in
        let start = quiet.sends base w e in
        bind-sends (find_revoker g acct (g.codec.fingerprint der)) _ base w start (λ v h.
          let own = find_revoker-IsOwn g acct w der v h in
          (send_revocation-IsSending v der reason (p _ own) (q _ own)).sends base _ start)

    pub handle_revoke_cert-sends :
        (r : HttpRequest) (w : World)
        → ((acct : Option Account) (der : String) (k : ClientChoice)
            → IsRevocation r w acct der
            → IsOwn g acct k (found_order g der (revocation g r w).1)
            → Takes g P k)
        → ((acct : Option Account) (der : String) (k : ClientChoice) (reason : ℤ)
            → IsRevocation r w acct der
            → IsOwn g acct k (found_order g der (revocation g r w).1)
            → P (Sent.revokes der reason))
        → Extends P w.sent (handle_revoke_cert g r w).1.sent
    unfolding handle_revoke_cert
    handle_revoke_cert-sends r w p q =
        let start =
          (IsSending-quiet _ (revocation-IsQuiet r)).sends w.sent w (Extends-refl w.sent) in
        bind-sends (revocation g r) _ w.sent w start (λ (acct, der, reason) h.
          let asked = revocation-IsRevocation r w acct der reason h in
          revoke-sends acct der reason w.sent (revocation g r w).1 start
            (λ k own. p acct der k asked own) (λ k own. q acct der k reason asked own))
