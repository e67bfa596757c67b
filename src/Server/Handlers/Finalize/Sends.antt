-- ===== src/Server/Handlers/Finalize/Sends.antt =====
-- What finalizing an order sends: a CSR that the order admits, to the order's own upstream.
use mathlib.Core.Path.{subst}
use acme_gateway.Prelude.{
  String, Bool, true, false, not, ◌&&◌, ◌≡◌, ◌⊎◌, inl, inr, refl, ok, ◌==◌, eq_iff, arith,
  equal_fold,
}
use acme_gateway.Model.{Order}
use acme_gateway.Upstream.Types.{AcmeOrder, Called}
use acme_gateway.Server.Requests.{accepted}
use acme_gateway.Server.World.{Gateway, World, ClientChoice, Sent, or_refuse, refuse_if}
use acme_gateway.Server.World.Keeps.{IsQuiet, quiet_rules}
use acme_gateway.Server.World.Runs.{
  lift-accepted, pure-accepted, refuse_if-accepted, or_refuse-accepted,
}
use acme_gateway.Server.World.Sends.{IsSending, IsSending-then, sending_rules}
use acme_gateway.Server.Handlers.Ownership.{Owned}
use acme_gateway.Server.Handlers.Orders.Sends.{
  order_client-IsSending, IsClientOf, Takes, build_order_response-IsSending, set_status-IsSending,
}
use acme_gateway.Server.Handlers.Finalize.{
  has_wrong_key_type, accepted_csr, finalized, finalize_order,
}

module _ (g : Gateway) where
  -- The payload has this CSR, which parses, and whose key is of the type that the order requires, up
  -- to case, where it requires one.
  pub record HasCsr (x : Owned) (der : String) : Type 0 where
    pub csr : String
    pub kt : String
    pub read : g.codec.finalize_request x.parsed.payload ≡ ok csr
    pub decoded : g.codec.base64_decode csr ≡ ok der
    pub parses : g.codec.csr_key_type der ≡ ok kt
    pub admitted :
        (x.order.require_csr_key_type ≡ "") ⊎ (equal_fold kt x.order.require_csr_key_type ≡ true)

  right_key_type :
      (required : String) (same : Bool)
      → not (required == "") && not same ≡ false
      → (required ≡ "") ⊎ (same ≡ true)
  right_key_type required true h = inr refl
  right_key_type required false h = inl (ground (arith, eq_iff required ""))

  accepted_csr-HasCsr :
      (x : Owned) (w : World) (der : String) → (accepted_csr g x w).0 ≡ accepted der → HasCsr x der
  unfolding accepted_csr
  accepted_csr-HasCsr x w der h =
      let (csr, read, h1) =
        lift-accepted _ w (or_refuse _ (g.codec.finalize_request x.parsed.payload)) h in
      let (u1, given, h2) = lift-accepted _ w (refuse_if (csr == "") _) h1 in
      let (d, decoded, h3) = lift-accepted _ w (or_refuse _ (g.codec.base64_decode csr)) h2 in
      let (kt, parses, h4) = lift-accepted _ w (or_refuse _ (g.codec.csr_key_type d)) h3 in
      let (u2, admitted, h5) = lift-accepted _ w (refuse_if (has_wrong_key_type x.order kt) _) h4 in
      subst (HasCsr x) (pure-accepted _ w h5) (record {
        csr = csr;
        kt = kt;
        read = or_refuse-accepted _ _ read;
        decoded = or_refuse-accepted _ _ decoded;
        parses = or_refuse-accepted _ _ parses;
        admitted =
            right_key_type x.order.require_csr_key_type (equal_fold kt x.order.require_csr_key_type)
              (refuse_if-accepted _ _ admitted);
      })

  accepted_csr-IsQuiet : (x : Owned) → IsQuiet (accepted_csr g x)
  unfolding accepted_csr
  accepted_csr-IsQuiet x = search quiet_rules depth 60

  finalized-IsSending :
      {P : Sent → Type 0} (o : Order) (up : Called AcmeOrder) → IsSending P (finalized g o up)
  unfolding finalized
  finalized-IsSending o (Called.broken e) = search (sending_rules, set_status-IsSending) depth 40
  finalized-IsSending o (Called.returned up) =
      search (sending_rules, set_status-IsSending, build_order_response-IsSending) depth 40

  pub finalize_order-IsSending :
      {P : Sent → Type 0} (x : Owned)
      → ((der : String) → HasCsr x der → ((k : ClientChoice) → IsClientOf x.order k → Takes g P k))
      → ((der : String) → HasCsr x der → P (Sent.finalizes x.rm.upstream_url der))
      → IsSending P (finalize_order g x)
  unfolding finalize_order
  finalize_order-IsSending x p q =
      IsSending-then (accepted_csr g x) _ (accepted_csr-IsQuiet x) (λ w der h.
        let good = accepted_csr-HasCsr x w der h in
        let p' = p der good in
        let q' = q der good in
        search (sending_rules, order_client-IsSending, finalized-IsSending) depth 40)
