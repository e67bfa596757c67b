-- ===== src/Server/Handlers/Certs/Revokers.antt =====
-- The client of a revocation, and the owner of the certificate's order.
use mathlib.Core.Path.{subst}
use acme_gateway.Prelude.{
  ℕ, String, Bool, true, false, ◌≡◌, refl, Option, none, some, Result, ok, err, ◌==◌, eq_iff, arith,
  if◌then◌else◌,
}
use acme_gateway.Model.{Account, Order, ResourceMap}
use acme_gateway.Model.Int.{ℤ, pos, negsuc, is_negative}
use acme_gateway.Store.Db.{Db}
use acme_gateway.Store.Orders.{get_order}
use acme_gateway.Store.Resources.{get_resource_by_cert_fingerprint}
use acme_gateway.Server.Requests.{accepted}
use acme_gateway.Server.World.{Gateway, World, ClientChoice, in_slot, for_account, ◌>>=◌}
use acme_gateway.Server.World.Runs.{same_value}
use acme_gateway.Server.Handlers.Orders.Sends.{IsClientOf, slotted, dedicated}
use acme_gateway.Server.Handlers.Certs.{
  Revoker, revoker_choice, is_other, default_revoker, by_order, by_resource, find_revoker,
}

module _ (g : Gateway) where
  abbrev order_or_none : Result (Option Order) → Option Order
  order_or_none (ok o) = o
  order_or_none (err e) = none

  -- The order of a certificate's mapping.
  abbrev mapped_order : ℕ → Db → Result (Option ResourceMap) → Option Order
  mapped_order n db (ok (some rm)) = order_or_none (get_order (g.fault n) rm.order_id db)
  mapped_order n db (ok none) = none
  mapped_order n db (err e) = none

  -- The order of the certificate with this fingerprint, as two lookups find it.
  pub order_of_cert : ℕ → ℕ → String → Db → Option Order
  order_of_cert n m fp db = mapped_order m db (get_resource_by_cert_fingerprint (g.fault n) fp db)

  -- Who asks with a kid is the order's account.
  pub data IsOwnerOrKey (o : Order) : Option Account → Type 0 where
    key : IsOwnerOrKey o none
    account : (a : Account) → o.account_id ≡ a.id → IsOwnerOrKey o (some a)

  -- The client that revokes a certificate of an order: the one that serves the order, and, where its
  -- account has no name, that of its slot, whatever its number.
  pub data IsRevokersClient (o : Order) : ClientChoice → Type 0 where
    serving : {k : ClientChoice} → IsClientOf o k → IsRevokersClient o k
    nameless :
        (z : ℤ)
        → o.upstream_slot ≡ z
        → o.account_id ≡ ""
        → IsRevokersClient o (in_slot o.upstream_id z)

  -- The client of a revocation, for the certificate's order as the lookups find it: a client of that
  -- order, which an account that asks owns; the default upstream's first where they find none.
  pub data IsOwn (acct : Option Account) : ClientChoice → Option Order → Type 0 where
    known :
        {k : ClientChoice} (o : Order)
        → IsRevokersClient o k
        → IsOwnerOrKey o acct
        → IsOwn acct k (some o)
    unknown : IsOwn acct (in_slot g.cfg.routing.default_upstream (pos 0)) none

  owner : (acct : Option Account) (o : Order) → is_other g acct o ≡ false → IsOwnerOrKey o acct
  owner none o h = key
  owner (some a) o h = account a (ground (arith, eq_iff o.account_id a.id))

  negative_choice :
      (o : Order) (k : ℕ) (b : Bool)
      → o.upstream_slot ≡ negsuc k
      → (o.account_id == "") ≡ b
      → IsRevokersClient o
          (if b then in_slot o.upstream_id (negsuc k) else for_account o.upstream_id o.account_id)
  negative_choice o k true h e = nameless (negsuc k) h ((eq_iff o.account_id "").0 e)
  negative_choice o k false h e = serving (dedicated k h)

  -- What the revoker of an order asks of the pool, by the order's slot.
  choice_at :
      (o : Order) (z : ℤ)
      → o.upstream_slot ≡ z
      → IsRevokersClient o (
          revoker_choice g (record {
            upstream_id = o.upstream_id;
            slot = z;
            account_id = if is_negative z then o.account_id else "";
          }))
  choice_at o (pos n) h = serving (slotted n h)
  choice_at o (negsuc k) h = negative_choice o k (o.account_id == "") h refl

  by_order-known :
      (acct : Option Account) (o : Order) (v : Revoker g) (s : Bool)
      → is_other g acct o ≡ s
      → by_order g acct (ok (some o)) ≡ accepted v
      → IsOwn acct (revoker_choice g v) (some o)
  by_order-known acct o v true e h = absurd (let k = rw e at h in cc)
  by_order-known acct o v false e h =
      let k = rw e at h in
      subst (λ (x : Revoker g). IsOwn acct (revoker_choice g x) (some o)) (same_value k)
        (known o (choice_at o o.upstream_slot refl) (owner acct o e))

  of_default :
      (acct : Option Account) (v : Revoker g)
      → accepted (default_revoker g) ≡ accepted v
      → IsOwn acct (revoker_choice g v) none
  of_default acct v h =
      subst (λ (x : Revoker g). IsOwn acct (revoker_choice g x) none) (same_value h) unknown

  by_order-IsOwn :
      (acct : Option Account) (r : Result (Option Order)) (v : Revoker g)
      → by_order g acct r ≡ accepted v
      → IsOwn acct (revoker_choice g v) (order_or_none r)
  by_order-IsOwn acct (ok (some o)) v h = by_order-known acct o v (is_other g acct o) refl h
  by_order-IsOwn acct (ok none) v h = of_default acct v h
  by_order-IsOwn acct (err e) v h = of_default acct v h

  by_resource-IsOwn :
      (acct : Option Account) (m : Result (Option ResourceMap)) (w : World) (v : Revoker g)
      → (by_resource g acct m w).0 ≡ accepted v
      → IsOwn acct (revoker_choice g v) (mapped_order w.tick w.db m)
  unfolding ◌>>=◌
  by_resource-IsOwn acct (err e) w v h = of_default acct v h
  by_resource-IsOwn acct (ok none) w v h = of_default acct v h
  by_resource-IsOwn acct (ok (some rm)) w v h =
      by_order-IsOwn acct (get_order (g.fault w.tick) rm.order_id w.db) v h

  -- The certificate's order in this state, found by the next two lookups.
  pub found_order : String → World → Option Order
  found_order der w = order_of_cert w.tick (ℕ.suc w.tick) (g.codec.fingerprint der) w.db

  pub find_revoker-IsOwn :
      (acct : Option Account) (w : World) (der : String) (v : Revoker g)
      → (find_revoker g acct (g.codec.fingerprint der) w).0 ≡ accepted v
      → IsOwn acct (revoker_choice g v) (found_order der w)
  unfolding find_revoker found_order order_of_cert ◌>>=◌
  find_revoker-IsOwn acct w der v h =
      by_resource-IsOwn acct
        (get_resource_by_cert_fingerprint (g.fault w.tick) (g.codec.fingerprint der) w.db)
        (record w { tick = ℕ.suc w.tick }) v h
