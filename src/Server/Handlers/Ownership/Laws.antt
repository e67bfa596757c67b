-- ===== src/Server/Handlers/Ownership/Laws.antt =====
-- Who has passed the beginning of a handler: a signed request of the account that owns the order.
use acme_gateway.Prelude.{
  ℕ, String, false, not, ◌≡◌, ◌∙◌, ap, arith, eq_iff, ◌==◌, Option, none, some, ok,
}
use mathlib.Core.Path.{subst}
use acme_gateway.Model.{Account, Order}
use acme_gateway.Store.Orders.{get_order}
use acme_gateway.Store.Resources.{get_resource}
use acme_gateway.Server.Errors.{AcmeError}
use acme_gateway.Server.Requests.{ParsedJws, HttpRequest, accepted, resolve_and_verify}
use acme_gateway.Server.World.{Gateway, World, Act, lift, ◌>>=◌, refuse_if}
use acme_gateway.Server.World.Keeps.{IsQuiet, quiet_rules}
use acme_gateway.Server.World.Runs.{
  bind-accepted, pure-accepted, finds_or-accepted, lift-accepted, refuse_if-accepted,
}
use acme_gateway.Server.Handlers.{validate_request, verify_request, nonnil, base_url}
use acme_gateway.Server.Handlers.Shared.{validate_request-IsQuiet, verify_request-IsQuiet}
use acme_gateway.Server.Handlers.Ownership.{OwnedOrder, Owned, Words, owned_order, owned_resource}

module _ (g : Gateway) where
  -- The request is valid in this state; `db` is what it leaves, where its nonce is gone. Its
  -- signature is verified there, and the order is of the account that signed.
  pub record IsOwner (r : HttpRequest) (w : World) (p : ParsedJws) (acct : Account)
      (order_id : String) (o : Order) : Type 0 where
    pub valid : (validate_request g r w).0 ≡ accepted p
    pub signed :
        (n : ℕ) × (resolve_and_verify g.jose
            (base_url g)
            p
            (g.fault n)
            (validate_request g r w).1.db
          ≡ accepted (some acct))
    pub stored :
        (n : ℕ) × (get_order (g.fault n) order_id (validate_request g r w).1.db ≡ ok (some o))
    pub owned : o.account_id ≡ acct.id

  pub nonnil-accepted :
      (o : Option Account) (acct : Account) → nonnil g o ≡ accepted acct → o ≡ some acct
  nonnil-accepted none acct h = absurd (cc)
  nonnil-accepted (some a) acct h = cc

  equal_ids : (a b : String) → not (a == b) ≡ false → a ≡ b
  equal_ids a b h = ground (arith, eq_iff a b)

  pub owned_order-IsQuiet : (r : HttpRequest) (id : String) → IsQuiet (owned_order g r id)
  unfolding owned_order
  owned_order-IsQuiet r id =
      search (quiet_rules, validate_request-IsQuiet, verify_request-IsQuiet) depth 40

  pub owned_resource-IsQuiet :
      (words : Words) (r : HttpRequest) (id : String) → IsQuiet (owned_resource g words r id)
  unfolding owned_resource
  owned_resource-IsQuiet words r id =
      search (quiet_rules, validate_request-IsQuiet, verify_request-IsQuiet) depth 40

  -- the end that both beginnings share
  checked_owner :
      (B : Type 0) (f : Account → Act B) (w : World) (b : B) (e : AcmeError) (o : Option Account)
      (order : Order)
      → ((lift (nonnil g o)
            >>= (λ acct. lift (refuse_if (not (order.account_id == acct.id)) e) >>= (λ _. f acct)))
          w).0
        ≡ accepted b
      → (acct : Account) × (o ≡ some acct)
        × (order.account_id ≡ acct.id)
        × ((f acct w).0 ≡ accepted b)
  checked_owner B f w b e o order h =
      let (acct, is_some, h2) = lift-accepted _ w (nonnil g o) h in
      let (u, same, h3) = lift-accepted _ w (refuse_if (not (order.account_id == acct.id)) e) h2 in
      (
        acct,
        nonnil-accepted o acct is_some,
        equal_ids order.account_id acct.id (refuse_if-accepted _ e same),
        h3,
      )

  verified-accepted :
      (B : Type 0) (f : Option Account → Act B) (w : World) (b : B) (p : ParsedJws)
      → ((verify_request g p >>= f) w).0 ≡ accepted b
      → (o : Option Account) × (resolve_and_verify g.jose (base_url g) p (g.fault w.tick) w.db
          ≡ accepted o)
        × ((f o (record w { tick = ℕ.suc w.tick })).0 ≡ accepted b)
  unfolding verify_request ◌>>=◌
  verified-accepted B f w b p h =
      lift-accepted f (record w { tick = ℕ.suc w.tick })
        (resolve_and_verify g.jose (base_url g) p (g.fault w.tick) w.db) h

  -- A handler that goes on to an order has been asked by its owner.
  pub owned_order-IsOwner :
      (r : HttpRequest) (id : String) (w : World) (x : OwnedOrder)
      → (owned_order g r id w).0 ≡ accepted x
      → IsOwner r w x.parsed x.acct id x.order
  unfolding owned_order
  owned_order-IsOwner r id w x h =
      let (p, valid, h1) = bind-accepted (validate_request g r) _ w h in
      let (o, signed, h2) = verified-accepted OwnedOrder _ _ x p h1 in
      let (order, stored, h3) = finds_or-accepted _ _ _ _ h2 in
      let (acct, is_some, same, h4) = checked_owner OwnedOrder _ _ x _ o order h3 in
      subst (λ y. IsOwner r w y.parsed y.acct id y.order) (pure-accepted _ _ h4)
        (record {
          valid = valid;
          signed = (_, signed ∙ ap accepted is_some);
          stored = (_, stored);
          owned = same;
        })

  -- The resource of the request's URL is stored, and the owner of its order has asked.
  pub IsOwnerOf : HttpRequest → World → String → Owned → Type 0
  IsOwnerOf r w id x =
      ((n : ℕ) × (get_resource (g.fault n) id (validate_request g r w).1.db ≡ ok (some x.rm)))
      × IsOwner r w x.parsed x.acct x.rm.order_id x.order

  pub owned_resource-IsOwnerOf :
      (words : Words) (r : HttpRequest) (id : String) (w : World) (x : Owned)
      → (owned_resource g words r id w).0 ≡ accepted x
      → IsOwnerOf r w id x
  unfolding owned_resource IsOwnerOf
  owned_resource-IsOwnerOf words r id w x h =
      let (p, valid, h1) = bind-accepted (validate_request g r) _ w h in
      let (o, signed, h2) = verified-accepted Owned _ _ x p h1 in
      let (rm, mapped, h3) = finds_or-accepted _ _ _ _ h2 in
      let (order, stored, h4) = finds_or-accepted _ _ _ _ h3 in
      let (acct, is_some, same, h5) = checked_owner Owned _ _ x _ o order h4 in
      subst (IsOwnerOf r w id) (pure-accepted _ _ h5) (
        (_, mapped),
        record {
          valid = valid;
          signed = (_, signed ∙ ap accepted is_some);
          stored = (_, stored);
          owned = same;
        },
      )
