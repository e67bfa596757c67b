-- ===== src/Server/Handlers/Orders/Records.antt =====
-- A new order is stored with the decision of the routing.
use acme_gateway.Prelude.{
  ℕ, String, ◌≡◌, refl, sym, ap, ◌∙◌, List, [], ◌∷◌, Option, none, some, ok, ◌<>◌, ◌==◌, eq_refl,
  arith,
}
use acme_gateway.Model.{Account, Order, ResourceMap}
use acme_gateway.Model.Int.{negsuc}
use acme_gateway.Store.Db.{Db}
use acme_gateway.Store.Orders.{save_order, get_order}
use acme_gateway.Store.Orders.Laws.{stored, get_order-save_order}
use acme_gateway.Store.Resources.{save_resource}
use acme_gateway.Upstream.Types.{AcmeOrder}
use acme_gateway.Server.Requests.{accepted}
use acme_gateway.Server.World.{
  Gateway, World, NewOrderRequest, ◌>>=◌, lift, ask, writes_or, or_refuse, refuse_if, call_or,
}
use acme_gateway.Server.World.Keeps.{KeepsOrders, KeepsOrders-pure, KeepsOrders-bind, orders_rules}
use acme_gateway.Server.World.Runs.{bind-ends, bind-accepted, pure-accepted, or_refuse-accepted}
use acme_gateway.Server.Handlers.{Response, base_url}
use acme_gateway.Server.Handlers.Orders.{
  chosen_client, decide, save_authz, save_authzs, record_resources, new_order_row, record_order,
  place_order,
}

save_resource-orders :
    (f : Option String) (r : ResourceMap) (db : Db) → (save_resource f r db).1.orders ≡ db.orders
unfolding save_resource
save_resource-orders none r db = ground arith
save_resource-orders (some e) r db = refl

same_orders :
    (id : String) (a b : Db) → a.orders ≡ b.orders → get_order none id a ≡ get_order none id b
unfolding get_order
same_orders id a b e = rw e refl

module _ (g : Gateway) where
  save_authzs-KeepsOrders :
      (order_id : String) (urls : List String) → KeepsOrders (save_authzs g order_id urls)
  unfolding save_authzs
  save_authzs-KeepsOrders order_id [] = KeepsOrders-pure []
  save_authzs-KeepsOrders order_id (url ∷ urls) =
      KeepsOrders-bind _ _
        (unfold save_authz in search (orders_rules, save_resource-orders) depth 40)
        (λ a.
          KeepsOrders-bind _ _ (save_authzs-KeepsOrders order_id urls) (λ rest. KeepsOrders-pure _))

  record_resources-KeepsOrders :
      (order_id : String) (req : NewOrderRequest) (up : AcmeOrder)
      → KeepsOrders (record_resources g order_id req up)
  unfolding record_resources
  record_resources-KeepsOrders order_id req up =
      search (orders_rules, save_resource-orders, save_authzs-KeepsOrders) depth 40

  record_resources-location :
      (order_id : String) (req : NewOrderRequest) (up : AcmeOrder) (w : World) (resp : Response)
      → (record_resources g order_id req up w).0 ≡ accepted resp
      → resp.location ≡ base_url g <> "/order/" <> order_id
  unfolding record_resources
  record_resources-location order_id req up w resp h =
      let (finalize_id, e1, h1) = bind-accepted (ask g.uuid) _ w h in
      let (u, e2, h2) = bind-accepted (writes_or _ _) _ _ h1 in
      let (authzs, e3, h3) = bind-accepted (save_authzs g order_id up.authorizations) _ _ h2 in
      ap (λ (x : Response). x.location) (sym (pure-accepted _ _ h3))

  -- The order of the response's URL is stored: the account's, at the upstream and with the key type
  -- that the routing decided on.
  pub record IsPlaced (acct : Account) (req : NewOrderRequest) (resp : Response) (db : Db)
      : Type 0 where
    pub order_id : String
    pub o : Order
    pub location : resp.location ≡ base_url g <> "/order/" <> order_id
    pub stored : get_order none order_id db ≡ ok (some o)
    pub owned : o.account_id ≡ acct.id
    pub upstream : o.upstream_id ≡ (decide g acct req).upstream_id
    pub constrained : o.require_csr_key_type ≡ (decide g acct req).require_csr_key_type
    pub by_account : o.upstream_slot ≡ negsuc 0

  stored_order :
      (f : Option String) (o : Order) (db : Db)
      → (save_order f o db).0 ≡ ok tt
      → (x : Order) × (get_order none o.id (save_order f o db).1 ≡ ok (some x))
        × (x.account_id ≡ o.account_id)
        × (x.upstream_id ≡ o.upstream_id)
        × (x.require_csr_key_type ≡ o.require_csr_key_type)
        × (x.upstream_slot ≡ o.upstream_slot)
  stored_order f o db h = (
    stored o,
    get_order-save_order f o db h o.id ∙ rw (eq_refl o.id) refl,
    refl,
    refl,
    refl,
    refl,
  )

  record_order-IsPlaced :
      (acct : Account) (req : NewOrderRequest) (up : AcmeOrder) (url : String) (w : World)
      (resp : Response)
      → (record_order g acct req (decide g acct req) (up, url) w).0 ≡ accepted resp
      → IsPlaced acct req resp (record_order g acct req (decide g acct req) (up, url) w).1.db
  unfolding record_order ◌>>=◌
  record_order-IsPlaced acct req up url w resp =
      let id = g.uuid w.tick in
      bind-ends (lift (or_refuse _ (g.codec.identifiers_json req.identifiers))) _
        (record w { tick = ℕ.suc w.tick }) (λ v. IsPlaced acct req resp v.db)
        (λ json text.
          let o =
            new_order_row g id acct req (decide g acct req) up url json (g.now (ℕ.suc w.tick))
              (g.now (ℕ.suc (ℕ.suc w.tick))) in
          bind-ends (writes_or _ (λ n db. save_order (g.fault n) o db)) _
            (record w { tick = ℕ.suc (ℕ.suc (ℕ.suc w.tick)) }) (λ v. IsPlaced acct req resp v.db)
            (λ u saved done.
              let (x, there, owned, upstream, constrained, slot) =
                stored_order _ o w.db (or_refuse-accepted _ _ saved) in
              record {
                order_id = id;
                o = x;
                location = record_resources-location id req up _ resp done;
                stored =
                    same_orders id _ _ ((record_resources-KeepsOrders id req up).same _) ∙ there;
                owned = owned;
                upstream = upstream;
                constrained = constrained;
                by_account = slot;
              }))

  -- If a new order is answered, then the order of the response's URL is stored as the account's own,
  -- with the upstream that the routing gives and the key type that the routing requires of its CSR,
  -- and is bound to the account's own client there.
  pub place_order-IsPlaced :
      (acct : Account) (req : NewOrderRequest) (w : World) (resp : Response)
      → (place_order g acct req w).0 ≡ accepted resp
      → IsPlaced acct req resp (place_order g acct req w).1.db
  unfolding place_order
  place_order-IsPlaced acct req w resp =
      bind-ends (lift (refuse_if ((decide g acct req).upstream_id == "") _)) _ w
        (λ v. IsPlaced acct req resp v.db)
        (λ u named.
          bind-ends (chosen_client g _ _) _ _ (λ v. IsPlaced acct req resp v.db)
            (λ client taken.
              bind-ends (call_or _ _ _) _ _ (λ v. IsPlaced acct req resp v.db)
                (λ (up, url) sent done. record_order-IsPlaced acct req up url _ resp done)))
