-- ===== src/Server/Handlers/Orders/Binding.antt =====
-- A placed order is bound to the client that placed it.
use acme_gateway.Prelude.{ℕ, String, ◌≡◌, refl, sym, ◌∙◌, List, [], ◌∷◌, ok, ◌==◌}
use mathlib.Core.Path.{subst}
use acme_gateway.Model.{Account, Order}
use acme_gateway.Model.Int.{negsuc}
use acme_gateway.Router.{resolve_upstream_profile}
use acme_gateway.Store.Db.{Db}
use acme_gateway.Upstream.Types.{AcmeOrder, Client, Called, CallError, returned}
use acme_gateway.Upstream.Pool.{Pool, get_client_for_account}
use acme_gateway.Upstream.Pool.Laws.{get_client_for_account-again}
use acme_gateway.Server.Errors.{AcmeError, err_server_internal}
use acme_gateway.Server.Requests.{accepted}
use acme_gateway.Server.World.{
  Gateway, World, NewOrderRequest, ClientChoice, for_account, Sent, ◌>>=◌, lift, refuse_if, call_or,
}
use acme_gateway.Server.World.Keeps.{KeepsPool, KeepsPool-pure, KeepsPool-bind, pool_rules}
use acme_gateway.Server.World.Runs.{bind-ends, or_refuse-accepted, or_relay-accepted}
use acme_gateway.Server.Handlers.{Response}
use acme_gateway.Server.Handlers.Orders.{
  choose, chosen_client, decide, save_authz, save_authzs, record_resources, record_order,
  submit_error, place_order, order_client,
}
use acme_gateway.Server.Handlers.Orders.Records.{IsPlaced, place_order-IsPlaced}

module _ (g : Gateway) where
  save_authzs-KeepsPool :
      (order_id : String) (urls : List String) → KeepsPool (save_authzs g order_id urls)
  unfolding save_authzs
  save_authzs-KeepsPool order_id [] = KeepsPool-pure []
  save_authzs-KeepsPool order_id (url ∷ urls) =
      KeepsPool-bind _ _ (unfold save_authz in search pool_rules depth 40)
        (λ a. KeepsPool-bind _ _ (save_authzs-KeepsPool order_id urls) (λ rest. KeepsPool-pure _))

  record_resources-KeepsPool :
      (order_id : String) (req : NewOrderRequest) (up : AcmeOrder)
      → KeepsPool (record_resources g order_id req up)
  unfolding record_resources
  record_resources-KeepsPool order_id req up = search (pool_rules, save_authzs-KeepsPool) depth 40

  record_order-KeepsPool :
      (acct : Account) (req : NewOrderRequest) (up : AcmeOrder) (url : String)
      → KeepsPool (record_order g acct req (decide g acct req) (up, url))
  unfolding record_order
  record_order-KeepsPool acct req up url = search (pool_rules, record_resources-KeepsPool) depth 60

  -- The order was submitted with a client that the pool gave for the account at the upstream, and
  -- which the pool still has.
  pub record IsSubmittedBy (acct : Account) (req : NewOrderRequest) (c : Client) (pool : Pool)
      : Type 0 where
    pub n : ℕ
    pub m : ℕ
    pub db : Db
    pub p : Pool
    pub up : AcmeOrder
    pub url : String
    pub given :
        (get_client_for_account g.cfg.upstreams
          (g.pool_env n)
          (decide g acct req).upstream_id
          acct.id
          db
          p).0
        ≡ ok c
    pub kept :
        pool
        ≡ (get_client_for_account g.cfg.upstreams
            (g.pool_env n)
            (decide g acct req).upstream_id
            acct.id
            db
            p).1
    pub submitted :
        g.ca.submit_order m c req.identifiers
          (resolve_upstream_profile (decide g acct req) req.profile)
        ≡ returned (up, url)

  -- What a client that is taken is, and what the pool is then.
  chosen_client-given :
      (e : AcmeError) (k : ClientChoice) (w : World) (c : Client)
      → (chosen_client g e k w).0 ≡ accepted c
      → (choose g k w.tick w.db w.pool).0 ≡ ok c
  unfolding ◌>>=◌
  chosen_client-given e k w c h = or_refuse-accepted _ _ h

  chosen_client-pool :
      (e : AcmeError) (k : ClientChoice) (w : World)
      → (chosen_client g e k w).1.pool ≡ (choose g k w.tick w.db w.pool).1
  unfolding ◌>>=◌
  chosen_client-pool e k w = refl

  call_or-returned :
      {A : Type 0} (e : CallError → AcmeError) (s : Sent) (f : ℕ → Called A) (w : World) (a : A)
      → (call_or e s f w).0 ≡ accepted a
      → f w.tick ≡ returned a
  unfolding ◌>>=◌
  call_or-returned e s f w a h = or_relay-accepted _ _ h

  call_or-pool :
      {A : Type 0} (e : CallError → AcmeError) (s : Sent) (f : ℕ → Called A) (w : World)
      → (call_or e s f w).1.pool ≡ w.pool
  unfolding ◌>>=◌
  call_or-pool e s f w = refl

  place_order-IsSubmittedBy :
      (acct : Account) (req : NewOrderRequest) (w : World) (resp : Response)
      → (place_order g acct req w).0 ≡ accepted resp
      → (c : Client) × IsSubmittedBy acct req c (place_order g acct req w).1.pool
  unfolding place_order
  place_order-IsSubmittedBy acct req w resp =
      let d = decide g acct req in
      let account = for_account d.upstream_id acct.id in
      let profile = resolve_upstream_profile d req.profile in
      let unmatched = err_server_internal "no upstream matched and no default configured" in
      let unavailable = err_server_internal "upstream account unavailable" in
      let Submitted : World → Type 0 = λ v. (c : Client) × IsSubmittedBy acct req c v.pool in
      bind-ends (lift (refuse_if (d.upstream_id == "") unmatched)) _ w Submitted (λ u named.
        let w1 = (lift (refuse_if (d.upstream_id == "") unmatched) w).1 in
        bind-ends (chosen_client g unavailable account) _ w1 Submitted (λ client taken.
          let w2 = (chosen_client g unavailable account w1).1 in
          bind-ends
            (call_or (submit_error g) (Sent.submits_order req.identifiers profile)
              (λ n. g.ca.submit_order n client req.identifiers profile))
            _ w2 Submitted
            (λ (up, url) sent done. (
              client,
              record {
                n = w1.tick;
                m = w2.tick;
                db = w1.db;
                p = w1.pool;
                up = up;
                url = url;
                given = chosen_client-given unavailable account w1 client taken;
                kept =
                    (record_order-KeepsPool acct req up url).same _
                    ∙ call_or-pool _ _ _ w2
                    ∙ chosen_client-pool unavailable account w1;
                submitted = call_or-returned _ _ _ w2 (up, url) sent;
              },
            ))))

  -- From any state with this pool, the client of the placed order is the one that submitted it.
  pub record IsBound (acct : Account) (req : NewOrderRequest) (resp : Response) (db : Db)
      (v : World) : Type 0 where
    pub c : Client
    pub m : ℕ
    pub up : AcmeOrder
    pub url : String
    pub submitted :
        g.ca.submit_order m c req.identifiers
          (resolve_upstream_profile (decide g acct req) req.profile)
        ≡ returned (up, url)
    pub placed : IsPlaced g acct req resp db
    pub serves : (order_client g placed.o v).0 ≡ accepted c

  same_client :
      (acct : Account) (req : NewOrderRequest) (c : Client) (o : Order) (v : World)
      → IsSubmittedBy acct req c v.pool
      → o.upstream_slot ≡ negsuc 0
      → o.upstream_id ≡ (decide g acct req).upstream_id
      → o.account_id ≡ acct.id
      → (order_client g o v).0 ≡ accepted c
  unfolding order_client ◌>>=◌
  same_client acct req c o v by slot up owned =
      rw
        (
          slot,
          up,
          owned,
          by.kept,
          get_client_for_account-again g.cfg.upstreams (g.pool_env by.n) (g.pool_env v.tick)
              (decide g acct req).upstream_id acct.id by.db v.db by.p c by.given,
        )
        refl

  -- If a new order is answered, then the order of the response's URL is stored, and from any later
  -- state in which the pool is as the new order has left it, whatever the tables and the time, the
  -- client that serves that order is the one that the upstream order was submitted with.
  pub place_order-order_client :
      (acct : Account) (req : NewOrderRequest) (w v : World) (resp : Response)
      → (place_order g acct req w).0 ≡ accepted resp
      → v.pool ≡ (place_order g acct req w).1.pool
      → IsBound acct req resp (place_order g acct req w).1.db v
  place_order-order_client acct req w v resp h same =
      let (c, by) = place_order-IsSubmittedBy acct req w resp h in
      let by_then = subst (IsSubmittedBy acct req c) (sym same) by in
      let placed = place_order-IsPlaced g acct req w resp h in
      record {
        c = c;
        m = by.m;
        up = by.up;
        url = by.url;
        submitted = by.submitted;
        placed = placed;
        serves =
            same_client acct req c placed.o v by_then placed.by_account placed.upstream
              placed.owned;
      }
