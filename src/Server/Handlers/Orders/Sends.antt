-- ===== src/Server/Handlers/Orders/Sends.antt =====
-- What placing and polling orders sends upstream, and what a new order has passed before.
use acme_gateway.Prelude.{
  ℕ, String, false, ◌≡◌, ◌≢◌, refl, ap, ◌∙◌, List, [], ◌∷◌, Option, none, some, Result, ok, ◌==◌,
  eq_iff, arith,
}
use mathlib.Core.Path.{subst}
use acme_gateway.Model.{Account, Identifier, Order, ResourceMap}
use acme_gateway.Store.Db.{Db}
use acme_gateway.Model.Int.{ℤ, pos, negsuc}
use acme_gateway.Router.{Decision, resolve_upstream_profile}
use acme_gateway.Upstream.Types.{AcmeOrder, Client}
use acme_gateway.Upstream.Pool.{Pool, get_slot, get_client_for_account}
use acme_gateway.Server.Errors.{AcmeError, err_server_internal}
use acme_gateway.Server.Requests.{ParsedJws, accepted, resolve_account}
use acme_gateway.Server.World.{
  Gateway, World, NewOrderRequest, ClientChoice, in_slot, for_account, Sent, ◌>>=◌, or_refuse,
  refuse_if,
}
use acme_gateway.Server.World.Keeps.{IsQuiet, quiet_rules}
use acme_gateway.Server.World.Runs.{
  lift-accepted, pure-accepted, refuse_if-accepted, or_refuse-accepted,
}
use acme_gateway.Server.World.Sends.{
  IsSending, IsSending-pure, IsSending-bind, IsSending-lift, IsSending-pools, IsSending-refuse_if,
  sending_rules,
}
use acme_gateway.Server.Handlers.{nonnil, base_url}
use acme_gateway.Server.Handlers.Ownership.Laws.{nonnil-accepted}
use acme_gateway.Server.Handlers.Orders.{
  choose, has_none, chosen_client, order_choice, order_client, required_kid, verify_stored,
  new_order_request, decide, save_authz, save_authzs, record_resources, record_order, place_order,
  cert_mapping, cert_url, build_order_response, set_status, poll_order,
}

-- The client that serves an order: of the order's slot at its upstream, or, where it has no slot, of
-- the order's account there.
pub data IsClientOf (o : Order) : ClientChoice → Type 0 where
  slotted : (n : ℕ) → o.upstream_slot ≡ pos n → IsClientOf o (in_slot o.upstream_id (pos n))
  dedicated :
      (k : ℕ) → o.upstream_slot ≡ negsuc k → IsClientOf o (for_account o.upstream_id o.account_id)

order_choice-IsClientOf :
    (o : Order) (z : ℤ) → o.upstream_slot ≡ z → IsClientOf o (order_choice o z)
order_choice-IsClientOf o (pos n) h = slotted n h
order_choice-IsClientOf o (negsuc k) h = dedicated k h

module _ (g : Gateway) where
  -- What the pool answers, from some state of it and of the database: GetSlot for a slot,
  -- GetClientForAccount for an account.
  pub data IsAnswer : ClientChoice → Result Client → Type 0 where
    of_slot :
        (id : String) (slot : ℤ) (n : ℕ) (db : Db) (p : Pool)
        → IsAnswer (in_slot id slot) (get_slot g.cfg.upstreams (g.pool_env n) id slot db p).0
    of_account :
        (id account : String) (n : ℕ) (db : Db) (p : Pool)
        → IsAnswer
            (for_account id account)
            (get_client_for_account g.cfg.upstreams (g.pool_env n) id account db p).0

  choose-IsAnswer :
      (k : ClientChoice) (n : ℕ) (db : Db) (p : Pool) → IsAnswer k (choose g k n db p).0
  choose-IsAnswer (in_slot id slot) n db p = of_slot id slot n db p
  choose-IsAnswer (for_account id account) n db p = of_account id account n db p

  -- Taking this client is in the log's property, whatever the pool answers.
  abbrev pub Takes : (Sent → Type 0) → ClientChoice → Type 0
  Takes P k = (c : Result Client) → IsAnswer k c → P (Sent.takes_client k c)

  different : (s : String) → s == "" ≡ false → s ≢ ""
  different s h e = ground (arith, eq_iff s "")

  module _ {P : Sent → Type 0} where
    pub chosen_client-IsSending :
        (e : AcmeError) (k : ClientChoice) → Takes P k → IsSending P (chosen_client g e k)
    chosen_client-IsSending e k p =
        IsSending-bind _ _ (IsSending-pools k _ (λ n db q. p _ (choose-IsAnswer k n db q)))
          (λ r. IsSending-lift _)

    -- The client of an order is that of its slot or of its account.
    pub order_client-IsSending :
        (o : Order)
        → ((k : ClientChoice) → IsClientOf o k → Takes P k)
        → IsSending P (order_client g o)
    unfolding order_client
    order_client-IsSending o p =
        chosen_client-IsSending _ _ (p _ (order_choice-IsClientOf o o.upstream_slot refl))

    save_authzs-IsSending :
        (order_id : String) (urls : List String) → IsSending P (save_authzs g order_id urls)
    unfolding save_authzs
    save_authzs-IsSending order_id [] = IsSending-pure []
    save_authzs-IsSending order_id (url ∷ urls) =
        IsSending-bind _ _ (unfold save_authz in search sending_rules depth 40)
          (λ a. IsSending-bind _ _ (save_authzs-IsSending order_id urls) (λ rest. IsSending-pure _))

    record_resources-IsSending :
        (order_id : String) (req : NewOrderRequest) (up : AcmeOrder)
        → IsSending P (record_resources g order_id req up)
    unfolding record_resources
    record_resources-IsSending order_id req up =
        search (sending_rules, save_authzs-IsSending) depth 40

    record_order-IsSending :
        (acct : Account) (req : NewOrderRequest) (d : Decision) (up : AcmeOrder × String)
        → IsSending P (record_order g acct req d up)
    unfolding record_order
    record_order-IsSending acct req d (up, url) =
        search (sending_rules, record_resources-IsSending) depth 60

    cert_mapping-IsSending :
        (order_id url : String) (o : Option ResourceMap)
        → IsSending P (cert_mapping g order_id url o)
    cert_mapping-IsSending order_id url (some rm) = IsSending-pure _
    cert_mapping-IsSending order_id url none = search sending_rules depth 40

    cert_url-IsSending : (order_id url : String) → IsSending P (cert_url g order_id url)
    unfolding cert_url
    cert_url-IsSending order_id url = search (sending_rules, cert_mapping-IsSending) depth 40

    pub build_order_response-IsSending :
        (order_id : String) (up : AcmeOrder) → IsSending P (build_order_response g order_id up)
    unfolding build_order_response
    build_order_response-IsSending order_id up = search (sending_rules, cert_url-IsSending) depth 40

    pub set_status-IsSending : (id status : String) → IsSending P (set_status g id status)
    unfolding set_status
    set_status-IsSending id status = search sending_rules depth 40

    pub poll_order-IsSending :
        (o : Order)
        → ((k : ClientChoice) → IsClientOf o k → Takes P k)
        → P (Sent.polls o.upstream_order_url)
        → IsSending P (poll_order g o)
    unfolding poll_order
    poll_order-IsSending o p q =
        search
          (
            sending_rules, order_client-IsSending, set_status-IsSending,
            build_order_response-IsSending,
          )
          depth 40

    -- A new order goes to the upstream that it is routed to, if there is one.
    pub place_order-IsSending :
        (acct : Account) (req : NewOrderRequest)
        → ((decide g acct req).upstream_id ≢ ""
            → Takes P (for_account (decide g acct req).upstream_id acct.id))
        → ((decide g acct req).upstream_id ≢ ""
            → P (
                Sent.submits_order req.identifiers
                  (resolve_upstream_profile (decide g acct req) req.profile)))
        → IsSending P (place_order g acct req)
    unfolding place_order
    place_order-IsSending acct req p q =
        IsSending-refuse_if ((decide g acct req).upstream_id == "")
          (err_server_internal "no upstream matched and no default configured") _
          (λ no.
            let named = different (decide g acct req).upstream_id no in
            let p' = p named in
            let q' = q named in
            search (sending_rules, chosen_client-IsSending, record_order-IsSending) depth 40)

  -- A new order's request: of an account whose stored key has signed it, and for some identifiers.
  pub record IsOrdered (p : ParsedJws) (acct : Account) (req : NewOrderRequest) (w : World)
      : Type 0 where
    pub kid : p.embedded_jwk ≡ none
    pub known :
        (n : ℕ) × (resolve_account g.jose (base_url g) p (g.fault n) w.db ≡ accepted (some acct))
    pub signed :
        (key : String) × (g.jose.parse_public_key acct.public_key ≡ some key)
        × (g.jose.verify p.raw key ≡ ok tt)
    pub read : g.codec.new_order_request p.payload ≡ ok req
    pub named : req.identifiers ≢ []

  has_none-named : (is : List Identifier) → has_none is ≡ false → is ≢ []
  has_none-named [] h e = absurd (cc)
  has_none-named (i ∷ is) h e = absurd (cc)

  required_kid-accepted :
      (jwk : Option String) {u : Unit {0}} → required_kid jwk ≡ accepted u → jwk ≡ none
  required_kid-accepted none h = refl
  required_kid-accepted (some jwk) h = absurd (cc)

  verify_stored-accepted :
      (p : ParsedJws) (k : Option String) {u : Unit {0}}
      → verify_stored g p k ≡ accepted u
      → (key : String) × (k ≡ some key) × (g.jose.verify p.raw key ≡ ok tt)
  verify_stored-accepted p none h = absurd (cc)
  verify_stored-accepted p (some key) h = (key, refl, or_refuse-accepted _ _ h)

  pub new_order_request-IsOrdered :
      (p : ParsedJws) (w : World) (acct : Account) (req : NewOrderRequest)
      → (new_order_request g p w).0 ≡ accepted (acct, req)
      → IsOrdered p acct req w
  unfolding new_order_request ◌>>=◌
  new_order_request-IsOrdered p w acct req h =
      let (u1, kid, h1) = lift-accepted _ w (required_kid p.embedded_jwk) h in
      let (o, known, h2) =
        lift-accepted _ _ (resolve_account g.jose (base_url g) p (g.fault w.tick) w.db) h1 in
      let (a, is_some, h3) = lift-accepted _ _ (nonnil g o) h2 in
      let (u2, signed, h4) =
        lift-accepted _ _ (verify_stored g p (g.jose.parse_public_key a.public_key)) h3 in
      let (rq, read, h5) =
        lift-accepted _ _ (or_refuse _ (g.codec.new_order_request p.payload)) h4 in
      let (u3, some_names, h6) = lift-accepted _ _ (refuse_if (has_none rq.identifiers) _) h5 in
      subst (λ (y : Account × NewOrderRequest). IsOrdered p y.0 y.1 w)
        (pure-accepted _ (record w { tick = ℕ.suc w.tick }) h6)
        (record {
          kid = required_kid-accepted p.embedded_jwk kid;
          known = (_, known ∙ ap accepted (nonnil-accepted g o a is_some));
          signed = verify_stored-accepted p (g.jose.parse_public_key a.public_key) signed;
          read = or_refuse-accepted _ _ read;
          named = has_none-named rq.identifiers (refuse_if-accepted _ _ some_names);
        })

  pub new_order_request-IsQuiet : (p : ParsedJws) → IsQuiet (new_order_request g p)
  unfolding new_order_request
  new_order_request-IsQuiet p = search quiet_rules depth 60
