-- ===== src/Server/Handlers/Certs/Sends.antt =====
-- What serving and revoking a certificate sends, and who has asked for the revocation.
use acme_gateway.Prelude.{
  ℕ, String, Bool, true, false, ◌≡◌, List, [], ◌∷◌, Option, none, some, Result, ok, err,
}
use acme_gateway.Model.{Order, ResourceMap}
use acme_gateway.Store.Orders.{get_order}
use acme_gateway.Store.Resources.{get_resource}
use acme_gateway.Server.Requests.{HttpRequest, accepted}
use acme_gateway.Server.World.{Gateway, World, ClientChoice, Sent}
use acme_gateway.Server.World.Keeps.{IsQuiet, IsQuiet-pure, quiet_rules}
use acme_gateway.Server.World.Sends.{
  Extends, Extends-refl, IsSending, IsSending-pure, IsSending-bind, IsSending-quiet, bind-sends,
  finds_or-sends, sending_rules,
}
use acme_gateway.Server.Handlers.Shared.{validate_request-IsQuiet, verify_request-IsQuiet}
use acme_gateway.Server.Handlers.Orders.Sends.{order_client-IsSending, IsClientOf, Takes}
use acme_gateway.Server.Handlers.Certs.{
  reread, or_saved, ensure_gateway_cert_url, alternate_links, cache_fingerprint, fetch_cert,
  serve_cert, check_post, check_method, handle_cert,
}

module _ (g : Gateway) where
  -- The certificate's mapping is stored, and its order.
  pub record IsServed (id : String) (w : World) (rm : ResourceMap) (o : Order) : Type 0 where
    pub mapped : (n : ℕ) × (get_resource (g.fault n) id w.db ≡ ok (some rm))
    pub stored : (n : ℕ) × (get_order (g.fault n) rm.order_id w.db ≡ ok (some o))

  check_post-IsQuiet : (r : HttpRequest) → IsQuiet (check_post g r)
  unfolding check_post
  check_post-IsQuiet r =
      search (quiet_rules, validate_request-IsQuiet, verify_request-IsQuiet) depth 40

  check_method-IsQuiet : (is_post : Bool) (r : HttpRequest) → IsQuiet (check_method g is_post r)
  check_method-IsQuiet true r = check_post-IsQuiet r
  check_method-IsQuiet false r = IsQuiet-pure tt

  module _ {P : Sent → Type 0} where
    reread-IsSending :
        (order_id url : String) (r : Result (Unit {0})) → IsSending P (reread g order_id url r)
    reread-IsSending order_id url (err e) = IsSending-pure _
    reread-IsSending order_id url (ok u) = search sending_rules depth 40

    or_saved-IsSending :
        (order_id url : String) (r : Result (Option ResourceMap))
        → IsSending P (or_saved g order_id url r)
    or_saved-IsSending order_id url (err e) = IsSending-pure _
    or_saved-IsSending order_id url (ok (some rm)) = IsSending-pure _
    or_saved-IsSending order_id url (ok none) = search (sending_rules, reread-IsSending) depth 40

    ensure_gateway_cert_url-IsSending :
        (order_id url : String) → IsSending P (ensure_gateway_cert_url g order_id url)
    unfolding ensure_gateway_cert_url
    ensure_gateway_cert_url-IsSending order_id url =
        search (sending_rules, or_saved-IsSending) depth 40

    alternate_links-IsSending :
        (order_id : String) (urls : List String) → IsSending P (alternate_links g order_id urls)
    unfolding alternate_links
    alternate_links-IsSending order_id [] = IsSending-pure _
    alternate_links-IsSending order_id (url ∷ urls) =
        IsSending-bind _ _ (ensure_gateway_cert_url-IsSending order_id url) (λ u.
          IsSending-bind _ _ (alternate_links-IsSending order_id urls) (λ rest. IsSending-pure _))

    cache_fingerprint-IsSending :
        (id : String) (rm : ResourceMap) (o : Option String)
        → IsSending P (cache_fingerprint g id rm o)
    cache_fingerprint-IsSending id rm none = IsSending-pure _
    cache_fingerprint-IsSending id rm (some leaf) = search sending_rules depth 40

    fetch_cert-IsSending :
        (id : String) (rm : ResourceMap) (o : Order)
        → ((k : ClientChoice) → IsClientOf o k → Takes g P k)
        → P (Sent.fetches rm.upstream_url)
        → IsSending P (fetch_cert g id rm o)
    unfolding fetch_cert
    fetch_cert-IsSending id rm o p q =
        search
          (
            sending_rules, order_client-IsSending, cache_fingerprint-IsSending,
            alternate_links-IsSending,
          )
          depth 60

    pub serve_cert-sends :
        (id : String) (base : List Sent) (w : World)
        → Extends P base w.sent
        → ((rm : ResourceMap) (o : Order)
            → IsServed id w rm o
            → ((k : ClientChoice) → IsClientOf o k → Takes g P k))
        → ((rm : ResourceMap) (o : Order) → IsServed id w rm o → P (Sent.fetches rm.upstream_url))
        → Extends P base (serve_cert g id w).1.sent
    unfolding serve_cert
    serve_cert-sends id base w e p q =
        finds_or-sends _ (λ n db. get_resource (g.fault n) id db) _ base w e
          (λ rm mapped.
            finds_or-sends _ (λ n db. get_order (g.fault n) rm.order_id db) _ base _ e
              (λ o stored.
                let served : IsServed id w rm o = record {
                  mapped = (_, mapped);
                  stored = (_, stored);
                } in
                (fetch_cert-IsSending id rm o (p rm o served) (q rm o served)).sends base _ e))

    pub handle_cert-sends :
        (is_post : Bool) (r : HttpRequest) (id : String) (w : World)
        → ((rm : ResourceMap) (o : Order)
            → (check_method g is_post r w).0 ≡ accepted tt
            → IsServed id (check_method g is_post r w).1 rm o
            → ((k : ClientChoice) → IsClientOf o k → Takes g P k))
        → ((rm : ResourceMap) (o : Order)
            → (check_method g is_post r w).0 ≡ accepted tt
            → IsServed id (check_method g is_post r w).1 rm o
            → P (Sent.fetches rm.upstream_url))
        → Extends P w.sent (handle_cert g is_post r id w).1.sent
    unfolding handle_cert
    handle_cert-sends is_post r id w p q =
        let start =
          (IsSending-quiet _ (check_method-IsQuiet is_post r)).sends w.sent w
            (Extends-refl w.sent) in
        bind-sends (check_method g is_post r) _ w.sent w start (λ u h.
          serve_cert-sends id w.sent (check_method g is_post r w).1 start (λ rm o. p rm o h)
            (λ rm o. q rm o h))
