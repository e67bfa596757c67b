-- ===== src/Server/Handlers/Challenges/Sends.antt =====
-- What showing an authorization and answering a challenge sends.
use acme_gateway.Prelude.{
  ℕ, ◌≡◌, ◌⊎◌, inl, inr, refl, String, Bool, true, false, List, [], ◌∷◌, Option, none, some, Result,
  ok, err,
}
use acme_gateway.Model.{ResourceMap}
use acme_gateway.Store.Resources.{get_authz_resources_by_order_id}
use acme_gateway.Upstream.Types.{Challenge, Client}
use acme_gateway.Server.World.{Gateway, World, ClientChoice, Sent, Act, ◌>>=◌}
use acme_gateway.Server.World.Sends.{
  Extends, bind-sends, IsSending, IsSending-pure, IsSending-lift, IsSending-call, IsSending-bind,
  sending_rules,
}
use acme_gateway.Server.Handlers.{ChallengeResponse}
use acme_gateway.Server.Handlers.Ownership.{Owned}
use acme_gateway.Server.Handlers.Orders.Sends.{order_client-IsSending, IsClientOf, Takes}
use acme_gateway.Server.Handlers.Orders.{order_client}
use acme_gateway.Server.Handlers.Challenges.{
  new_mapping, challenge_id, rewrite_challenge, rewrite_challenges, show_authz, found_in,
  found_or_next, search_authzs, list_authzs, gateway_authz_url_for_challenge, started,
  start_challenge_processing, process, answer_or_start, answer_challenge,
}

-- One of the mappings is of this upstream URL.
pub IsAmong : String → List ResourceMap → Type 0
IsAmong url [] = ⊥
IsAmong url (rm ∷ rms) = (rm.upstream_url ≡ url) ⊎ IsAmong url rms

-- The upstream URL of an authorization of the order.
pub record IsAuthzOf (g : Gateway) (order_id : String) (w : World) (url : String) : Type 0 where
  pub n : ℕ
  pub rms : List ResourceMap
  pub listed : get_authz_resources_by_order_id (g.fault n) order_id w.db ≡ ok rms
  pub among : IsAmong url rms

module _ (g : Gateway) {P : Sent → Type 0} where
  new_mapping-IsSending :
      (order_id url : String) (o : Option ResourceMap) → IsSending P (new_mapping g order_id url o)
  new_mapping-IsSending order_id url (some rm) = IsSending-pure _
  new_mapping-IsSending order_id url none = search sending_rules depth 40

  rewrite_challenge-IsSending :
      (order_id : String) (c : Challenge) → IsSending P (rewrite_challenge g order_id c)
  unfolding rewrite_challenge challenge_id
  rewrite_challenge-IsSending order_id c = search (sending_rules, new_mapping-IsSending) depth 40

  rewrite_challenges-IsSending :
      (order_id : String) (cs : List Challenge) → IsSending P (rewrite_challenges g order_id cs)
  unfolding rewrite_challenges
  rewrite_challenges-IsSending order_id [] = IsSending-pure _
  rewrite_challenges-IsSending order_id (c ∷ cs) =
      IsSending-bind _ _ (rewrite_challenge-IsSending order_id c) (λ r.
        IsSending-bind _ _ (rewrite_challenges-IsSending order_id cs) (λ rest. IsSending-pure _))

  pub show_authz-IsSending :
      (x : Owned)
      → ((k : ClientChoice) → IsClientOf x.order k → Takes g P k)
      → P (Sent.polls x.rm.upstream_url)
      → IsSending P (show_authz g x)
  unfolding show_authz
  show_authz-IsSending x p q =
      search (sending_rules, order_client-IsSending, rewrite_challenges-IsSending) depth 40

  found_or_next-IsSending :
      (rm : ResourceMap) (seen : Option Challenge × Option String)
      (next : Option String → Act (Result (String × Challenge)))
      → IsSending P (next seen.1)
      → IsSending P (found_or_next g rm seen next)
  found_or_next-IsSending rm (some c, last) next h = IsSending-pure _
  found_or_next-IsSending rm (none, last) next h = h

  search_authzs-IsSending :
      (url : String) (last : Option String) (rms : List ResourceMap) (client : Client)
      → ((u : String) → IsAmong u rms → P (Sent.polls u))
      → IsSending P (search_authzs g url last rms client)
  unfolding search_authzs IsAmong
  search_authzs-IsSending url last [] client polling = IsSending-pure _
  search_authzs-IsSending url last (rm ∷ rms) client polling =
      IsSending-bind _ _ (IsSending-call _ _ (polling rm.upstream_url (inl refl))) (λ a.
        found_or_next-IsSending rm (found_in g url last a) (λ l. search_authzs g url l rms client)
          (search_authzs-IsSending url (found_in g url last a).1 rms client
            (λ u m. polling u (inr m))))

  list_authzs-IsSending :
      (url : String) (client : Client) (r : Result (List ResourceMap))
      → ((u : String) (rms : List ResourceMap) → r ≡ ok rms → IsAmong u rms → P (Sent.polls u))
      → IsSending P (list_authzs g url client r)
  list_authzs-IsSending url client (err e) polling = IsSending-lift _
  list_authzs-IsSending url client (ok rms) polling =
      IsSending-bind _ _ (search_authzs-IsSending url none rms client (λ u m. polling u rms refl m))
        (λ x. IsSending-lift _)

  gateway_authz_url-sends :
      (client : Client) (order_id url : String) (base : List Sent) (w : World)
      → Extends P base w.sent
      → ((u : String) → IsAuthzOf g order_id w u → P (Sent.polls u))
      → Extends P base (gateway_authz_url_for_challenge g client order_id url w).1.sent
  unfolding gateway_authz_url_for_challenge ◌>>=◌
  gateway_authz_url-sends client order_id url base w e polling =
      (list_authzs-IsSending url client
          (get_authz_resources_by_order_id (g.fault w.tick) order_id w.db)
          (λ u rms listed m.
            polling u (record { n = w.tick; rms = rms; listed = listed; among = m }))).sends
        base (record w { tick = ℕ.suc w.tick }) e

  started-IsSending :
      (id url : String) (b : Bool) → P (Sent.starts id url) → IsSending P (started g id url b)
  started-IsSending id url true p = IsSending-call _ _ p
  started-IsSending id url false p = IsSending-pure _

  start_challenge_processing-IsSending :
      (id url : String) → P (Sent.starts id url) → IsSending P (start_challenge_processing g id url)
  unfolding start_challenge_processing
  start_challenge_processing-IsSending id url p = search (sending_rules, started-IsSending) depth 40

  process-IsSending :
      (id : String) (x : Owned) (c : ChallengeResponse) (o : Option (String × String × String))
      → P (Sent.starts id x.rm.upstream_url)
      → IsSending P (process g id x c o)
  process-IsSending id x c (some (status, t, m)) p = IsSending-pure _
  process-IsSending id x c none p =
      search (sending_rules, start_challenge_processing-IsSending) depth 40

  answer_or_start-IsSending :
      (id : String) (x : Owned) (up : Challenge)
      → P (Sent.starts id x.rm.upstream_url)
      → IsSending P (answer_or_start g id x up)
  answer_or_start-IsSending id x up p = search (sending_rules, process-IsSending) depth 40

  pub answer_challenge-sends :
      (id : String) (x : Owned) (base : List Sent) (w : World)
      → Extends P base w.sent
      → ((k : ClientChoice) → IsClientOf x.order k → Takes g P k)
      → ((u : String) → IsAuthzOf g x.order.id (order_client g x.order w).1 u → P (Sent.polls u))
      → P (Sent.starts id x.rm.upstream_url)
      → Extends P base (answer_challenge g id x w).1.sent
  unfolding answer_challenge
  answer_challenge-sends id x base w e p q s =
      let taken = (order_client-IsSending g x.order p).sends base w e in
      bind-sends (order_client g x.order) _ base w taken (λ client h.
        let v = (order_client g x.order w).1 in
        let polled = gateway_authz_url-sends client x.order.id x.rm.upstream_url base v taken q in
        bind-sends (gateway_authz_url_for_challenge g client x.order.id x.rm.upstream_url) _ base v
          polled
          (λ found k.
            (IsSending-bind _ _ (answer_or_start-IsSending id x found.1 s)
                (λ r. IsSending-pure _)).sends
              base _ polled))
