-- ===== src/Upstream/Pool/Laws.antt =====
-- The client of a gateway account: asked for again it is the same, and it survives a restart.
use acme_gateway.Prelude.{
  String, ◌≡◌, List, Option, none, some, Result, ok, err, eq_refl, arith, Option-cases, inl, inr,
}
use acme_gateway.Model.{UpstreamAccount}
use acme_gateway.Config.{UpstreamConfig, lookup}
use acme_gateway.Store.Db.{Db}
use acme_gateway.Upstream.Types.{Client}
use acme_gateway.Upstream.Pool.{
  Env, Pool, find_account_client, cached, configured, loaded, bound, registered_account,
  pem_account, saved_account, get_client_for_account,
}

-- What the pool holds for an account.
abbrev pub Holds : Pool → String → String → Client → Type 0
Holds p id account c = find_account_client id account p.account_clients ≡ some c

module _ (upstreams : List (String × UpstreamConfig)) (env : Env) (id account : String) where
  -- The result is cached, unless it is an error.
  abbrev Cached : Result Client × Pool × Db → Type 0
  Cached r = (c : Client) → r.0 ≡ ok c → Holds r.1 id account c

  saved_account-Cached :
      (c : Client) (p : Pool) (r : Result (Unit {0}) × Db)
      → Cached (saved_account upstreams env id account c p r)
  saved_account-Cached c p (err e, db) d h = cc
  saved_account-Cached c p (ok u, db) d h = ground (arith, eq_refl id, eq_refl account)

  pem_account-Cached :
      (db : Db) (p : Pool) (c : Client) (url : String) (pem : Result String)
      → Cached (pem_account upstreams env id account db p c url pem)
  pem_account-Cached db p c url (err e) d h = cc
  pem_account-Cached db p c url (ok pem) d h = saved_account-Cached c p _ d h

  registered_account-Cached :
      (db : Db) (p : Pool) (r : Result String × Client)
      → Cached (registered_account upstreams env id account db p r)
  registered_account-Cached db p (err e, c) d h = cc
  registered_account-Cached db p (ok url, c) d h =
      pem_account-Cached db p c url (env.key_pem c.key) d h

  bound-Cached :
      (up : UpstreamConfig) (db : Db) (p : Pool) (ua : Option UpstreamAccount) (r : Result Client)
      → Cached (bound upstreams env id account up db p ua r)
  bound-Cached up db p ua (err e) d h = cc
  bound-Cached up db p (some ua) (ok c) d h = ground (arith, eq_refl id, eq_refl account)
  bound-Cached up db p none (ok c) d h = registered_account-Cached db p _ d h

  loaded-Cached :
      (up : UpstreamConfig) (db : Db) (p : Pool) (r : Result (Option UpstreamAccount))
      → Cached (loaded upstreams env id account up db p r)
  loaded-Cached up db p (err e) d h = cc
  loaded-Cached up db p (ok ua) d h = bound-Cached up db p ua _ d h

  configured-Cached :
      (db : Db) (p : Pool) (up : Option UpstreamConfig)
      → Cached (configured upstreams env id account db p up)
  configured-Cached db p none d h = cc
  configured-Cached db p (some up) d h = loaded-Cached up db p _ d h

  get_client-Cached :
      (db : Db) (p : Pool) → Cached (get_client_for_account upstreams env id account db p)
  unfolding get_client_for_account
  get_client-Cached db p d h =
      elim (Option-cases (find_account_client id account p.account_clients)) [
        | inl e ↦
            rw (e, cached) (configured-Cached db p (lookup id upstreams) d (rw (e, cached) at h))
        | inr (c, e) ↦ ground arith
      ]

-- Once a call has given a gateway account its client, a next call on that pool gives the same client
-- and changes neither the pool nor the database, whatever its environment and database.
pub get_client_for_account-again :
    (upstreams : List (String × UpstreamConfig)) (env later : Env) (id account : String)
    (db db' : Db) (p : Pool) (c : Client)
    → (get_client_for_account upstreams env id account db p).0 ≡ ok c
    → get_client_for_account upstreams later id account db'
        (get_client_for_account upstreams env id account db p).1
      ≡ (ok c, (get_client_for_account upstreams env id account db p).1, db')
get_client_for_account-again upstreams env later id account db db' p c h =
    rest (get_client_for_account upstreams env id account db p).1
      (get_client-Cached upstreams env id account db p c h)
  where
    rest :
        (q : Pool)
        → Holds q id account c
        → get_client_for_account upstreams later id account db' q ≡ (ok c, q, db')
    rest q e = unfold get_client_for_account in rw (e, cached)
