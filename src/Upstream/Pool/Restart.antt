-- ===== src/Upstream/Pool/Restart.antt =====
-- What the pool stores of a gateway account's client is enough to have that client after a restart.
use acme_gateway.Prelude.{
  String, true, ◌≡◌, refl, sym, ◌∙◌, List, [], ◌∷◌, ◌++◌, Option, none, some, Result, ok, err,
  eq_refl, arith, Option-cases, inl, inr, find_row, delete, find_row-append_none,
  find_row-delete_self, is_some,
}
use acme_gateway.Model.{UpstreamAccount}
use acme_gateway.Config.{UpstreamConfig, lookup}
use acme_gateway.Store.Db.{Db, whole_seconds}
use acme_gateway.Store.Accounts.{
  of_account, save_upstream_account_for_account, get_upstream_account_for_account,
}
use acme_gateway.Upstream.Types.{Client, new_client}
use acme_gateway.Upstream.Account.Laws.{IsRegistered, registered, refused, register-IsRegistered}
use acme_gateway.Upstream.Pool.{
  register_with, Env, Pool, new_pool, find_account_client, restored, cached, configured, loaded,
  bound, registered_account, pem_account, get_client_for_account,
}

-- What the pool relies on of the outside: a key's PEM text parses back to the key.
pub record IsSound (env : Env) : Type 0 where
  pub key_round_trip : (key pem : String) → env.key_pem key ≡ ok pem → env.parse_key pem ≡ ok key

module _ (upstreams : List (String × UpstreamConfig)) (env : Env) (id account : String) where
  -- The database has the account's row, with the client's key and account URL.
  pub record IsPersisted (db : Db) (c : Client) : Type 0 where
    pub row : UpstreamAccount
    pub found : find_row (of_account id account) db.upstream_accounts_by_account ≡ some row
    pub key : env.parse_key row.private_key ≡ ok c.key
    pub account_url : row.account_url ≡ c.account_url

  abbrev Persists : Result Client × Pool × Db → Type 0
  Persists r = (c : Client) → r.0 ≡ ok c → IsPersisted r.2 c

  found_saved :
      (row : UpstreamAccount) (rows : List UpstreamAccount)
      → of_account id account row ≡ true
      → find_row (of_account id account) (delete (of_account id account) rows ++ row ∷ [])
        ≡ some row
  found_saved row rows h = ground (
    arith,
    find_row-append_none (of_account id account) (delete (of_account id account) rows) (row ∷ [])
        (find_row-delete_self (of_account id account) rows),
  )

  pem_account-Persists :
      IsSound env
      → (db : Db) (p : Pool) (c : Client) (url : String) (pem : Result String)
      → pem ≡ env.key_pem c.key
      → c.account_url ≡ url
      → Persists (pem_account upstreams env id account db p c url pem)
  pem_account-Persists s db p c url (err e) q u d h = cc
  pem_account-Persists s db p c url (ok pem) q u d h = elim (Option-cases env.write_failure) [
    | inr (e, w) ↦ absurd (unfold save_upstream_account_for_account in ground arith)
    | inl w ↦
        let row : UpstreamAccount = record {
          upstream_id = id;
          account_id = account;
          slot = 0;
          account_url = url;
          private_key = pem;
          created_at = whole_seconds env.now;
        } in
        let same : c ≡ d = unfold save_upstream_account_for_account in ground arith in
        record {
          row = row;
          found =
              unfold save_upstream_account_for_account in
              rw w (
                found_saved row db.upstream_accounts_by_account
                  (ground (arith, eq_refl id, eq_refl account)));
          key = rw (← same) (s.key_round_trip c.key pem (sym q));
          account_url = rw (← same) (sym u);
        }
  ]

  registered_account-Persists :
      IsSound env
      → (db : Db) (p : Pool) (c : Client) (r : Result String × Client) → IsRegistered c r
      → Persists (registered_account upstreams env id account db p r)
  registered_account-Persists s db p c (err e, c') i d h = cc
  registered_account-Persists s db p c (ok url, c') (refused e q same) d h = cc
  registered_account-Persists s db p c (ok url, c') (registered url' q ne key at_url) d h =
      pem_account-Persists s db p c' url (env.key_pem c'.key) refl (ground arith) d h

  restored-key :
      (up : UpstreamConfig) (ua : UpstreamAccount) (c : Client)
      → restored upstreams env 0 up (some ua) ≡ ok c
      → (env.parse_key ua.private_key ≡ ok c.key) × (ua.account_url ≡ c.account_url)
  unfolding restored
  restored-key up ua c h = (ground arith, ground arith)

  bound-Persists :
      IsSound env
      → (up : UpstreamConfig) (db : Db) (p : Pool) (ua : Option UpstreamAccount)
      → find_row (of_account id account) db.upstream_accounts_by_account ≡ ua
      → Persists (bound upstreams env id account up db p ua (restored upstreams env 0 up ua))
  bound-Persists s up db p ua e d h = go ua e (restored upstreams env 0 up ua) refl h
    where
      go :
          (ua : Option UpstreamAccount)
          → find_row (of_account id account) db.upstream_accounts_by_account ≡ ua
          → (r : Result Client) → restored upstreams env 0 up ua ≡ r
          → (bound upstreams env id account up db p ua r).0 ≡ ok d
          → IsPersisted (bound upstreams env id account up db p ua r).2 d
      go ua e (err m) q k = absurd (cc)
      go (some row) e (ok c) q k =
          let (key, url) = restored-key up row c q in
          let same : c ≡ d = cc in
          record { row = row; found = e; key = rw (← same) key; account_url = rw (← same) url }
      go none e (ok c) q k =
          registered_account-Persists s db p c (register_with env 0 c up.contact_email up.eab)
            (register-IsRegistered (env.net 0) env.codec c up.contact_email up.eab) d k

  loaded-Persists :
      IsSound env
      → (up : UpstreamConfig) (db : Db) (p : Pool) (failure : Option String)
      → Persists (
          loaded upstreams env id account up db p
            (get_upstream_account_for_account failure id account db))
  unfolding get_upstream_account_for_account
  loaded-Persists s up db p (some e) d h = cc
  loaded-Persists s up db p none d h =
      bound-Persists s up db p (find_row (of_account id account) db.upstream_accounts_by_account)
        refl d h

  configured-Persists :
      IsSound env
      → (db : Db) (p : Pool) (up : Option UpstreamConfig) (c : Client)
      → (configured upstreams env id account db p up).0 ≡ ok c
      → is_some up ≡ true × IsPersisted (configured upstreams env id account db p up).2 c
  configured-Persists s db p none d h = cc
  configured-Persists s db p (some up) d h =
      (refl, loaded-Persists s up db p (env.read_failure 0) d h)

  not_cached :
      (db : Db) (p : Pool)
      → find_account_client id account p.account_clients ≡ none
      → get_client_for_account upstreams env id account db p
        ≡ configured upstreams env id account db p (lookup id upstreams)
  unfolding get_client_for_account
  not_cached db p absent = rw (absent, cached)

  -- From the row alone.
  recovered :
      (db : Db) (c : Client) (up : UpstreamConfig) (v : IsPersisted db c)
      → lookup id upstreams ≡ some up
      → env.read_failure 0 ≡ none
      → ((path : String) → env.load_ca_cert path ≡ ok tt)
      → (again : Client) × ((get_client_for_account upstreams env id account db new_pool).0
          ≡ ok again)
        × (again.key ≡ c.key)
        × (again.account_url ≡ c.account_url)
        × ((get_client_for_account upstreams env id account db new_pool).2 ≡ db)
  unfolding get_client_for_account get_upstream_account_for_account restored
  recovered db c up v l reads loads =
      let again : Client = record (new_client up.directory_url c.key) {
        account_url = v.row.account_url;
      } in
      (
        again,
        ground (arith, v.found, v.key, loads up.ca_cert_path),
        refl,
        v.account_url,
        ground (arith, v.found, v.key, loads up.ca_cert_path),
      )

-- The client that a gateway account was given, when the pool held none for it, is not lost with the
-- process: a later process with the same configuration that reads the database and the CA
-- certificates, and parses keys as this one does, whose keys' PEM text parses back, gives a client
-- with the same key and account URL from an empty pool, and leaves the database as it is.
pub get_client_for_account-restart :
    (upstreams : List (String × UpstreamConfig)) (env later : Env) (id account : String) (db : Db)
    (p : Pool) (c : Client)
    → IsSound env
    → find_account_client id account p.account_clients ≡ none
    → (get_client_for_account upstreams env id account db p).0 ≡ ok c
    → later.read_failure 0 ≡ none
    → ((pem : String) → later.parse_key pem ≡ env.parse_key pem)
    → ((path : String) → later.load_ca_cert path ≡ ok tt)
    → (again : Client) × ((get_client_for_account upstreams later id account
          (get_client_for_account upstreams env id account db p).2
          new_pool).0
        ≡ ok again)
      × (again.key ≡ c.key)
      × (again.account_url ≡ c.account_url)
      × ((get_client_for_account upstreams later id account
            (get_client_for_account upstreams env id account db p).2
            new_pool).2
          ≡ (get_client_for_account upstreams env id account db p).2)
get_client_for_account-restart upstreams env later id account db p c s absent h reads parses loads =
    let e = not_cached upstreams env id account db p absent in
    let (known, v) =
      configured-Persists upstreams env id account s db p (lookup id upstreams) c (rw e at h) in
    elim (Option-cases (lookup id upstreams)) [
      | inl missing ↦ absurd (ground arith)
      | inr (up, l) ↦ rw e (
          recovered upstreams later id account
            (configured upstreams env id account db p (lookup id upstreams)).2 c up
            (record {
              row = v.row;
              found = v.found;
              key = parses v.row.private_key ∙ v.key;
              account_url = v.account_url;
            })
            l reads loads)
    ]
