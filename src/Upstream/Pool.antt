-- ===== src/Upstream/Pool.antt =====
-- internal/upstream/pool.go: the clients of each upstream, by slot and by gateway account. Calls run
-- one after another, as the pool's locks make them; what a call changes in a client that the pool
-- holds is written back to the pool.
pub mod Laws
pub mod Restart
pub mod Slots
use acme_gateway.Prelude.{
  ℕ, zero, suc, ◌+◌, ◌-◌, ◌%◌, String, Bool, true, false, ◌&&◌, List, [], ◌∷◌, Option, none, some,
  Result, ok, err, ◌==◌, ltb, length, get_elem?, set, if◌then◌else◌, ◌<>◌, is_some,
}
use acme_gateway.Model.{UpstreamAccount}
use acme_gateway.Model.Int.{ℤ, pos, negsuc}
use acme_gateway.Config.{UpstreamConfig, EabConfig, lookup}
use acme_gateway.Store.Db.{Db}
use acme_gateway.Store.Accounts.{
  save_upstream_account, save_upstream_account_for_account, get_upstream_account_by_slot,
  get_upstream_account_for_account,
}
use acme_gateway.Upstream.Types.{Client, new_client}
use acme_gateway.Upstream.SignedPost.{Network}
use acme_gateway.Upstream.Account.{AccountCodec, register}

-- What the pool takes from outside: key generation, PEM parsing, the CA certificate file, the
-- exchange with the upstream CA, the clock, and the failures of the state database. Each use has a
-- number.
pub record Env : Type 0 where
  pub generate_key : ℕ → Result String
  pub parse_key : String → Result String
  pub load_ca_cert : String → Result (Unit {0})
  pub key_pem : String → Result String
  -- the exchange that a registration makes
  pub net : ℕ → Network
  pub codec : AccountCodec
  pub now : ℕ
  pub read_failure : ℕ → Option String
  pub write_failure : Option String

-- Client.Register in this environment
abbrev pub register_with : Env → ℕ → Client → String → Option EabConfig → Result String × Client
register_with env i c email eab = register (env.net i) env.codec c email eab

pub record Pool : Type 0 where
  pub clients : List (String × List Client)
  pub account_clients : List (String × String × Client)
  pub next_slot : List (String × ℕ)

abbrev pub new_pool : Pool
new_pool = record { clients = []; account_clients = []; next_slot = [] }

abbrev pub find_account_client : String → String → List (String × String × Client) → Option Client
find_account_client u a [] = none
find_account_client u a ((v, b, c) ∷ m) =
    if (v == u) && (b == a) then some c else find_account_client u a m

abbrev or_zero : Option ℕ → ℕ
or_zero none = 0
or_zero (some n) = n

-- if count < 1 { count = 1 }
abbrev pub slot_count : ℤ → ℕ
slot_count (pos zero) = 1
slot_count (pos (suc n)) = suc n
slot_count (negsuc n) = 1

abbrev tagged {ℓ} : {A : Type ℓ} → String → Result A → Result A
tagged what (ok a) = ok a
tagged what (err e) = err (what <> e)

-- Reading a Go map: the zero value where there is no entry.
abbrev zero_config : UpstreamConfig
zero_config = record {
  directory_url = "";
  contact_email = "";
  eab = none;
  dns_hook = record {
    deploy_script = "";
    cleanup_script = "";
    propagation = record {
      enabled = none;
      timeout_seconds = pos zero;
      poll_seconds = pos zero;
      min_consecutive_successes = pos zero;
      quorum_percent = pos zero;
      settle_seconds = pos zero;
    };
    delegation = record { enabled = none; mode = ""; allowed_zone_suffixes = [] };
  };
  account_count = pos zero;
  ca_cert_path = "";
}

abbrev config_or_zero : Option UpstreamConfig → UpstreamConfig
config_or_zero none = zero_config
config_or_zero (some up) = up

module _ (upstreams : List (String × UpstreamConfig)) (env : Env) where
  unfoldable pub new_client_for_upstream : UpstreamConfig → String → Result Client
  new_client_for_upstream up key =
      if up.ca_cert_path == ""
      then ok (new_client up.directory_url key)
      else elim (env.load_ca_cert up.ca_cert_path) [
        | ok _ ↦ ok (new_client up.directory_url key)
        | err e ↦ err ("loading CA cert: " <> e)
      ]

  abbrev key_for : ℕ → Option UpstreamAccount → Result String
  key_for i none = tagged "generating upstream key: " (env.generate_key i)
  key_for i (some ua) = tagged "parsing upstream key: " (env.parse_key ua.private_key)

  abbrev with_account_url : Option UpstreamAccount → Client → Client
  with_account_url none c = c
  with_account_url (some ua) c = record c { account_url = ua.account_url }

  -- The client that a stored account, or its absence, gives: no registration yet.
  unfoldable pub restored : ℕ → UpstreamConfig → Option UpstreamAccount → Result Client
  unfolding new_client_for_upstream
  restored i up ua = elim (key_for i ua) [
    | err e ↦ err e
    | ok key ↦ elim (new_client_for_upstream up key) [
      | err e ↦ err e
      | ok c ↦ ok (with_account_url ua c)
    ]
  ]

  -- the loop over the slots from `slot`
  unfoldable pub create_from : String → UpstreamConfig → Db → ℕ → ℕ → Result (List Client)
  create_from id up db zero slot = ok []
  create_from id up db (suc n) slot =
      elim (tagged "loading upstream account: "
        (get_upstream_account_by_slot (env.read_failure slot) id slot db)) [
          | err e ↦ err e
          | ok ua ↦ elim (restored slot up ua) [
            | err e ↦ err e
            | ok c ↦ elim (create_from id up db n (slot + 1)) [
              | err e ↦ err e
              | ok cs ↦ ok (c ∷ cs)
            ]
          ]
        ]

  unfoldable pub get_or_create_all : String → Db → Pool → Result (List Client) × Pool
  get_or_create_all id db p = elim (lookup id p.clients) [
    | some cs ↦ (ok cs, p)
    | none ↦ elim (lookup id upstreams) [
      | none ↦ (err ("upstream " <> id <> " not in config"), p)
      | some up ↦ elim (create_from id up db (slot_count up.account_count) 0) [
        | err e ↦ (err e, p)
        | ok cs ↦ (ok cs, record p { clients = (id, cs) ∷ p.clients })
      ]
    ]
  ]

  -- clients[slot]; a Go panic where the index is out of range
  abbrev at_slot : List Client → ℕ → Result Client
  at_slot cs slot = elim (get_elem? cs slot) [ none ↦ err "index out of range" | some c ↦ ok c ]

  -- the slot that GetSlot reads: 0 where it is out of range
  abbrev pub clamped : ℤ → ℕ → ℕ
  clamped (pos slot) n = if ltb slot n then slot else 0
  clamped (negsuc k) n = 0

  unfoldable pub get_slot : String → ℤ → Db → Pool → Result Client × Pool
  get_slot id slot db p =
      let (r, p') = get_or_create_all id db p in
      elim r [ err e ↦ (err e, p') | ok cs ↦ (at_slot cs (clamped slot (length cs)), p') ]

  -- ensureSlotRegistered; the failure of KeyPEM or of the save leaves the client registered.
  abbrev saved_slot :
      String → ℕ → Db → Client → String → Result String → Result (Unit {0}) × Client × Db
  saved_slot id slot db c url (err e) = (err e, c, db)
  saved_slot id slot db c url (ok pem) =
      let (r, db') =
        save_upstream_account env.write_failure
          (record {
            upstream_id = id;
            account_id = "";
            slot = slot;
            account_url = url;
            private_key = pem;
            created_at = env.now;
          })
          db in
      (tagged "persisting upstream account: " r, c, db')

  abbrev registered_slot :
      String → ℕ → Db → Result String × Client → Result (Unit {0}) × Client × Db
  registered_slot id slot db (err e, c) = (err ("registering: " <> e), c, db)
  registered_slot id slot db (ok url, c) = saved_slot id slot db c url (env.key_pem c.key)

  unfoldable pub ensure_slot_registered :
      String → UpstreamConfig → ℕ → Db → Client → Result (Unit {0}) × Client × Db
  ensure_slot_registered id up slot db c =
      if c.account_url == ""
      then registered_slot id slot db (register_with env slot c up.contact_email up.eab)
      else (ok tt, c, db)

  -- The client in a slot is changed in place.
  abbrev write_back : String → List Client → ℕ → Client → Pool → Pool
  write_back id cs slot c p = record p { clients = (id, set cs slot c) ∷ p.clients }

  abbrev finish_next :
      ℕ → Result (Unit {0}) × Client × Db → (Client → Pool) → Result (Client × ℕ) × Pool × Db
  finish_next slot (ok _, c, db) pool = (ok (c, slot), pool c, db)
  finish_next slot (err e, c, db) pool = (err e, pool c, db)

  abbrev pick :
      String
      → UpstreamConfig
      → Db
      → Pool
      → List Client
      → ℕ
      → Option Client
      → Result (Client × ℕ) × Pool × Db
  pick id up db p cs slot none = (err "index out of range", p, db)
  pick id up db p cs slot (some c) =
      finish_next slot (ensure_slot_registered id up slot db c) (λ c'. write_back id cs slot c' p)

  -- NextClient
  unfoldable pub next_client : String → Db → Pool → Result (Client × ℕ) × Pool × Db
  next_client id db p =
      let (r, p') = get_or_create_all id db p in
      elim r [
        | err e ↦ (err e, p', db)
        | ok cs ↦
            let slot = or_zero (lookup id p'.next_slot) % length cs in
            pick id (config_or_zero (lookup id upstreams)) db
              (record p' { next_slot = (id, (slot + 1) % length cs) ∷ p'.next_slot }) cs slot
              (get_elem? cs slot)
      ]

  abbrev cache : String → String → Client → Pool → Pool
  cache id account c p = record p { account_clients = (id, account, c) ∷ p.account_clients }

  abbrev saved_account :
      String → String → Client → Pool → Result (Unit {0}) × Db → Result Client × Pool × Db
  saved_account id account c p (err e, db) = (err ("persisting upstream account: " <> e), p, db)
  saved_account id account c p (ok _, db) = (ok c, cache id account c p, db)

  abbrev pem_account :
      String → String → Db → Pool → Client → String → Result String → Result Client × Pool × Db
  pem_account id account db p c url (err e) = (err e, p, db)
  pem_account id account db p c url (ok pem) = saved_account id account c p (
      save_upstream_account_for_account env.write_failure
        (record {
          upstream_id = id;
          account_id = account;
          slot = 0;
          account_url = url;
          private_key = pem;
          created_at = env.now;
        })
        db)

  abbrev registered_account :
      String → String → Db → Pool → Result String × Client → Result Client × Pool × Db
  registered_account id account db p (err e, c) = (err ("registering: " <> e), p, db)
  registered_account id account db p (ok url, c) =
      pem_account id account db p c url (env.key_pem c.key)

  abbrev bound :
      String
      → String
      → UpstreamConfig
      → Db
      → Pool
      → Option UpstreamAccount
      → Result Client
      → Result Client × Pool × Db
  bound id account up db p ua (err e) = (err e, p, db)
  bound id account up db p (some ua) (ok c) = (ok c, cache id account c p, db)
  bound id account up db p none (ok c) =
      registered_account id account db p (register_with env 0 c up.contact_email up.eab)

  abbrev loaded :
      String
      → String
      → UpstreamConfig
      → Db
      → Pool
      → Result (Option UpstreamAccount)
      → Result Client × Pool × Db
  loaded id account up db p (err e) = (err ("loading upstream account: " <> e), p, db)
  loaded id account up db p (ok ua) = bound id account up db p ua (restored 0 up ua)

  abbrev configured :
      String → String → Db → Pool → Option UpstreamConfig → Result Client × Pool × Db
  configured id account db p none = (err ("upstream " <> id <> " not in config"), p, db)
  configured id account db p (some up) =
      loaded id account up db p
        (get_upstream_account_for_account (env.read_failure 0) id account db)

  abbrev cached : String → String → Db → Pool → Option Client → Result Client × Pool × Db
  cached id account db p (some c) = (ok c, p, db)
  cached id account db p none = configured id account db p (lookup id upstreams)

  -- GetClientForAccount; the second look after the wait for the lock reads the same pool.
  unfoldable pub get_client_for_account : String → String → Db → Pool → Result Client × Pool × Db
  get_client_for_account id account db p =
      cached id account db p (find_account_client id account p.account_clients)
