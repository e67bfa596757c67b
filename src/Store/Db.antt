-- ===== src/Store/Db.antt =====
-- internal/store/store.go: the tables of the state database. An operation takes the failure that the
-- database reports for its statement, if any; a statement that fails changes nothing.
use acme_gateway.Prelude.{ℕ, ◌/◌, ◌*◌, String, List, [], Option, none, some, Result, ok, err}
use acme_gateway.Model.{Account, UpstreamAccount, Order, ResourceMap, Nonce}

pub record Db : Type 0 where
  pub accounts : List Account
  pub upstream_accounts : List UpstreamAccount
  pub upstream_accounts_by_account : List UpstreamAccount
  pub orders : List Order
  pub resource_map : List ResourceMap
  pub nonces : List Nonce

abbrev pub empty : Db
empty = record {
  accounts = [];
  upstream_accounts = [];
  upstream_accounts_by_account = [];
  orders = [];
  resource_map = [];
  nonces = [];
}

abbrev pub second : ℕ
second = 1_000_000_000

-- Format(time.RFC3339), which drops the fraction, and time.Parse of the result
abbrev pub whole_seconds : ℕ → ℕ
whole_seconds t = t / second * second

-- A query: its rows, or the database's failure.
abbrev pub query {ℓ} : {A : Type ℓ} → Option String → A → Result A
query none rows = ok rows
query (some e) rows = err e

-- A statement that writes: the new tables and no error, or the failure and the old tables.
abbrev pub exec : Option String → Db → Db → Result (Unit {0}) × Db
exec none old new = (ok tt, new)
exec (some e) old new = (err e, old)
