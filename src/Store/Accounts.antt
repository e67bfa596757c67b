-- ===== src/Store/Accounts.antt =====
-- internal/store/accounts.go; contacts are encoded and decoded again as they are.
use acme_gateway.Prelude.{
  ℕ, String, Bool, [], ◌∷◌, ◌++◌, Option, Result, ◌==◌, ◌&&◌, eqb, find_row, delete,
}
use acme_gateway.Model.{Account, UpstreamAccount}
use acme_gateway.Store.Db.{Db, whole_seconds, query, exec}
use acme_gateway.Store.Orders.{has_account}

-- INSERT OR REPLACE
unfoldable pub save_account : Option String → Account → Db → Result (Unit {0}) × Db
save_account failure a db = exec failure db (record db {
  accounts =
      delete (has_account a.id) db.accounts
      ++ record a { created_at = whole_seconds a.created_at } ∷ [];
})

unfoldable pub get_account : Option String → String → Db → Result (Option Account)
get_account failure id db = query failure (find_row (has_account id) db.accounts)

abbrev pub in_slot : String → ℕ → UpstreamAccount → Bool
in_slot upstream_id slot ua = (ua.upstream_id == upstream_id) && eqb ua.slot slot

abbrev pub of_account : String → String → UpstreamAccount → Bool
of_account upstream_id account_id ua =
    (ua.upstream_id == upstream_id) && (ua.account_id == account_id)

abbrev dated : UpstreamAccount → UpstreamAccount
dated ua = record ua { created_at = whole_seconds ua.created_at }

unfoldable pub save_upstream_account : Option String → UpstreamAccount → Db → Result (Unit {0}) × Db
save_upstream_account failure ua db = exec failure db (record db {
  upstream_accounts =
      delete (in_slot ua.upstream_id ua.slot) db.upstream_accounts
      ++ dated (record ua { account_id = "" }) ∷ [];
})

unfoldable pub save_upstream_account_for_account :
    Option String → UpstreamAccount → Db → Result (Unit {0}) × Db
save_upstream_account_for_account failure ua db = exec failure db (record db {
  upstream_accounts_by_account =
      delete (of_account ua.upstream_id ua.account_id) db.upstream_accounts_by_account
      ++ dated (record ua { slot = 0 }) ∷ [];
})

unfoldable pub get_upstream_account_by_slot :
    Option String → String → ℕ → Db → Result (Option UpstreamAccount)
get_upstream_account_by_slot failure upstream_id slot db =
    query failure (find_row (in_slot upstream_id slot) db.upstream_accounts)

unfoldable pub get_upstream_account_for_account :
    Option String → String → String → Db → Result (Option UpstreamAccount)
get_upstream_account_for_account failure upstream_id account_id db =
    query failure (find_row (of_account upstream_id account_id) db.upstream_accounts_by_account)
