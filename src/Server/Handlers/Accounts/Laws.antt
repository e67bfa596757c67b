-- ===== src/Server/Handlers/Accounts/Laws.antt =====
-- Asking for an account again gives the account that is there.
use mathlib.Core.Path.{subst}
use acme_gateway.Prelude.{
  ℕ, String, ◌≡◌, refl, sym, ap, ◌∙◌, [], ◌∷◌, Option, none, some, ok, eq_refl, arith, delete,
  find_row-delete_self, find_row-append_none,
}
use acme_gateway.Model.{Account}
use acme_gateway.Store.Db.{Db, whole_seconds}
use acme_gateway.Store.Orders.{has_account}
use acme_gateway.Store.Accounts.{save_account, get_account}
use acme_gateway.Server.Requests.{ParsedJws, accepted}
use acme_gateway.Server.World.{
  Gateway, World, NewAccountRequest, ◌>>=◌, lift, or_refuse, refuse_if, writes_or, reads_or,
}
use acme_gateway.Server.World.Runs.{bind-ends, pure-accepted, or_refuse-accepted}
use acme_gateway.Server.Handlers.{Response}
use acme_gateway.Server.Handlers.Accounts.{
  required_jwk, fresh_account, account_request, account_response, create_account, existing_or_new,
  new_account,
}

saved-get :
    (f : Option String) (a : Account) (db : Db)
    → (save_account f a db).0 ≡ ok tt
    → get_account none a.id (save_account f a db).1
      ≡ ok (some (record a { created_at = whole_seconds a.created_at }))
unfolding save_account get_account
saved-get none a db h = ground (
  arith,
  eq_refl a.id,
  find_row-append_none (has_account a.id) (delete (has_account a.id) db.accounts)
      (record a { created_at = whole_seconds a.created_at } ∷ []),
  find_row-delete_self (has_account a.id) db.accounts,
)
saved-get (some e) a db h = absurd (cc)

get-working :
    (f : Option String) (id : String) (db : Db) (o : Option Account)
    → get_account f id db ≡ ok o
    → get_account none id db ≡ ok o
unfolding get_account
get-working none id db o h = h
get-working (some e) id db o h = absurd (cc)

same_accounts :
    (f : Option String) (id : String) (a b : Db)
    → a.accounts ≡ b.accounts
    → get_account f id a ≡ get_account f id b
unfolding get_account
same_accounts f id a b e = rw e refl

module _ (g : Gateway) where
  -- The account is in the table, and the response shows it.
  record IsShown (tp : String) (resp : Response) (db : Db) : Type 0 where
    pub acct : Account
    pub status : ℕ
    pub stored : get_account none tp db ≡ ok (some acct)
    pub shown : resp ≡ account_response g status tp acct

  create_account-IsShown :
      (jwk tp : String) (req : NewAccountRequest) (w : World) (resp : Response)
      → (create_account g jwk tp req w).0 ≡ accepted resp
      → IsShown tp resp (create_account g jwk tp req w).1.db
  unfolding create_account ◌>>=◌
  create_account-IsShown jwk tp req w resp =
      bind-ends (lift (refuse_if req.only_return_existing _)) _ w (λ v. IsShown tp resp v.db)
        (λ u new.
          bind-ends (lift (or_refuse _ (g.codec.jwk_key_type jwk))) _ w (λ v. IsShown tp resp v.db)
            (λ kt known.
              bind-ends (lift (or_refuse _ (g.codec.jwk_json jwk))) _ w (λ v. IsShown tp resp v.db)
                (λ json text.
                  let acct = fresh_account tp json kt req.contact (g.now w.tick) in
                  bind-ends (writes_or _ (λ n db. save_account (g.fault n) acct db)) _
                    (record w { tick = ℕ.suc w.tick }) (λ v. IsShown tp resp v.db)
                    (λ u2 saved done. record {
                      acct = record acct { created_at = whole_seconds acct.created_at };
                      status = 201;
                      stored = saved-get _ acct w.db (or_refuse-accepted _ _ saved);
                      shown = sym (pure-accepted _ w done);
                    }))))

  existing_or_new-IsShown :
      (jwk tp : String) (req : NewAccountRequest) (o : Option Account) (w : World) (resp : Response)
      → get_account none tp w.db ≡ ok o
      → (existing_or_new g jwk tp req o w).0 ≡ accepted resp
      → IsShown tp resp (existing_or_new g jwk tp req o w).1.db
  unfolding ◌>>=◌
  existing_or_new-IsShown jwk tp req (some acct) w resp there h = record {
    acct = acct;
    status = 200;
    stored = there;
    shown = sym (pure-accepted _ w h);
  }
  existing_or_new-IsShown jwk tp req none w resp there h =
      create_account-IsShown jwk tp req w resp h

  same_print :
      (p : ParsedJws) (jwk' jwk tp' tp : String)
      → p.embedded_jwk ≡ some jwk'
      → g.jose.thumbprint jwk' ≡ ok tp'
      → p.embedded_jwk ≡ some jwk
      → g.jose.thumbprint jwk ≡ ok tp
      → tp' ≡ tp
  same_print p jwk' jwk tp' tp a b c d = let same : jwk' ≡ jwk = cc in cc

  required_jwk-accepted :
      (o : Option String) {jwk : String} → required_jwk o ≡ accepted jwk → o ≡ some jwk
  required_jwk-accepted none h = absurd (cc)
  required_jwk-accepted (some jwk) h = cc

  -- The response of `new_account` shows the account that the table then has under the thumbprint.
  new_account-IsShown :
      (p : ParsedJws) (w : World) (resp : Response)
      → (new_account g p w).0 ≡ accepted resp
      → (jwk tp : String) → p.embedded_jwk ≡ some jwk
      → g.jose.thumbprint jwk ≡ ok tp
      → IsShown tp resp (new_account g p w).1.db
  unfolding new_account ◌>>=◌
  new_account-IsShown p w resp h jwk tp embedded print =
      bind-ends (lift (required_jwk p.embedded_jwk)) _ w (λ v. IsShown tp resp v.db)
        (λ jwk' given.
          bind-ends (lift (account_request g p.payload)) _ w (λ v. IsShown tp resp v.db)
            (λ req read.
              bind-ends (lift (or_refuse _ (g.jose.thumbprint jwk'))) _ w
                (λ v. IsShown tp resp v.db)
                (λ tp' printed.
                  bind-ends (lift (or_refuse _ (g.jose.verify p.raw jwk'))) _ w
                    (λ v. IsShown tp resp v.db)
                    (λ u verified.
                      bind-ends (reads_or _ (λ n db. get_account (g.fault n) tp' db)) _ w
                        (λ v. IsShown tp resp v.db)
                        (λ o there done.
                          let v = record w { tick = ℕ.suc w.tick } in
                          let working = get-working _ tp' w.db o (or_refuse-accepted _ _ there) in
                          subst (λ x. IsShown x resp (existing_or_new g jwk' tp' req o v).1.db)
                            (same_print p jwk' jwk tp' tp (required_jwk-accepted _ given)
                              (or_refuse-accepted _ _ printed) embedded print)
                            (existing_or_new-IsShown jwk' tp' req o v resp working done))))))
        h

  new_account-existing :
      (q : ParsedJws) (v : World) (jwk tp : String) (req : NewAccountRequest) (acct : Account)
      → q.embedded_jwk ≡ some jwk
      → account_request g q.payload ≡ accepted req
      → g.jose.thumbprint jwk ≡ ok tp
      → g.jose.verify q.raw jwk ≡ ok tt
      → get_account (g.fault v.tick) tp v.db ≡ ok (some acct)
      → new_account g q v
        ≡ (accepted (account_response g 200 tp acct), record v { tick = ℕ.suc v.tick })
  unfolding new_account ◌>>=◌
  new_account-existing q v jwk tp req acct a b c d e = rw (a, b, c, d, e) refl

  -- Where a request for an account has been answered, for a key with a thumbprint, another valid
  -- request with the same key, at any later time with the same accounts and a working database, is
  -- answered with status 200, the same URL and the same account, and changes nothing.
  pub new_account-again :
      (p q : ParsedJws) (w v : World) (resp : Response)
      → (new_account g p w).0 ≡ accepted resp
      → (jwk tp : String) → g.jose.thumbprint jwk ≡ ok tp
      → p.embedded_jwk ≡ some jwk
      → q.embedded_jwk ≡ some jwk
      → g.jose.verify q.raw jwk ≡ ok tt
      → (req : NewAccountRequest) → account_request g q.payload ≡ accepted req
      → v.db.accounts ≡ (new_account g p w).1.db.accounts
      → g.fault v.tick ≡ none
      → ((new_account g q v).0 ≡ accepted (record resp { status = 200 }))
        × ((new_account g q v).1.db ≡ v.db)
  new_account-again p q w v resp h jwk tp print embedded again verified req read same working =
      let s = new_account-IsShown p w resp h jwk tp embedded print in
      let there : get_account none tp v.db ≡ ok (some s.acct) =
        same_accounts none tp v.db (new_account g p w).1.db same ∙ s.stored in
      let run =
        new_account-existing q v jwk tp req s.acct again read print verified (rw working there) in
      (
        ap (λ x. x.0) run
            ∙ ap accepted (ap (λ (x : Response). record x { status = 200 }) (sym s.shown)),
        ap (λ x. x.1.db) run,
      )
