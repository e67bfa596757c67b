-- ===== src/Server/Requests/Laws.antt =====
-- What an accepted request has shown, and that it is not accepted twice.
use acme_gateway.Prelude.{
  ℕ, String, true, ◌≡◌, ◌≢◌, refl, sym, ap, ◌∙◌, List, Option, none, some, Result, ok, err, ◌==◌,
  eq_iff, arith, ◌<>◌, has_prefix, trim_prefix, find_row, All, Result-cases, Option-cases,
  Bool-cases, inl, inr,
}
use acme_gateway.Model.{Account}
use acme_gateway.Store.Db.{Db}
use acme_gateway.Store.Nonces.{Faults, consume_nonce}
use acme_gateway.Store.Nonces.Laws.{Call, run_calls, Avoids, nonce_single_use}
use acme_gateway.Store.Accounts.{get_account}
use acme_gateway.Store.Orders.{has_account}
use acme_gateway.Server.Requests.{
  Jose, ParsedJws, HttpRequest, Checked, accepted, refused, parse_jws, consumed, check_url,
  parse_and_validate_jws, looked_up, required, by_thumbprint, account_prefix, account_of,
  resolve_account, verified, with_stored_key, verify_with, verify_resolved, resolve_and_verify,
}

module _ (jose : Jose) (base_url : String) where
  -- The request is a well-formed JWS for the URL that it was sent to, and its nonce was consumed.
  pub record IsFresh (r : HttpRequest) (f : Faults) (now : ℕ) (db : Db) (p : ParsedJws)
      : Type 0 where
    pub text : String
    pub body : r.body ≡ ok text
    pub parses : parse_jws jose text ≡ ok p
    pub url : p.url ≡ base_url <> r.path
    pub nonce : (consume_nonce f now p.nonce db).0 ≡ ok tt
    pub state :
        (parse_and_validate_jws jose base_url r f now db).1 ≡ (consume_nonce f now p.nonce db).1

  abbrev validated : HttpRequest → Faults → ℕ → Db → Checked ParsedJws × Db
  validated r f now db = parse_and_validate_jws jose base_url r f now db

  consumed-ok :
      (q p : ParsedJws) (r : Result Unit × Db)
      → (consumed jose base_url q r).0 ≡ accepted p
      → (q ≡ p) × (r.0 ≡ ok tt) × ((consumed jose base_url q r).1 ≡ r.1)
  consumed-ok q p (err e, db) h = absurd (cc)
  consumed-ok q p (ok u, db) h = (cc, refl, refl)

  check_url-ok :
      (r : HttpRequest) (f : Faults) (now : ℕ) (db : Db) (q p : ParsedJws)
      → (check_url jose base_url r f now db (ok q)).0 ≡ accepted p
      → (q ≡ p)
        × (p.url ≡ base_url <> r.path)
        × ((consume_nonce f now p.nonce db).0 ≡ ok tt)
        × ((check_url jose base_url r f now db (ok q)).1 ≡ (consume_nonce f now p.nonce db).1)
  check_url-ok r f now db q p h = elim (Bool-cases (q.url == base_url <> r.path)) [
    | inr e ↦ absurd (ground arith)
    | inl e ↦
        let (same, fine, state) = consumed-ok q p (consume_nonce f now q.nonce db) (rw e at h) in
        (
          same,
          rw (← same) ((eq_iff q.url (base_url <> r.path)).0 e),
          rw (← same) fine,
          rw (← same, e) state,
        )
  ]

  validated-IsFresh :
      (r : HttpRequest) (f : Faults) (now : ℕ) (db : Db) (p : ParsedJws)
      → (validated r f now db).0 ≡ accepted p
      → IsFresh r f now db p
  unfolding parse_and_validate_jws
  validated-IsFresh r f now db p h = elim (Bool-cases (r.content_type == "application/jose+json")) [
    | inr e ↦ absurd (ground arith)
    | inl e ↦ elim (Result-cases r.body) [
      | inr (m, b) ↦ absurd (ground arith)
      | inl (text, b) ↦ elim (Result-cases (parse_jws jose text)) [
        | inr (m, q) ↦ absurd (ground arith)
        | inl (q, k) ↦
            let (same, url, fine, state) = check_url-ok r f now db q p (rw (e, b, k) at h) in
            record {
              text = text;
              body = b;
              parses = k ∙ ap ok same;
              url = url;
              nonce = fine;
              state = rw (e, b, k) state;
            }
      ]
    ]
  ]

  -- A request is accepted only if its body is a JWS whose url is the request's own and whose nonce
  -- the database consumed; and the same request, sent again after any further operations on nonces
  -- that do not draw its nonce anew, is not accepted, whatever the clock and the database do then.
  pub parse_and_validate_jws-once :
      (r : HttpRequest) (f g : Faults) (now later : ℕ) (db : Db) (p q : ParsedJws) (cs : List Call)
      → (parse_and_validate_jws jose base_url r f now db).0 ≡ accepted p
      → All (Avoids p.nonce) cs
      → IsFresh r f now db p
        × ((parse_and_validate_jws jose base_url r g later
              (run_calls cs (parse_and_validate_jws jose base_url r f now db).1)).0
            ≢ accepted q)
  parse_and_validate_jws-once r f g now later db p q cs h avoid =
      let first = validated-IsFresh r f now db p h in (first, again first)
    where
      again :
          IsFresh r f now db p
          → (parse_and_validate_jws jose base_url r g later
              (run_calls cs (parse_and_validate_jws jose base_url r f now db).1)).0
            ≢ accepted q
      again first k =
          let second = validated-IsFresh r g later _ q k in
          let text : first.text ≡ second.text = ground (arith, first.body, second.body) in
          let same : q ≡ p = ground (arith, first.parses, second.parses, text) in
          nonce_single_use f g now later p.nonce db cs first.nonce avoid
            (rw (← first.state, ← same) second.nonce)

  -- Who signed a request that was let through: the holder of the embedded key, whose account, if it
  -- has one, is that of the key's thumbprint; or the account that the kid names, with its stored key.
  pub data IsSigned (p : ParsedJws) (db : Db) (o : Option Account) : Type 0 where
    by_jwk :
        (jwk tp : String)
        → p.embedded_jwk ≡ some jwk
        → jose.thumbprint jwk ≡ ok tp
        → find_row (has_account tp) db.accounts ≡ o
        → jose.verify p.raw jwk ≡ ok tt
        → IsSigned p db o
    by_kid :
        (acct : Account) (key : String)
        → p.embedded_jwk ≡ none
        → has_prefix p.account_kid (account_prefix jose base_url) ≡ true
        → find_row
            (has_account (trim_prefix p.account_kid (account_prefix jose base_url)))
            db.accounts
          ≡ some acct
        → o ≡ some acct
        → jose.parse_public_key acct.public_key ≡ some key
        → jose.verify p.raw key ≡ ok tt
        → IsSigned p db o

  verified-ok :
      (acct o : Option Account) (v : Result Unit)
      → verified jose base_url acct v ≡ accepted o
      → (acct ≡ o) × (v ≡ ok tt)
  verified-ok acct o (err e) h = absurd (cc)
  verified-ok acct o (ok u) h = (cc, refl)

  looked_up-ok :
      (failure : Option String) (id : String) (db : Db) (o : Option Account)
      → looked_up jose base_url (get_account failure id db) ≡ accepted o
      → find_row (has_account id) db.accounts ≡ o
  unfolding get_account
  looked_up-ok none id db o h = cc
  looked_up-ok (some e) id db o h = absurd (cc)

  required-ok :
      (c : Checked (Option Account)) (o : Option Account)
      → required jose base_url c ≡ accepted o
      → (acct : Account) × (c ≡ accepted (some acct)) × (o ≡ some acct)
  required-ok (refused e) o h = absurd (cc)
  required-ok (accepted none) o h = absurd (cc)
  required-ok (accepted (some acct)) o h = (acct, refl, cc)

  stored_key-ok :
      (p : ParsedJws) (acct : Account) (o : Option Account) (k : Option String)
      → with_stored_key jose base_url p acct k ≡ accepted o
      → (key : String) × (k ≡ some key) × (o ≡ some acct) × (jose.verify p.raw key ≡ ok tt)
  stored_key-ok p acct o none h = absurd (cc)
  stored_key-ok p acct o (some key) h =
      let (same, fine) = verified-ok (some acct) o (jose.verify p.raw key) h in
      (key, refl, sym same, fine)

  by_jwk-IsSigned :
      (p : ParsedJws) (failure : Option String) (db : Db) (o : Option Account) (jwk : String)
      → p.embedded_jwk ≡ some jwk
      → (t : Result String) → jose.thumbprint jwk ≡ t
      → (c : Checked (Option Account)) → by_thumbprint jose base_url failure db t ≡ c
      → (verify_resolved jose base_url p c) ≡ accepted o
      → IsSigned p db o
  by_jwk-IsSigned p failure db o jwk e (err m) t (accepted acct) k h = absurd (cc)
  by_jwk-IsSigned p failure db o jwk e t q (refused m) k h = absurd (cc)
  by_jwk-IsSigned p failure db o jwk e (ok tp) t (accepted acct) k h =
      let (same, fine) = verified-ok acct o (jose.verify p.raw jwk) (rw (e, verify_with) at h) in
      by_jwk jwk tp e t (looked_up-ok failure tp db acct k ∙ same) fine

  by_kid-IsSigned :
      (p : ParsedJws) (failure : Option String) (db : Db) (o : Option Account)
      → p.embedded_jwk ≡ none
      → has_prefix p.account_kid (account_prefix jose base_url) ≡ true
      → (c : Checked (Option Account))
      → looked_up jose base_url
          (get_account failure (trim_prefix p.account_kid (account_prefix jose base_url)) db)
        ≡ c
      → verify_resolved jose base_url p (required jose base_url c) ≡ accepted o
      → IsSigned p db o
  by_kid-IsSigned p failure db o e pre (refused m) l h = absurd (cc)
  by_kid-IsSigned p failure db o e pre (accepted none) l h = absurd (cc)
  by_kid-IsSigned p failure db o e pre (accepted (some acct)) l h =
      let (key, parses, same, fine) =
        stored_key-ok p acct o (jose.parse_public_key acct.public_key) (rw (e, verify_with) at h) in
      by_kid acct key e pre
        (looked_up-ok failure (trim_prefix p.account_kid (account_prefix jose base_url)) db
          (some acct) l)
        same parses fine

  -- A request whose account is resolved and verified carries a valid signature: of the key that is
  -- embedded in it, and then the account is the one stored under the key's thumbprint, or none; or
  -- of the stored key of the account that its kid names under the gateway's base URL.
  pub resolve_and_verify-IsSigned :
      (p : ParsedJws) (failure : Option String) (db : Db) (o : Option Account)
      → resolve_and_verify jose base_url p failure db ≡ accepted o
      → IsSigned p db o
  unfolding resolve_and_verify resolve_account
  resolve_and_verify-IsSigned p failure db o h = elim (Option-cases p.embedded_jwk) [
    | inr (jwk, e) ↦
        by_jwk-IsSigned p failure db o jwk e (jose.thumbprint jwk) refl
          (by_thumbprint jose base_url failure db (jose.thumbprint jwk)) refl
          (sym (ap (verify_resolved jose base_url p) (ap (account_of jose base_url p failure db) e))
            ∙ h)
    | inl e ↦ without_jwk e (
        sym (ap (verify_resolved jose base_url p) (ap (account_of jose base_url p failure db) e))
        ∙ h)
  ]
    where
      without_jwk :
          p.embedded_jwk ≡ none
          → verify_resolved jose base_url p (account_of jose base_url p failure db none)
            ≡ accepted o
          → IsSigned p db o
      without_jwk e k =
          elim (Bool-cases (has_prefix p.account_kid (account_prefix jose base_url))) [
            | inr pre ↦ absurd (ground arith)
            | inl pre ↦
                by_kid-IsSigned p failure db o e pre
                  (looked_up jose base_url (
                    get_account failure (trim_prefix p.account_kid (account_prefix jose base_url))
                      db))
                  refl (rw pre at k)
          ]
