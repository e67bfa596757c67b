-- ===== src/Server/World.antt =====
-- internal/server/handlers.go: what a handler reads and changes, and the steps that handlers are made
-- of. A handler that writes an error returns there: a step ends in a value or in a problem. Each use
-- of the outside (a statement of the database, an upstream call, a random value) takes the next
-- number, and the Gateway says what it gives under that number.
pub mod Keeps
pub mod Runs
pub mod Sends
use acme_gateway.Prelude.{
  ℕ, suc, String, Bool, true, false, List, [], ◌∷◌, Option, none, some, Result, ok, err,
}
use acme_gateway.Model.{Identifier}
use acme_gateway.Model.Int.{ℤ}
use acme_gateway.Config.{Config}
use acme_gateway.Store.Db.{Db}
use acme_gateway.Store.Nonces.{Faults, issue_nonce}
use acme_gateway.Upstream.Types.{AcmeOrder, AcmeAuthorization, Challenge, Client, Called, CallError}
use acme_gateway.Upstream.Pool.{Env, Pool}
use acme_gateway.Server.Errors.{AcmeError}
use acme_gateway.Server.Challenges.{ChallengeProc}
use acme_gateway.Server.Requests.{Jose, Checked, accepted, refused}

-- The calls of an upstream CA: the number of the call and the client that makes it come first.
pub record Ca : Type 0 where
  pub submit_order : ℕ → Client → List Identifier → String → Called (AcmeOrder × String)
  pub get_order : ℕ → Client → String → Called AcmeOrder
  pub get_authorization : ℕ → Client → String → Called AcmeAuthorization
  pub trigger_challenge : ℕ → Client → String → Called Challenge
  pub finalize_order : ℕ → Client → String → String → Called AcmeOrder
  -- the chain and the alternate URLs
  pub fetch_certificate : ℕ → Client → String → Called (String × List String)
  pub revoke_certificate : ℕ → Client → String → ℤ → Called (Unit {0})

pub record NewAccountRequest : Type 0 where
  pub contact : List String
  pub terms_of_service_agreed : Bool
  pub only_return_existing : Bool

pub record NewOrderRequest : Type 0 where
  pub identifiers : List Identifier
  pub profile : String

pub record RevokeCertRequest : Type 0 where
  pub certificate : String
  pub reason : Option ℤ

-- JSON, base64, x509 and PEM
pub record Codec : Type 0 where
  pub new_account_request : String → Result NewAccountRequest
  pub new_order_request : String → Result NewOrderRequest
  -- the "csr" of the payload
  pub finalize_request : String → Result String
  pub revoke_request : String → Result RevokeCertRequest
  pub identifiers_json : List Identifier → Result String
  pub identifiers_of_json : String → List Identifier
  pub base64_decode : String → Result String
  -- KeyTypeFromJWK
  pub jwk_key_type : String → Result String
  pub jwk_json : String → Result String
  -- the key type of a parsed CSR, empty if it is of no known type
  pub csr_key_type : String → Result String
  pub fingerprint : String → String
  -- the first PEM block
  pub leaf : String → Option String
  -- %q
  pub quote : String → String
  -- of a certificate: whether it has the key of a JWK
  pub has_jwk : String → Result (String → Bool)

pub record Gateway : Type 0 where
  pub cfg : Config
  pub jose : Jose
  pub codec : Codec
  pub ca : Ca
  pub pool_env : ℕ → Env
  pub now : ℕ → ℕ
  pub uuid : ℕ → String
  pub random : ℕ → Result String
  pub fault : ℕ → Option String
  pub nonce_faults : ℕ → Faults

-- Which client is asked of the pool: that of a slot of an upstream, or that of an account at it.
pub data ClientChoice : Type 0 where
  in_slot : String → ℤ → ClientChoice
  for_account : String → String → ClientChoice

-- What the gateway does beyond its own tables.
pub data Sent : Type 0 where
  -- with the pool's answer
  takes_client : ClientChoice → Result Client → Sent
  submits_order : List Identifier → String → Sent
  polls : String → Sent
  finalizes : String → String → Sent
  fetches : String → Sent
  revokes : String → ℤ → Sent
  -- background processing of a challenge: its gateway id and upstream URL
  starts : String → String → Sent

-- `sent` has the last one first.
pub record World : Type 0 where
  pub db : Db
  pub pool : Pool
  pub proc : ChallengeProc
  pub tick : ℕ
  pub sent : List Sent

abbrev pub Act : Type 0 → Type 0
Act A = World → Checked A × World

module _ {A : Type 0} where
  pub pure : A → Act A
  pure a w = (accepted a, w)

  pub refuse : AcmeError → Act A
  refuse e w = (refused e, w)

  pub lift : Checked A → Act A
  lift c w = (c, w)

  -- a value that is read from the state
  pub gets : (World → A) → Act A
  gets f w = (accepted (f w), w)

  abbrev pub or_refuse_with : (String → AcmeError) → Result A → Checked A
  or_refuse_with e (ok a) = accepted a
  or_refuse_with e (err m) = refused (e m)

  -- if err != nil { h.writeError(w, e); return }
  abbrev pub or_refuse : AcmeError → Result A → Checked A
  or_refuse e r = or_refuse_with (λ m. e) r

  -- if err != nil || value == nil { h.writeError(w, e); return }
  abbrev pub found : AcmeError → Result (Option A) → Checked A
  found e (ok (some a)) = accepted a
  found e (ok none) = refused e
  found e (err m) = refused e

  -- an upstream error that the handler turns into a problem
  abbrev pub or_relay : (CallError → AcmeError) → Called A → Checked A
  or_relay e (Called.returned a) = accepted a
  or_relay e (Called.broken c) = refused (e c)

  -- a use of the outside under the next number
  pub ask : (ℕ → A) → Act A
  ask f w = (accepted (f w.tick), record w { tick = suc w.tick })

  -- an upstream call, which goes into the log
  pub call : Sent → (ℕ → A) → Act A
  call s f w = (accepted (f w.tick), record w { tick = suc w.tick; sent = s ∷ w.sent })

  -- a statement of the database that only reads
  pub reads : (ℕ → Db → A) → Act A
  reads f w = (accepted (f w.tick w.db), record w { tick = suc w.tick })

  -- a statement of the database that writes; its result is the handler's to look at
  pub writes : (ℕ → Db → A × Db) → Act A
  writes f w = let r = f w.tick w.db in (accepted r.0, record w { db = r.1; tick = suc w.tick })

  -- a step on the map of challenge records
  pub processes : (ℕ → ChallengeProc → A × ChallengeProc) → Act A
  processes f w =
      let r = f w.tick w.proc in (accepted r.0, record w { proc = r.1; tick = suc w.tick })

-- a call of the pool for a client
pub pools : ClientChoice → (ℕ → Db → Pool → Result Client × Pool × Db) → Act (Result Client)
pools k f w =
    let r = f w.tick w.db w.pool in
    (
      accepted r.0,
      record w { pool = r.1; db = r.2; tick = suc w.tick; sent = Sent.takes_client k r.0 ∷ w.sent },
    )

module _ {A B : Type 0} where
  abbrev continue : Checked A → (A → Act B) → Act B
  continue (accepted a) f w = f a w
  continue (refused e) f w = (refused e, w)

  infixl 5 ◌>>=◌ ◌>>◌
  -- Opening this opens the steps too.
  unfoldable pub ◌>>=◌ : Act A → (A → Act B) → Act B
  unfolding pure refuse lift gets ask call reads writes pools processes
  ◌>>=◌ m f w = continue (m w).0 f (m w).1

  abbrev pub ◌>>◌ : Act A → Act B → Act B
  m >> n = m >>= (λ a. n)

-- if b { h.writeError(w, e); return }
abbrev pub refuse_if : Bool → AcmeError → Checked (Unit {0})
refuse_if true e = refused e
refuse_if false e = accepted tt

module _ {A : Type 0} where
  -- r, err := h.store.Get…; if err != nil { h.writeError(w, e); return }
  abbrev pub reads_or : AcmeError → (ℕ → Db → Result A) → Act A
  reads_or e f = reads f >>= (λ r. lift (or_refuse e r))

  -- the same, where nil is refused too
  abbrev pub finds_or : AcmeError → (ℕ → Db → Result (Option A)) → Act A
  finds_or e f = reads f >>= (λ r. lift (found e r))

  abbrev pub writes_or : AcmeError → (ℕ → Db → Result A × Db) → Act A
  writes_or e f = writes f >>= (λ r. lift (or_refuse e r))

  abbrev pub call_or : (CallError → AcmeError) → Sent → (ℕ → Called A) → Act A
  call_or e s f = call s f >>= (λ r. lift (or_relay e r))

abbrev pub pools_or :
    AcmeError → ClientChoice → (ℕ → Db → Pool → Result Client × Pool × Db) → Act Client
pools_or e k f = pools k f >>= (λ r. lift (or_refuse e r))
