-- ===== src/Server/World/Runs.antt =====
-- What a block of steps has passed, where it ended in a value or where it has sent something.
use acme_gateway.Prelude.{ℕ, Bool, true, false, ◌≡◌, refl, Result, Option, none, some, ok, err}
use acme_gateway.Store.Db.{Db}
use acme_gateway.Upstream.Types.{Called, CallError}
use acme_gateway.Server.Errors.{AcmeError}
use acme_gateway.Server.Requests.{Checked, accepted, refused}
use acme_gateway.Server.World.{
  World, Act, pure, lift, continue, ◌>>=◌, found, or_refuse, or_relay, refuse_if, finds_or,
}

module _ {A B : Type 0} where
  pub bind-accepted :
      (m : Act A) (f : A → Act B) (w : World) {b : B}
      → ((m >>= f) w).0 ≡ accepted b
      → (a : A) × ((m w).0 ≡ accepted a) × ((f a (m w).1).0 ≡ accepted b)
  unfolding ◌>>=◌
  bind-accepted m f w {b = b} h = go (m w).0 h
    where
      go :
          (c : Checked A)
          → (continue c f (m w).1).0 ≡ accepted b
          → (a : A) × (c ≡ accepted a) × ((f a (m w).1).0 ≡ accepted b)
      go (accepted a) k = (a, refl, k)
      go (refused x) k = absurd (cc)

  -- What holds at the end of a block that ends in a value: its first step has given a value too.
  pub bind-ends :
      (m : Act A) (f : A → Act B) (w : World) {b : B} (Q : World → Type 0)
      → ((a : A) → (m w).0 ≡ accepted a → (f a (m w).1).0 ≡ accepted b → Q (f a (m w).1).1)
      → ((m >>= f) w).0 ≡ accepted b
      → Q ((m >>= f) w).1
  unfolding ◌>>=◌
  bind-ends m f w {b = b} Q k h = go (m w).0 k h
    where
      go :
          (c : Checked A)
          → ((a : A) → c ≡ accepted a → (f a (m w).1).0 ≡ accepted b → Q (f a (m w).1).1)
          → (continue c f (m w).1).0 ≡ accepted b
          → Q (continue c f (m w).1).1
      go (accepted a) k h = k a refl h
      go (refused x) k h = absurd (cc)

pub found-accepted :
    {A : Type 0} (e : AcmeError) (r : Result (Option A)) {a : A}
    → found e r ≡ accepted a
    → r ≡ ok (some a)
found-accepted e (ok (some a)) h = cc
found-accepted e (ok none) h = absurd (cc)
found-accepted e (err m) h = absurd (cc)

pub refuse_if-accepted :
    (b : Bool) (e : AcmeError) {u : Unit {0}} → refuse_if b e ≡ accepted u → b ≡ false
refuse_if-accepted true e h = absurd (cc)
refuse_if-accepted false e h = refl

-- What a first step of each kind has given, where the whole ends in a value.
module _ {A B : Type 0} (f : A → Act B) (w : World) {b : B} where
  pub lift-accepted :
      (c : Checked A)
      → ((lift c >>= f) w).0 ≡ accepted b
      → (a : A) × (c ≡ accepted a) × ((f a w).0 ≡ accepted b)
  unfolding ◌>>=◌
  lift-accepted (accepted a) h = (a, refl, h)
  lift-accepted (refused e) h = absurd (cc)

  pub finds_or-accepted :
      (e : AcmeError) (q : ℕ → Db → Result (Option A))
      → ((finds_or e q >>= f) w).0 ≡ accepted b
      → (a : A) × (q w.tick w.db ≡ ok (some a))
        × ((f a (record w { tick = ℕ.suc w.tick })).0 ≡ accepted b)
  unfolding ◌>>=◌
  finds_or-accepted e q h = go (q w.tick w.db) refl h
    where
      go :
          (r : Result (Option A))
          → q w.tick w.db ≡ r
          → (continue (found e r) f (record w { tick = ℕ.suc w.tick })).0 ≡ accepted b
          → (a : A) × (q w.tick w.db ≡ ok (some a))
            × ((f a (record w { tick = ℕ.suc w.tick })).0 ≡ accepted b)
      go (ok (some a)) e k = (a, e, k)
      go (ok none) e k = absurd (cc)
      go (err m) e k = absurd (cc)

pub same_value : {A : Type 0} {a b : A} → accepted a ≡ accepted b → a ≡ b
same_value h = cc

pub pure-accepted : {A : Type 0} {b : A} (v : A) (w : World) → (pure v w).0 ≡ accepted b → v ≡ b
unfolding pure
pure-accepted v w h = cc

pub or_refuse-accepted :
    {A : Type 0} (e : AcmeError) (r : Result A) {a : A} → or_refuse e r ≡ accepted a → r ≡ ok a
or_refuse-accepted e (ok a) h = cc
or_refuse-accepted e (err m) h = absurd (cc)

pub or_relay-accepted :
    {A : Type 0} (e : CallError → AcmeError) (r : Called A) {a : A}
    → or_relay e r ≡ accepted a
    → r ≡ Called.returned a
or_relay-accepted e (Called.returned a) h = cc
or_relay-accepted e (Called.broken x) h = absurd (cc)
