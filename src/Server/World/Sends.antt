-- ===== src/Server/World/Sends.antt =====
-- What a block of steps may send, by a rule for each step.
use acme_gateway.Prelude.{
  ℕ, Bool, true, false, ◌≡◌, refl, ◌∙◌, ap, List, [], ◌∷◌, ◌++◌, All, Option, none, some, Result,
  ok, err, if◌then◌else◌,
}
use acme_gateway.Store.Db.{Db}
use acme_gateway.Upstream.Types.{Client}
use acme_gateway.Upstream.Pool.{Pool}
use acme_gateway.Server.Errors.{AcmeError}
use acme_gateway.Server.Challenges.{ChallengeProc}
use acme_gateway.Server.Requests.{Checked, accepted, refused}
use acme_gateway.Server.World.{
  World, ClientChoice, Sent, Act, pure, refuse, lift, gets, ask, call, reads, writes, pools,
  processes, continue, ◌>>=◌, refuse_if, found, finds_or,
}
use acme_gateway.Server.World.Keeps.{
  IsQuiet, IsQuiet-pure, IsQuiet-refuse, IsQuiet-lift, IsQuiet-gets, IsQuiet-ask, IsQuiet-reads,
  IsQuiet-writes, IsQuiet-processes,
}

-- The log goes on from `base` by such entries alone.
pub record Extends (P : Sent → Type 0) (base entries : List Sent) : Type 0 where
  pub added : List Sent
  pub all : entries ≡ added ++ base
  pub each : All P added

pub Extends-refl : {P : Sent → Type 0} (log : List Sent) → Extends P log log
Extends-refl log = record { added = []; all = refl; each = tt }

pub Extends-cons :
    {P : Sent → Type 0} {base log : List Sent} {s : Sent}
    → P s
    → Extends P base log
    → Extends P base (s ∷ log)
Extends-cons {s = s} p e = record {
  added = s ∷ e.added;
  all = ap (λ l. s ∷ l) e.all;
  each = (p, e.each);
}

-- All that the block sends, whatever it ends in, is of this kind.
pub record IsSending (P : Sent → Type 0) {A : Type 0} (m : Act A) : Type 0 where
  pub sends : (base : List Sent) (w : World) → Extends P base w.sent → Extends P base (m w).1.sent

module _ {P : Sent → Type 0} where
  Extends-same : {base a b : List Sent} → a ≡ b → Extends P base b → Extends P base a
  Extends-same h e = record { added = e.added; all = h ∙ e.all; each = e.each }

  module _ {A : Type 0} where
    pub IsSending-quiet : (m : Act A) → IsQuiet m → IsSending P m
    IsSending-quiet m q = record { sends = λ base w e. Extends-same (q.same w) e }

    pub IsSending-pure : (a : A) → IsSending P (pure a)
    IsSending-pure a = IsSending-quiet _ (IsQuiet-pure a)

    pub IsSending-refuse : (e : AcmeError) → IsSending P (refuse {A = A} e)
    IsSending-refuse e = IsSending-quiet _ (IsQuiet-refuse e)

    pub IsSending-lift : (c : Checked A) → IsSending P (lift c)
    IsSending-lift c = IsSending-quiet _ (IsQuiet-lift c)

    pub IsSending-gets : (f : World → A) → IsSending P (gets f)
    IsSending-gets f = IsSending-quiet _ (IsQuiet-gets f)

    pub IsSending-ask : (f : ℕ → A) → IsSending P (ask f)
    IsSending-ask f = IsSending-quiet _ (IsQuiet-ask f)

    pub IsSending-reads : (f : ℕ → Db → A) → IsSending P (reads f)
    IsSending-reads f = IsSending-quiet _ (IsQuiet-reads f)

    pub IsSending-writes : (f : ℕ → Db → A × Db) → IsSending P (writes f)
    IsSending-writes f = IsSending-quiet _ (IsQuiet-writes f)

    pub IsSending-processes :
        (f : ℕ → ChallengeProc → A × ChallengeProc) → IsSending P (processes f)
    IsSending-processes f = IsSending-quiet _ (IsQuiet-processes f)

    pub IsSending-call : (s : Sent) (f : ℕ → A) → P s → IsSending P (call s f)
    unfolding call
    IsSending-call s f p = record { sends = λ base w e. Extends-cons p e }

    pub IsSending-if :
        (b : Bool) (m n : Act A) → IsSending P m → IsSending P n → IsSending P (if b then m else n)
    IsSending-if true m n p q = p
    IsSending-if false m n p q = q

  pub IsSending-pools :
      (k : ClientChoice) (f : ℕ → Db → Pool → Result Client × Pool × Db)
      → ((n : ℕ) (db : Db) (p : Pool) → P (Sent.takes_client k (f n db p).0))
      → IsSending P (pools k f)
  unfolding pools
  IsSending-pools k f p = record { sends = λ base w e. Extends-cons (p w.tick w.db w.pool) e }

  module _ {A B : Type 0} where
    continue-sends :
        (c : Checked A) (f : A → Act B) (w : World) (base : List Sent)
        → ((a : A) → c ≡ accepted a → IsSending P (f a))
        → Extends P base w.sent
        → Extends P base (continue c f w).1.sent
    continue-sends (accepted a) f w base q e = (q a refl).sends base w e
    continue-sends (refused x) f w base q e = e

    pub IsSending-bind :
        (m : Act A) (f : A → Act B)
        → IsSending P m
        → ((a : A) → IsSending P (f a))
        → IsSending P (m >>= f)
    unfolding ◌>>=◌
    IsSending-bind m f p q = record {
      sends = λ base w e. continue-sends (m w).0 f (m w).1 base (λ a _. q a) (p.sends base w e);
    }

    -- What the first step has checked is known of the rest.
    pub IsSending-then :
        (m : Act A) (f : A → Act B)
        → IsQuiet m
        → ((w : World) (a : A) → (m w).0 ≡ accepted a → IsSending P (f a))
        → IsSending P (m >>= f)
    unfolding ◌>>=◌
    IsSending-then m f p q = record {
      sends = λ base w e. continue-sends (m w).0 f (m w).1 base (q w) (Extends-same (p.same w) e);
    }

    -- The same from one state, where the rest may speak of the state that it starts in.
    pub bind-sends :
        (m : Act A) (f : A → Act B) (base : List Sent) (w : World)
        → Extends P base (m w).1.sent
        → ((a : A) → (m w).0 ≡ accepted a → Extends P base (f a (m w).1).1.sent)
        → Extends P base ((m >>= f) w).1.sent
    unfolding ◌>>=◌
    bind-sends m f base w e q = go (m w).0 q
      where
        go :
            (c : Checked A)
            → ((a : A) → c ≡ accepted a → Extends P base (f a (m w).1).1.sent)
            → Extends P base (continue c f (m w).1).1.sent
        go (accepted a) k = k a refl
        go (refused x) k = e

    pub sends-then :
        (m : Act A) (f : A → Act B) (w : World)
        → IsQuiet m
        → ((a : A) → (m w).0 ≡ accepted a → IsSending P (f a))
        → Extends P w.sent ((m >>= f) w).1.sent
    sends-then m f w p q =
        let start = Extends-same (p.same w) (Extends-refl w.sent) in
        bind-sends m f w.sent w start (λ a h. (q a h).sends w.sent (m w).1 start)

  pub IsSending-refuse_if :
      {B : Type 0} (b : Bool) (e : AcmeError) (f : Unit {0} → Act B)
      → (b ≡ false → IsSending P (f tt))
      → IsSending P (lift (refuse_if b e) >>= f)
  unfolding ◌>>=◌
  IsSending-refuse_if true e f q = record { sends = λ base w x. x }
  IsSending-refuse_if false e f q = record { sends = λ base w x. (q refl).sends base w x }

pub ruleset sending_rules = (
  IsSending-pure, IsSending-refuse, IsSending-lift, IsSending-gets, IsSending-ask, IsSending-reads,
  IsSending-writes, IsSending-processes, IsSending-call, IsSending-pools, IsSending-if,
  IsSending-bind,
)

-- A lookup sends nothing, and the rest knows what it has found.
pub finds_or-sends :
    {P : Sent → Type 0} {A B : Type 0} (e : AcmeError) (q : ℕ → Db → Result (Option A))
    (f : A → Act B) (base : List Sent) (w : World)
    → Extends P base w.sent
    → ((a : A)
        → q w.tick w.db ≡ ok (some a)
        → Extends P base (f a (record w { tick = ℕ.suc w.tick })).1.sent)
    → Extends P base ((finds_or e q >>= f) w).1.sent
unfolding ◌>>=◌
finds_or-sends {P = P} {A = A} e q f base w start k = go (q w.tick w.db) k
  where
    go :
        (r : Result (Option A))
        → ((a : A)
            → r ≡ ok (some a)
            → Extends P base (f a (record w { tick = ℕ.suc w.tick })).1.sent)
        → Extends P base (continue (found e r) f (record w { tick = ℕ.suc w.tick })).1.sent
    go (ok (some a)) k = k a refl
    go (ok none) k = start
    go (err m) k = start
