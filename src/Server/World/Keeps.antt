-- ===== src/Server/World/Keeps.antt =====
-- What a block of steps keeps, by a rule for each step: nothing is sent, or the orders or
-- the pool stay.
use acme_gateway.Prelude.{ℕ, Bool, true, false, ◌≡◌, refl, ◌∙◌, if◌then◌else◌}
use acme_gateway.Store.Db.{Db}
use acme_gateway.Server.Errors.{AcmeError}
use acme_gateway.Server.Challenges.{ChallengeProc}
use acme_gateway.Server.Requests.{Checked, accepted, refused}
use acme_gateway.Server.World.{
  Sent, World, Act, pure, refuse, lift, gets, ask, call, reads, writes, processes, continue, ◌>>=◌,
}

-- Nothing is sent, whether the block ends in a value or in a problem.
pub record IsQuiet {A : Type 0} (m : Act A) : Type 0 where
  pub same : (w : World) → (m w).1.sent ≡ w.sent

module _ {A : Type 0} where
  pub IsQuiet-pure : (a : A) → IsQuiet (pure a)
  unfolding pure
  IsQuiet-pure a = record { same = λ w. refl }

  pub IsQuiet-refuse : (e : AcmeError) → IsQuiet (refuse {A = A} e)
  unfolding refuse
  IsQuiet-refuse e = record { same = λ w. refl }

  pub IsQuiet-lift : (c : Checked A) → IsQuiet (lift c)
  unfolding lift
  IsQuiet-lift c = record { same = λ w. refl }

  pub IsQuiet-gets : (f : World → A) → IsQuiet (gets f)
  unfolding gets
  IsQuiet-gets f = record { same = λ w. refl }

  pub IsQuiet-ask : (f : ℕ → A) → IsQuiet (ask f)
  unfolding ask
  IsQuiet-ask f = record { same = λ w. refl }

  pub IsQuiet-reads : (f : ℕ → Db → A) → IsQuiet (reads f)
  unfolding reads
  IsQuiet-reads f = record { same = λ w. refl }

  pub IsQuiet-writes : (f : ℕ → Db → A × Db) → IsQuiet (writes f)
  unfolding writes
  IsQuiet-writes f = record { same = λ w. refl }

  pub IsQuiet-processes : (f : ℕ → ChallengeProc → A × ChallengeProc) → IsQuiet (processes f)
  unfolding processes
  IsQuiet-processes f = record { same = λ w. refl }

  pub IsQuiet-if : (b : Bool) (m n : Act A) → IsQuiet m → IsQuiet n → IsQuiet (if b then m else n)
  IsQuiet-if true m n p q = p
  IsQuiet-if false m n p q = q

module _ {A B : Type 0} where
  continue-same :
      (c : Checked A) (f : A → Act B) (w : World)
      → ((a : A) → IsQuiet (f a))
      → (continue c f w).1.sent ≡ w.sent
  continue-same (accepted a) f w q = (q a).same w
  continue-same (refused e) f w q = refl

  pub IsQuiet-bind :
      (m : Act A) (f : A → Act B) → IsQuiet m → ((a : A) → IsQuiet (f a)) → IsQuiet (m >>= f)
  unfolding ◌>>=◌
  IsQuiet-bind m f p q = record { same = λ w. continue-same (m w).0 f (m w).1 q ∙ p.same w }

pub ruleset quiet_rules = (
  IsQuiet-pure, IsQuiet-refuse, IsQuiet-lift, IsQuiet-gets, IsQuiet-ask, IsQuiet-reads,
  IsQuiet-writes, IsQuiet-processes, IsQuiet-if, IsQuiet-bind,
)

-- The orders stay as they are.
pub record KeepsOrders {A : Type 0} (m : Act A) : Type 0 where
  pub same : (w : World) → (m w).1.db.orders ≡ w.db.orders

module _ {A : Type 0} where
  pub KeepsOrders-pure : (a : A) → KeepsOrders (pure a)
  unfolding ◌>>=◌
  KeepsOrders-pure a = record { same = λ w. refl }

  pub KeepsOrders-lift : (c : Checked A) → KeepsOrders (lift c)
  unfolding ◌>>=◌
  KeepsOrders-lift c = record { same = λ w. refl }

  pub KeepsOrders-ask : (f : ℕ → A) → KeepsOrders (ask f)
  unfolding ◌>>=◌
  KeepsOrders-ask f = record { same = λ w. refl }

  pub KeepsOrders-writes :
      (f : ℕ → Db → A × Db)
      → ((n : ℕ) (db : Db) → (f n db).1.orders ≡ db.orders)
      → KeepsOrders (writes f)
  unfolding ◌>>=◌
  KeepsOrders-writes f h = record { same = λ w. h w.tick w.db }

module _ {A B : Type 0} where
  pub KeepsOrders-bind :
      (m : Act A) (f : A → Act B)
      → KeepsOrders m
      → ((a : A) → KeepsOrders (f a))
      → KeepsOrders (m >>= f)
  unfolding ◌>>=◌
  KeepsOrders-bind m f p q = record { same = λ w. go (m w).0 (m w).1 ∙ p.same w }
    where
      go : (c : Checked A) (w : World) → (continue c f w).1.db.orders ≡ w.db.orders
      go (accepted a) w = (q a).same w
      go (refused e) w = refl

pub ruleset orders_rules =
    (KeepsOrders-pure, KeepsOrders-lift, KeepsOrders-ask, KeepsOrders-writes, KeepsOrders-bind)

-- The pool stays as it is.
pub record KeepsPool {A : Type 0} (m : Act A) : Type 0 where
  pub same : (w : World) → (m w).1.pool ≡ w.pool

module _ {A : Type 0} where
  pub KeepsPool-pure : (a : A) → KeepsPool (pure a)
  unfolding ◌>>=◌
  KeepsPool-pure a = record { same = λ w. refl }

  pub KeepsPool-lift : (c : Checked A) → KeepsPool (lift c)
  unfolding ◌>>=◌
  KeepsPool-lift c = record { same = λ w. refl }

  pub KeepsPool-ask : (f : ℕ → A) → KeepsPool (ask f)
  unfolding ◌>>=◌
  KeepsPool-ask f = record { same = λ w. refl }

  pub KeepsPool-call : (s : Sent) (f : ℕ → A) → KeepsPool (call s f)
  unfolding ◌>>=◌
  KeepsPool-call s f = record { same = λ w. refl }

  pub KeepsPool-writes : (f : ℕ → Db → A × Db) → KeepsPool (writes f)
  unfolding ◌>>=◌
  KeepsPool-writes f = record { same = λ w. refl }

module _ {A B : Type 0} where
  pub KeepsPool-bind :
      (m : Act A) (f : A → Act B) → KeepsPool m → ((a : A) → KeepsPool (f a)) → KeepsPool (m >>= f)
  unfolding ◌>>=◌
  KeepsPool-bind m f p q = record { same = λ w. go (m w).0 (m w).1 ∙ p.same w }
    where
      go : (c : Checked A) (w : World) → (continue c f w).1.pool ≡ w.pool
      go (accepted a) w = (q a).same w
      go (refused e) w = refl

pub ruleset pool_rules = (
  KeepsPool-pure, KeepsPool-lift, KeepsPool-ask, KeepsPool-call, KeepsPool-writes, KeepsPool-bind,
)
