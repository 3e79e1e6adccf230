-- ===== src/Store/Atomic.antt =====
-- Operations on the world that leave the database alone, and operations that leave it alone when
-- they fail, with a rule for each way to build one.
use grafted_keys.Prelude.{◌≡◌, refl, ◌∙◌, Bool, true, false, arith, if◌then◌else◌, Option}
use grafted_keys.Exec.{Error, Exec, Result, ok, err, pure, raise, lift, ◌>>=◌}
use grafted_keys.Store.Schema.{World, Db, query, query_row, execute, exec1}
use grafted_keys.Store.Transaction.{transaction, settle}

pub record Quiet {A : Type 0} (m : Exec World A) : Type 0 where
  pub at : (w : World) → (m w).1.db ≡ w.db

pub record Atomic {A : Type 0} (m : Exec World A) : Type 0 where
  pub at : (w : World) (e : Error) → (m w).0 ≡ err e → (m w).1.db ≡ w.db

module _ {A : Type 0} where
  pub Quiet-pure : (a : A) → Quiet (pure a)
  Quiet-pure a = record { at = λ w. refl }

  pub Quiet-raise : (e : Error) → Quiet (raise {A = A} e)
  Quiet-raise e = record { at = λ w. refl }

  pub Quiet-lift : (r : Result A) → Quiet (lift r)
  Quiet-lift r = record { at = λ w. refl }

  pub Quiet-query : (f : Db → A) → Quiet (query f)
  unfolding query
  Quiet-query f = record { at = λ w. ground arith }

  pub Quiet-query_row : (f : Db → Option A) → Quiet (query_row f)
  unfolding query_row
  Quiet-query_row f = record { at = λ w. ground arith }

  pub Atomic-Quiet : (m : Exec World A) → Quiet m → Atomic m
  Atomic-Quiet m q = record { at = λ w e h. q.at w }

  pub Quiet-if : (b : Bool) (m n : Exec World A) → Quiet m → Quiet n → Quiet (if b then m else n)
  Quiet-if true m n q r = q
  Quiet-if false m n q r = r

  pub Atomic-if :
      (b : Bool) (m n : Exec World A) → Atomic m → Atomic n → Atomic (if b then m else n)
  Atomic-if true m n q r = q
  Atomic-if false m n q r = r

pub Atomic-execute : (allowed : World → Bool) (f : World → Db) → Atomic (execute allowed f)
unfolding execute
Atomic-execute allowed f = record { at = λ w e h. ground arith }

pub Atomic-exec1 : (matches : Db → Bool) (f : World → Db) → Atomic (exec1 matches f)
unfolding exec1
Atomic-exec1 matches f = record { at = λ w e h. ground arith }

module _ {A B : Type 0} where
  pub Quiet-bind :
      (m : Exec World A) (f : A → Exec World B)
      → Quiet m
      → ((a : A) → Quiet (f a))
      → Quiet (m >>= f)
  Quiet-bind m f q r = record { at = λ w. after (m w).0 (m w).1 ∙ q.at w }
    where
      after : (x : Result A) (v : World) → ((lift x >>= f) v).1.db ≡ v.db
      after (ok a) v = (r a).at v
      after (err e) v = refl

  -- Reads first, then an operation that leaves the database alone when it fails.
  pub Atomic-bind :
      (m : Exec World A) (f : A → Exec World B)
      → Quiet m
      → ((a : A) → Atomic (f a))
      → Atomic (m >>= f)
  Atomic-bind m f q r = record { at = λ w e h. after (m w).0 (m w).1 e h ∙ q.at w }
    where
      after :
          (x : Result A) (v : World) (e : Error)
          → ((lift x >>= f) v).0 ≡ err e
          → ((lift x >>= f) v).1.db ≡ v.db
      after (ok a) v e h = (r a).at v e h
      after (err d) v e h = refl

  -- A write, and a value to return.
  pub Atomic-then_pure : (m : Exec World A) (b : B) → Atomic m → Atomic (m >>= λ _. pure b)
  Atomic-then_pure m b q = record { at = λ w e h. after (m w).0 (m w).1 w e h (q.at w) }
    where
      after :
          (x : Result A) (v w : World) (e : Error)
          → ((lift x >>= λ _. pure b) v).0 ≡ err e
          → ((d : Error) → x ≡ err d → v.db ≡ w.db)
          → ((lift x >>= λ _. pure b) v).1.db ≡ w.db
      after (ok a) v w e h k = cc
      after (err d) v w e h k = k d refl

settled :
    {A : Type 0}
    → (db : Db) (r : Result A × World) (e : Error) → (settle db r).0 ≡ err e
    → (settle db r).1.db ≡ db
settled db (ok a, w) e h = cc
settled db (err d, w) e h = refl

pub Atomic-transaction : (body : Exec World (Unit {0})) → Atomic (transaction body)
unfolding transaction
Atomic-transaction body = record { at = λ w e h. settled w.db _ e h }

pub ruleset quiet_rules =
    (Quiet-pure, Quiet-raise, Quiet-lift, Quiet-query, Quiet-query_row, Quiet-if, Quiet-bind)

pub ruleset atomic_rules = (
  quiet_rules, Atomic-Quiet, Atomic-if, Atomic-execute, Atomic-exec1, Atomic-bind, Atomic-then_pure,
  Atomic-transaction,
)
