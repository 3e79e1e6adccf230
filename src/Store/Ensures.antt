-- ===== src/Store/Ensures.antt =====
-- What an operation on the world ensures of the database when it succeeds, with a rule for each way
-- to build an operation.
use grafted_keys.Prelude.{◌≡◌, refl, ap, ◌∙◌, Bool, true, false, Option, some, arith, if◌then◌else◌}
use grafted_keys.Exec.{Error, Exec, Result, ok, err, pure, raise, lift, ◌>>=◌, ◌>>◌}
use grafted_keys.Store.Schema.{World, Db, query, query_row, execute}
use grafted_keys.Store.Transaction.{transaction, settle, no_effect}
use grafted_keys.Store.Atomic.{Quiet, Quiet-query, Quiet-query_row}

pub record Ensures {A : Type 0} (P : Db → Type 0) (m : Exec World A) (Q : A → Db → Type 0)
    : Type 0 where
  pub at : (w : World) (a : A) → P w.db → (m w).0 ≡ ok a → Q a (m w).1.db

module _ {A : Type 0} {P : Db → Type 0} where
  pub Ensures-raise : (e : Error) (Q : A → Db → Type 0) → Ensures P (raise {A = A} e) Q
  Ensures-raise e Q = record { at = λ w a h r. absurd (ground arith) }

  pub Ensures-pure :
      (a : A) (Q : A → Db → Type 0) → ((db : Db) → P db → Q a db) → Ensures P (pure a) Q
  Ensures-pure a Q h = record { at = λ w b k r. rw (← ok_inj a b r) (h w.db k) }
    where
      ok_inj : (x y : A) → ok x ≡ ok y → x ≡ y
      ok_inj x y r = cc

  pub Ensures-if :
      (b : Bool) (m n : Exec World A) (Q : A → Db → Type 0)
      → (b ≡ true → Ensures P m Q)
      → (b ≡ false → Ensures P n Q)
      → Ensures P (if b then m else n) Q
  Ensures-if true m n Q h k = h refl
  Ensures-if false m n Q h k = k refl

pub execute_inversion :
    (allowed : World → Bool) (f : World → Db) (w : World)
    → (execute allowed f w).0 ≡ ok tt
    → (allowed w ≡ true) × ((execute allowed f w).1.db ≡ f w)
unfolding execute
execute_inversion allowed f w r = ground arith

module _ {P : Db → Type 0} where
  pub Ensures-execute :
      (allowed : World → Bool) (f : World → Db) (Q : Unit {0} → Db → Type 0)
      → ((w : World) → P w.db → allowed w ≡ true → Q tt (f w))
      → Ensures P (execute allowed f) Q
  Ensures-execute allowed f Q h = record {
    at = λ w a k r. let (t, e) = execute_inversion allowed f w r in rw e (h w k t);
  }

module _ {A : Type 0} {P : Db → Type 0} where
  -- What is read is what the database holds.
  pub Ensures-query_row :
      (f : Db → Option A) → Ensures P (query_row f) (λ a db. P db × (f db ≡ some a))
  unfolding query_row
  Ensures-query_row f = record { at = λ w a k r. (rw ((Quiet-query_row f).at w) k, ground arith) }

-- A query of a database that is known.
pub Ensures-query :
    {A : Type 0}
    → (f : Db → A) (db : Db) → Ensures (λ x. x ≡ db) (query f) (λ a x. (x ≡ db) × (a ≡ f db))
unfolding query
Ensures-query {A = A} f db = record {
  at = λ w a k r. ((Quiet-query f).at w ∙ k, query_inversion w a r ∙ ap f k);
}
  where
    query_inversion : (w : World) (a : A) → (query f w).0 ≡ ok a → a ≡ f w.db
    query_inversion w a r = ground arith

module _ {A B : Type 0} {P : Db → Type 0} where
  pub Ensures-bind :
      (m : Exec World A) (f : A → Exec World B) (R : A → Db → Type 0) (Q : B → Db → Type 0)
      → Ensures P m R
      → ((a : A) → Ensures (R a) (f a) Q)
      → Ensures P (m >>= f) Q
  Ensures-bind m f R Q g h = record {
    at = λ w b k r. after (m w).0 (m w).1 b (λ a e. g.at w a k e) r;
  }
    where
      after :
          (x : Result A) (v : World) (b : B)
          → ((a : A) → x ≡ ok a → R a v.db)
          → ((lift x >>= f) v).0 ≡ ok b
          → Q b ((lift x >>= f) v).1.db
      after (ok a) v b k r = (h a).at v b (k a refl) r
      after (err e) v b k r = absurd (ground arith)

  -- Reads keep what is known.
  pub Ensures-read :
      (m : Exec World A) (f : A → Exec World B) (Q : B → Db → Type 0)
      → Quiet m
      → ((a : A) → Ensures P (f a) Q)
      → Ensures P (m >>= f) Q
  Ensures-read m f Q q h = Ensures-bind m f (λ _. P) Q (record { at = λ w a k r. rw (q.at w) k }) h

-- A fact that does not depend on the database is at hand after the operation.
pub Ensures-with :
    {A K : Type 0} {P : Db → Type 0} {m : Exec World A} {Q R : A → Db → Type 0}
    → Ensures P m Q
    → ((a : A) (db : Db) → Q a db → K → R a db)
    → Ensures (λ db. P db × K) m R
Ensures-with g f = record { at = λ w a (h, k) r. f a _ (g.at w a h r) k }

settle_inversion :
    {A : Type 0} (db : Db) (r : Result A × World) (a : A)
    → (settle db r).0 ≡ ok a
    → (r.0 ≡ ok a) × ((settle db r).1.db ≡ r.1.db)
settle_inversion db (ok b, w) a h = (h, refl)
settle_inversion db (err e, w) a h = absurd (cc)

module _ {P : Db → Type 0} where
  -- What the body of a transaction ensures, the committed transaction ensures.
  pub Ensures-transaction :
      (body : Exec World (Unit {0})) (Q : Unit {0} → Db → Type 0)
      → Ensures P body Q
      → Ensures P (transaction body) Q
  unfolding transaction no_effect
  Ensures-transaction body Q g = record {
    at = λ w a k h.
        let (q, e) = settle_inversion w.db ((no_effect >> (body >> no_effect)) w) a h in
        rw e (whole.at w a k q);
  }
    where
      whole : Ensures P (no_effect >> (body >> no_effect)) Q
      whole =
          Ensures-bind no_effect (λ _. body >> no_effect) (λ _. P) Q
            (Ensures-execute (λ _. true) (λ w. w.db) (λ _. P) λ w k t. k)
            λ _.
              Ensures-bind body (λ _. no_effect) Q Q g
                λ u. Ensures-execute (λ _. true) (λ w. w.db) Q λ w k t. k
