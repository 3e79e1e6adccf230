-- ===== src/Web/Server/Outcome.antt =====
-- What a handler of internal/web leaves behind, whether it returns or panics, with a rule for each
-- way to build one.
use grafted_keys.Prelude.{
  ℕ, ◌≡◌, refl, inl, inr, Bool-cases, [], length, drop, leb, Bool, true, false, Text, Option, Bytes,
  if◌then◌else◌,
}
use grafted_keys.Exec.{Exec, Result, ok, err, panicked, pure, continue, ◌>>=◌}
use grafted_keys.Store.Schema.{World}
use grafted_keys.Backup.{Disk, Host}
use grafted_keys.Crypto.{rand_bytes}
use grafted_keys.Auth.Sessions.{Session, Sessions, new}
use grafted_keys.Auth.Limiter.{Limiter}
use grafted_keys.Web.Server.{
  Server, Library, host_of, after_host, attempt_host, attempt_disk, world_of, after_world, attempt,
  token, on_sessions, on_limiter, new_session, returned,
}

abbrev pub Outcome :
    {A : Type 0} → (Server → Type 0) → (A → Server → Type 0) → Result A → Server → Type 0
Outcome E Q (ok a) s = Q a s
Outcome E Q (err e) s = E s

-- From a state with `P` the handler returns with `Q`, or panics in a state with `E`.
pub record Runs {A : Type 0} (E P : Server → Type 0) (m : Exec Server A) (Q : A → Server → Type 0)
    : Type 0 where
  pub at : (s : Server) → P s → Outcome E Q (m s).0 (m s).1

returned-Outcome :
    {A : Type 0} (E : Server → Type 0) (x : Result A) (t : Server) (Q : Result A → Server → Type 0)
    → (x ≡ err panicked → E t)
    → ((y : Result A) → x ≡ y → Q y t)
    → Outcome E Q (returned x) t
returned-Outcome E (ok a) t Q p f = f (ok a) refl
returned-Outcome E (err panicked) t Q p f = p refl
returned-Outcome E (err e) t Q p f = f (err e) refl

module _ {E P : Server → Type 0} where
  pub Runs-pure :
      {A : Type 0} (a : A) (Q : A → Server → Type 0)
      → ((s : Server) → P s → Q a s)
      → Runs E P (pure a) Q
  Runs-pure a Q h = record { at = h }

  pub Runs-bind :
      {A B : Type 0} (m : Exec Server A) (f : A → Exec Server B) (Q : A → Server → Type 0)
      (R : B → Server → Type 0)
      → Runs E P m Q
      → ((a : A) → Runs E (Q a) (f a) R)
      → Runs E P (m >>= f) R
  Runs-bind {A} m f Q R q r = record { at = λ s h. after (m s).0 (m s).1 (q.at s h) }
    where
      after :
          (x : Result A) (t : Server)
          → Outcome E Q x t
          → Outcome E R (continue x f t).0 (continue x f t).1
      after (ok a) t k = (r a).at t k
      after (err e) t k = k

  pub Runs-if :
      {A : Type 0} (b : Bool) (m n : Exec Server A) (Q : A → Server → Type 0)
      → (b ≡ true → Runs E P m Q)
      → (b ≡ false → Runs E P n Q)
      → Runs E P (if b then m else n) Q
  Runs-if true m n Q h k = h refl
  Runs-if false m n Q h k = k refl

  pub Runs-weaken :
      {A : Type 0} (P' : Server → Type 0) (m : Exec Server A) (Q : A → Server → Type 0)
      → ((s : Server) → P s → P' s)
      → Runs E P' m Q
      → Runs E P m Q
  Runs-weaken P' m Q f q = record { at = λ s h. q.at s (f s h) }

  -- A call of the vault.
  pub Runs-attempt :
      {A : Type 0} (m : Exec World A) (Q : Result A → Server → Type 0)
      → ((s : Server) → P s → E (after_world s (m (world_of s)).1))
      → ((s : Server) (x : Result A)
          → P s
          → (m (world_of s)).0 ≡ x
          → Q x (after_world s (m (world_of s)).1))
      → Runs E P (attempt m) Q
  unfolding attempt
  Runs-attempt m Q e q = record {
    at = λ s h. returned-Outcome E (m (world_of s)).0 _ Q (λ _. e s h) λ x k. q s x h k;
  }

  -- A call of package os or of the scheduler.
  pub Runs-attempt_disk :
      {A : Type 0} (m : Exec Disk A) (Q : Result A → Server → Type 0)
      → ((s : Server) → P s → (m s.disk).0 ≡ err panicked → E (record s { disk = (m s.disk).1 }))
      → ((s : Server) (x : Result A)
          → P s
          → (m s.disk).0 ≡ x
          → Q x (record s { disk = (m s.disk).1 }))
      → Runs E P (attempt_disk m) Q
  unfolding attempt_disk
  Runs-attempt_disk m Q e q = record {
    at = λ s h. returned-Outcome E (m s.disk).0 _ Q (e s h) λ x k. q s x h k;
  }

  pub Runs-attempt_host :
      {A : Type 0} (m : Exec Host A) (Q : Result A → Server → Type 0)
      → ((s : Server) → P s → E (after_host s (m (host_of s)).1))
      → ((s : Server) (x : Result A)
          → P s
          → (m (host_of s)).0 ≡ x
          → Q x (after_host s (m (host_of s)).1))
      → Runs E P (attempt_host m) Q
  unfolding attempt_host
  Runs-attempt_host m Q e q = record {
    at = λ s h. returned-Outcome E (m (host_of s)).0 _ Q (λ _. e s h) λ x k. q s x h k;
  }

  pub Runs-on_sessions :
      {A : Type 0} (f : Sessions → ℕ → Sessions × A) (Q : A → Server → Type 0)
      → ((s : Server)
          → P s
          → Q (f s.sessions s.clock).1 (record s { sessions = (f s.sessions s.clock).0 }))
      → Runs E P (on_sessions f) Q
  Runs-on_sessions f Q h = record { at = h }

  pub Runs-on_limiter :
      (f : Limiter → ℕ → Limiter) (Q : Unit {0} → Server → Type 0)
      → ((s : Server) → P s → Q tt (record s { limiter = f s.limiter s.clock }))
      → Runs E P (on_limiter f) Q
  unfolding on_limiter
  Runs-on_limiter f Q h = record { at = h }

  -- The random source may fail.
  pub Runs-token :
      (lib : Library) (Q : Text → Server → Type 0)
      → ((s : Server) (entropy : Bytes) → P s → E (record s { entropy = entropy }))
      → ((s : Server) (entropy : Bytes) (t : Text) → P s → Q t (record s { entropy = entropy }))
      → Runs E P (token lib) Q
  unfolding token rand_bytes
  Runs-token lib Q e q = record {
    at = λ s h. elim (Bool-cases (leb 32 (length s.entropy))) [
      | inl y ↦ rw y (q s (drop 32 s.entropy) _ h)
      | inr y ↦ rw y (e s [] h)
    ];
  }

  -- A new session, with tokens that the random source chooses.
  pub Runs-new_session :
      (lib : Library) (dek : Option Bytes) (pending : Bool) (Q : Session → Server → Type 0)
      → ((s : Server) (entropy : Bytes) → P s → P (record s { entropy = entropy }))
      → ((s : Server) → P s → E s)
      → ((s : Server) (id csrf : Text)
          → P s
          → Q
              (new s.sessions dek pending id csrf s.clock).1
              (record s { sessions = (new s.sessions dek pending id csrf s.clock).0 }))
      → Runs E P (new_session lib dek pending) Q
  unfolding new_session
  Runs-new_session lib dek pending Q stable e q =
      Runs-bind (token lib) _ (λ _. P) Q
        (Runs-token lib _ (λ s t h. e _ (stable s t h)) λ s t x h. stable s t h)
        λ id.
          Runs-bind (token lib) _ (λ _. P) Q
            (Runs-token lib _ (λ s t h. e _ (stable s t h)) λ s t x h. stable s t h)
            λ csrf. Runs-on_sessions _ Q λ s h. q s id csrf h

-- The state that a handler leaves, if it does not matter whether it returns or panics.
pub Runs-state :
    {A : Type 0} (E P : Server → Type 0) (m : Exec Server A) (s : Server)
    → P s
    → Runs E P m (λ _. E)
    → E (m s).1
Runs-state {A} E P m s h q = after (m s).0 (m s).1 (q.at s h)
  where
    after : (x : Result A) (t : Server) → Outcome E (λ _. E) x t → E t
    after (ok a) t k = k
    after (err e) t k = k
