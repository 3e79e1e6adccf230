-- ===== src/Web/Login/Admitting.antt =====
-- Rules for the handlers of internal/web/handlers_auth.go: which sessions they unlock.
use grafted_keys.Prelude.{
  ℕ, ◌≡◌, ◌⊎◌, inl, inr, refl, Bool, true, false, not, Option, none, some, List, Text, Bytes, Dict,
  lookup, lookup-insert, lookup-erase, arith, Bool-cases, ◌&&◌, Option-cases,
}
use grafted_keys.Exec.{Exec, Result, ok, err, pure, ◌>>◌}
use grafted_keys.Store.Schema.{Db}
use grafted_keys.Auth.Sessions.{Session, Sessions, unlocked, new, delete, evict, is_some}
use grafted_keys.Auth.Limiter.{allowed}
use grafted_keys.Web.Server.{Library, Server, Response, new_session, delete_session}
use grafted_keys.Web.Server.Outcome.{
  Outcome, Runs, Runs-pure, Runs-bind, Runs-on_sessions, Runs-on_limiter, Runs-new_session,
  Runs-state,
}
use grafted_keys.Web.Login.{preauth, count_failure, replace_session, throttled}

pub unlocked-delete :
    (m : Sessions) (id k : Text)
    → unlocked (lookup k (delete m id).m) ≡ true
    → unlocked (lookup k m.m) ≡ true
unfolding delete evict unlocked
unlocked-delete m id k h = elim (Option-cases (lookup id m.m)) [
  | inl e ↦ ground arith
  | inr (sess, e) ↦ ground (arith, lookup-erase id k m.m)
]

-- A session that is new is not unlocked if it is pending or has no key.
unlocked-new :
    (m : Sessions) (dek : Option Bytes) (pending : Bool) (id csrf : Text) (now : ℕ) (k : Text)
    → is_some dek && not pending ≡ false
    → unlocked (lookup k (new m dek pending id csrf now).0.m) ≡ true
    → unlocked (lookup k m.m) ≡ true
unfolding new unlocked
unlocked-new m none pending id csrf now k e h =
    ground (arith, lookup-insert id k (new m none pending id csrf now).1 m.m)
unlocked-new m (some dek) pending id csrf now k e h =
    ground (arith, lookup-insert id k (new m (some dek) pending id csrf now).1 m.m)

-- What an unlocked session shows of the request, if it was not unlocked before: `A`.
module _ (start : Dict Session) (A : Type 0) where
  abbrev pub Admitted : Server → Type 0
  Admitted s =
      (k : Text) → unlocked (lookup k s.sessions.m) ≡ true → (unlocked (lookup k start) ≡ true) ⊎ A

  -- Beside what is known of the database and of the driver.
  abbrev pub Known : (Db → List Bool → Type 0) → Server → Type 0
  Known X s = Admitted s × X s.db s.faults

  -- Once the request has shown `A`, it may do what it likes.
  pub Admitted-any :
      {B : Type 0} (P : Server → Type 0) (m : Exec Server B) → A → Runs Admitted P m (λ _. Admitted)
  Admitted-any {B} P m a = record { at = λ s h. after (m s).0 (m s).1 }
    where
      after : (x : Result B) (t : Server) → Outcome Admitted (λ _. Admitted) x t
      after (ok b) t = λ k u. inr a
      after (err e) t = λ k u. inr a

  module _ (X : Db → List Bool → Type 0) where
    Known-delete_session : (id : Text) → Runs Admitted (Known X) (delete_session id) (λ _. Known X)
    unfolding delete_session
    Known-delete_session id =
        Runs-on_sessions (λ m now. (delete m id, tt)) _
          λ s (h, x). (λ k u. h k (unlocked-delete s.sessions id k u), x)

    Known-new_session :
        (lib : Library) (dek : Option Bytes) (pending : Bool)
        → is_some dek && not pending ≡ false
        → Runs Admitted (Known X) (new_session lib dek pending) (λ _. Known X)
    Known-new_session lib dek pending e =
        Runs-new_session lib dek pending _ (λ s t h. h) (λ s h. h.0)
          λ s id csrf (h, x).
            (λ k u. h k (unlocked-new s.sessions dek pending id csrf s.clock k e u), x)

    pub Known-preauth :
        (lib : Library) (sess : Option Session)
        → Runs Admitted (Known X) (preauth lib sess) (λ _. Known X)
    unfolding preauth
    Known-preauth lib none =
        Runs-bind (new_session lib none false) _ (λ _. Known X) (λ _. Known X)
          (Known-new_session lib none false refl) λ sess. Runs-pure _ _ (λ s h. h)
    Known-preauth lib (some sess) = Runs-pure _ _ (λ s h. h)

    pub Known-hold :
        (lib : Library) (id : Text) (dek : Bytes)
        → Runs Admitted (Known X) (replace_session lib id dek true) (λ _. Known X)
    unfolding replace_session
    Known-hold lib id dek =
        Runs-bind (delete_session id) _ (λ _. Known X) (λ _. Known X) (Known-delete_session id)
          λ _. Known-new_session lib (some dek) true refl

    -- The end of a handler.
    pub Admitted-pure : {B : Type 0} (b : B) → Runs Admitted (Known X) (pure b) (λ _. Admitted)
    Admitted-pure b = Runs-pure b _ (λ s h. h.0)

    pub Admitted-count_failure :
        {B : Type 0} (ip : Text) (b : B)
        → Runs Admitted (Known X) (count_failure ip >> pure b) (λ _. Admitted)
    Admitted-count_failure ip b =
        Runs-bind (count_failure ip) _ (λ _. Known X) (λ _. Admitted)
          (Runs-on_limiter _ _ (λ s h. h)) λ _. Admitted-pure b

    pub Admitted-throttled :
        (ip : Text) (f : ℕ → Response) (m : Exec Server Response)
        → Runs Admitted (Known X) m (λ _. Admitted)
        → Runs Admitted (Known X) (throttled ip (λ wait. pure (f wait)) m) (λ _. Admitted)
    Admitted-throttled ip f m q = record {
      at = λ s h. elim (Bool-cases (allowed s.limiter ip s.clock)) [
        | inl e ↦ rw e (q.at s h)
        | inr e ↦ rw e h.0
      ];
    }

    -- What the state is known to show.
    pub Admitted-if :
        {B : Type 0} (m : Exec Server B)
        → ((s : Server) → X s.db s.faults → A)
        → Runs Admitted (Known X) m (λ _. Admitted)
    Admitted-if m a = record { at = λ s h. (Admitted-any (Known X) m (a s h.1)).at s h }

-- The sessions that a handler leaves unlocked.
pub Admitted-after :
    {B : Type 0} (s : Server) (A : Type 0) (P : Server → Type 0) (m : Exec Server B)
    → P s
    → Runs (Admitted s.sessions.m A) P m (λ _. Admitted s.sessions.m A)
    → Admitted s.sessions.m A (m s).1
Admitted-after s A P m h q = Runs-state (Admitted s.sessions.m A) P m s h q
