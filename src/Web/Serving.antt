-- ===== src/Web/Serving.antt =====
-- internal/web/server.go: what the middleware guarantees of every handler behind it.
use grafted_keys.Prelude.{
  ℕ, ◌≡◌, ◌≢◌, ◌⊎◌, inl, inr, refl, sym, ap, ◌∙◌, Bool, true, false, not, Option, none, some, [],
  ◌∷◌, Text, codes, insert, text_dec, same, if◌then◌else◌, lookup, lookup-insert, arith,
  Option-cases, Bool-cases,
}
use mathlib.Core.Path.{subst}
use grafted_keys.Exec.{Exec, Result, ok, ◌>>=◌}
use grafted_keys.Auth.Sessions.{Session, Sessions, get, evict, touch, unlocked, delete, expired}
use grafted_keys.Crypto.{Primitives, const_equal}
use grafted_keys.Web.Server.{
  Config, Library, Request, form_value, Server, Method, method_post, method_delete, Response,
  respond, error_text,
}
use grafted_keys.Web.Middleware.{
  csrf_token, Handler, Gated, cookie_name, from_cookie, session_mw, csrf_mw, is_read, same_origin,
  holds_token, recovered, recover_mw, serve, need_dek,
}
use grafted_keys.Web.Login.Admitting.{unlocked-delete}
use grafted_keys.Web.Login.Admission.{LoginRoute, login_handler, Credential, login_admits}

abbrev session_by : Option Text → Server → Option Session
session_by none s = none
session_by (some id) s = (get s.sessions id s.clock).1

abbrev pub looked_up : Option Text → Server → Server
looked_up none s = s
looked_up (some id) s = record s { sessions = (get s.sessions id s.clock).0 }

-- The session that the cookie names, and the server after its lookup.
abbrev pub session_of : Config → Request → Server → Option Session
session_of cfg r s = session_by (lookup (cookie_name cfg) r.cookies) s

abbrev pub entered : Config → Request → Server → Server
entered cfg r s = looked_up (lookup (cookie_name cfg) r.cookies) s

const_equal_eq : (a b : Text) → const_equal a b ≡ true → a ≡ b
unfolding const_equal
const_equal_eq [] [] h = refl
const_equal_eq [] (y ∷ b) h = absurd (cc)
const_equal_eq (x ∷ a) [] h = absurd (cc)
const_equal_eq (x ∷ a) (y ∷ b) h = let e = const_equal_eq a b (ground arith) in ground (arith, e)

-- What `Get` returns is a session that is stored and that has not timed out.
get_inversion :
    (m : Sessions) (id : Text) (now : ℕ) (x : Session)
    → (get m id now).1 ≡ some x
    → (sess : Session) × (lookup id m.m ≡ some sess)
      × (expired m sess now ≡ false)
      × (x ≡ touch now sess)
unfolding get
get_inversion m id now x h = elim (Bool-cases (same id [])) [
  | inl e ↦ absurd (ground (arith, h))
  | inr e ↦ elim (Option-cases (lookup id m.m)) [
    | inl n ↦ absurd (ground (arith, h))
    | inr (sess, n) ↦ elim (Bool-cases (expired m sess now)) [
      | inl t ↦ absurd (ground (arith, h))
      | inr t ↦ (let k = rw (e, n, t) at h in (sess, n, t, cc))
    ]
  ]
]

csrf-touch : (now : ℕ) (sess : Session) → (touch now sess).csrf ≡ sess.csrf
csrf-touch now sess = ground arith

-- The request sends the token: in the header, or, without one, in the field of a form.
abbrev pub Sends : Request → Text → Type 0
Sends r token =
    ((r.csrf_header ≢ []) × (r.csrf_header ≡ token))
    ⊎ ((r.csrf_header ≡ []) × (form_value r (codes "_csrf") ≡ token))

holds_token-Sends :
    (r : Request) (sess : Session) → holds_token r (some sess) ≡ true → Sends r sess.csrf
unfolding holds_token csrf_token
holds_token-Sends r sess h = elim (text_dec r.csrf_header []) [
  | yes e ↦ inr (e, ground (arith, e, const_equal_eq sess.csrf (csrf_token r) h))
  | no n ↦ inl (n, ground (arith, n, const_equal_eq sess.csrf (csrf_token r) h))
]

holds_token-some :
    (r : Request) (o : Option Session) → holds_token r o ≡ true → (x : Session) × (o ≡ some x)
unfolding holds_token
holds_token-some r none h = absurd (cc)
holds_token-some r (some x) h = (x, refl)

abbrev pub Changes : Method → Type 0
Changes m = (m ≡ method_post) ⊎ (m ≡ method_delete)

module _ (cfg : Config) where
  -- The cookie of the request names a session that is stored and has not timed out, and the request
  -- sends the token of that session.
  pub record Carries (r : Request) (s : Server) : Type 0 where
    pub id : Text
    pub sess : Session
    pub named : lookup (cookie_name cfg) r.cookies ≡ some id
    pub stored : lookup id s.sessions.m ≡ some sess
    pub live : expired s.sessions sess s.clock ≡ false
    pub token : Sends r sess.csrf

  session_by-Carries :
      (r : Request) (s : Server) (o : Option Text)
      → lookup (cookie_name cfg) r.cookies ≡ o
      → holds_token r (session_by o s) ≡ true
      → Carries r s
  session_by-Carries r s none e h = let (x, k) = holds_token-some r none h in absurd (cc)
  session_by-Carries r s (some id) e h =
      let (x, found) = holds_token-some r (get s.sessions id s.clock).1 h in
      let (sess, stored, live, same_one) = get_inversion s.sessions id s.clock x found in
      record {
        id = id;
        sess = sess;
        named = e;
        stored = stored;
        live = live;
        token =
            subst (Sends r) (ap (λ y. y.csrf) same_one ∙ csrf-touch s.clock sess)
              (holds_token-Sends r x (subst (λ o. holds_token r o ≡ true) found h));
      }

  holds_token-Carries :
      (r : Request) (s : Server) → holds_token r (session_of cfg r s) ≡ true → Carries r s
  holds_token-Carries r s h = session_by-Carries r s (lookup (cookie_name cfg) r.cookies) refl h

module _ (cfg : Config) (lib : Library) where
  from_cookie_then :
      (f : Option Session → Exec Server Response) (o : Option Text) (s : Server)
      → (from_cookie o >>= f) s ≡ f (session_by o s) (looked_up o s)
  unfolding from_cookie
  from_cookie_then f none s = refl
  from_cookie_then f (some id) s = refl

  pub serve_enters :
      (h : Handler) (r : Request) (s : Server)
      → serve cfg lib h r s ≡ recover_mw (csrf_mw lib h r (session_of cfg r s)) (entered cfg r s)
  unfolding serve session_mw recover_mw
  serve_enters h r s =
      ap (λ (x : Result Response × Server). (recovered x.0, x.1))
        (from_cookie_then (csrf_mw lib h r) (lookup (cookie_name cfg) r.cookies) s)

  -- A POST or a DELETE is answered with 403, whatever handler it is for, if its cookie names no session
  -- that is stored and has not timed out, or if it does not send the token of that session, in the
  -- header or, without one, in the form; and it changes nothing: of the server, only what the lookup of
  -- its own cookie does to the sessions.
  pub serve_refuses :
      (h : Handler) (r : Request) (s : Server)
      → Changes r.method
      → ¬ Carries cfg r s
      → (text : Text) × (serve cfg lib h r s
          ≡ (ok (respond 403 [] (error_text text)), entered cfg r s))
  unfolding csrf_mw recover_mw
  serve_refuses h r s w c =
      let m : is_read r.method ≡ false = elim w [ inl e ↦ rw e refl | inr e ↦ rw e refl ] in
      let t : holds_token r (session_of cfg r s) ≡ false =
        elim (Bool-cases (holds_token r (session_of cfg r s))) [
          | inl e ↦ absurd (c (holds_token-Carries cfg r s e))
          | inr e ↦ e
        ] in
      elim (Bool-cases (same_origin lib r)) [
        | inl e ↦ (codes "csrf", serve_enters h r s ∙ rw (m, e, t) refl)
        | inr e ↦ (codes "bad origin", serve_enters h r s ∙ rw (m, e) refl)
      ]

  need_dek_same :
      (fn other : Gated) (r : Request) (o : Option Session)
      → unlocked o ≡ false
      → need_dek fn r o ≡ need_dek other r o
  unfolding need_dek
  need_dek_same fn other r o q = rw q refl

  -- A handler behind `needDEK` has no part in a request whose session is not unlocked, be it absent,
  -- expired, or pending its second factor: any other handler would give the same response and leave
  -- the same state.
  pub serve_gated :
      (fn other : Gated) (r : Request) (s : Server)
      → unlocked (session_of cfg r s) ≡ false
      → serve cfg lib (need_dek fn) r s ≡ serve cfg lib (need_dek other) r s
  unfolding csrf_mw
  serve_gated fn other r s e =
      serve_enters (need_dek fn) r s
      ∙ ap (λ m. recover_mw m (entered cfg r s)) (same_answer (session_of cfg r s) e)
      ∙ sym (serve_enters (need_dek other) r s)
    where
      same_answer :
          (o : Option Session)
          → unlocked o ≡ false
          → csrf_mw lib (need_dek fn) r o ≡ csrf_mw lib (need_dek other) r o
      same_answer o q = ap (λ m. csrf_mw lib (λ _ _. m) r o) (need_dek_same fn other r o q)

get-cases :
    (m : Sessions) (id : Text) (now : ℕ)
    → ((get m id now).0 ≡ m)
      ⊎ ((get m id now).0 ≡ evict m id)
      ⊎ ((sess : Session) × (lookup id m.m ≡ some sess)
          × ((get m id now).0 ≡ record m { m = insert id (touch now sess) m.m }))
unfolding get
get-cases m id now = elim (Bool-cases (same id [])) [
  | inl e ↦ inl (rw e refl)
  | inr e ↦ elim (Option-cases (lookup id m.m)) [
    | inl n ↦ inl (rw (e, n) refl)
    | inr (sess, n) ↦ elim (Bool-cases (expired m sess now)) [
      | inl x ↦ inr (inl (rw (e, n, x) refl))
      | inr x ↦ inr (inr (sess, n, rw (e, n, x) refl))
    ]
  ]
]

unlocked-touch :
    (m : Sessions) (id k : Text) (now : ℕ) (sess : Session)
    → lookup id m.m ≡ some sess
    → unlocked (lookup k (insert id (touch now sess) m.m)) ≡ true
    → unlocked (lookup k m.m) ≡ true
unfolding unlocked
unlocked-touch m id k now sess n = elim (text_dec id k) [
  | yes q ↦
      subst
        (λ j.
          unlocked (lookup j (insert id (touch now sess) m.m)) ≡ true
          → unlocked (lookup j m.m) ≡ true)
        q λ u. ground (arith, lookup-insert id id (touch now sess) m.m)
  | no q ↦ λ u. ground (arith, lookup-insert id k (touch now sess) m.m)
]

unlocked-get :
    (m : Sessions) (id k : Text) (now : ℕ)
    → unlocked (lookup k (get m id now).0.m) ≡ true
    → unlocked (lookup k m.m) ≡ true
unlocked-get m id k now h = elim (get-cases m id now) [
  | inl e ↦ rw e at h
  | inr (inl e) ↦ unlocked-delete m id k (unfold delete in rw e at h)
  | inr (inr (sess, n, e)) ↦ unlocked-touch m id k now sess n (rw e at h)
]

unlocked-looked_up :
    (o : Option Text) (s : Server) (k : Text)
    → unlocked (lookup k (looked_up o s).sessions.m) ≡ true
    → unlocked (lookup k s.sessions.m) ≡ true
unlocked-looked_up none s k u = u
unlocked-looked_up (some id) s k u = unlocked-get s.sessions id k s.clock u

faults-looked_up : (o : Option Text) (s : Server) → (looked_up o s).faults ≡ s.faults
faults-looked_up none s = refl
faults-looked_up (some id) s = refl

either : {A : Type 0} (P : A → Type 0) (b : Bool) (m n : A) → P m → P n → P (if b then m else n)
either P true m n h k = h
either P false m n h k = k

module _ (cfg : Config) (lib : Library) (p : Primitives) where
  csrf_admits :
      (route : LoginRoute) (r : Request) (o : Option Session) (s : Server) (k : Text)
      → s.faults ≡ []
      → unlocked
          (lookup k (recover_mw (csrf_mw lib (login_handler cfg lib p route) r o) s).1.sessions.m)
        ≡ true
      → (unlocked (lookup k s.sessions.m) ≡ true) ⊎ Credential cfg lib p route r o s
  unfolding csrf_mw recover_mw
  csrf_admits route r o s k f = either Shows (is_read r.method) _ _ here (
      either Shows (not (same_origin lib r)) _ _ inl
        (either Shows (not (holds_token r o)) _ _ inl here))
    where
      Shows : Exec Server Response → Type 0
      Shows m =
          unlocked (lookup k (m s).1.sessions.m) ≡ true
          → (unlocked (lookup k s.sessions.m) ≡ true) ⊎ Credential cfg lib p route r o s

      here : Shows (login_handler cfg lib p route r o)
      here u = login_admits cfg lib p route r o s f k u

  -- After any request to the handlers that need no key, with a driver that does not fail, a session
  -- is unlocked only if it was unlocked before, or if the request has shown the credential of its
  -- route: to `POST /setup`, that there is no vault yet; to `POST /unlock`, the passphrase of a vault
  -- without a second factor; to `POST /unlock/totp`, a session that is pending its second factor and
  -- a code that `VerifyLoginTOTP` accepts; the other routes let nobody in.
  pub serve_admits :
      (route : LoginRoute) (r : Request) (s : Server) (k : Text)
      → s.faults ≡ []
      → unlocked (lookup k (serve cfg lib (login_handler cfg lib p route) r s).1.sessions.m) ≡ true
      → (unlocked (lookup k s.sessions.m) ≡ true)
        ⊎ Credential cfg lib p route r (session_of cfg r s) (entered cfg r s)
  serve_admits route r s k f u =
      elim (csrf_admits route r (session_of cfg r s) (entered cfg r s) k (faults-looked_up _ s ∙ f)
        (subst (λ (x : Result Response × Server). unlocked (lookup k x.1.sessions.m) ≡ true)
          (serve_enters cfg lib (login_handler cfg lib p route) r s) u)) [
            | inl h ↦ inl (unlocked-looked_up _ s k h)
            | inr a ↦ inr a
          ]
