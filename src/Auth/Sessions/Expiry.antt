-- ===== src/Auth/Sessions/Expiry.antt =====
-- What a request may rely on when `Get` of internal/auth/session.go returns a session, and what
-- `Promote` does to one.
use grafted_keys.Prelude.{
  ℕ, ◌+◌, ◌-◌, ◌≤◌, ◌<◌, ◌≡◌, refl, none, some, false, List, [], ◌∷◌, arith, if◌then◌else◌, Text,
  lookup, lookup-insert, lookup-erase, Option, ◌≢◌, inl, inr, Option-cases, ◌∙◌,
}
use grafted_keys.Auth.Sessions.{Session, Sessions, expired, pending_ttl, evict, get, touch}

-- A session that `Get` returns is within its limits: a pending one within `pendingTTL` of its
-- creation, any other within the idle timeout of its last use and the absolute one of its creation.
pub get_within_limits :
    (s : Sessions) (id : Text) (now : ℕ) (sess : Session)
    → lookup id s.m ≡ some sess
    → (get s id now).1 ≢ none
    → (if sess.pending
        then now - sess.created ≤ pending_ttl
        else (now - sess.last_seen ≤ s.idle) × (now - sess.created ≤ s.max))
unfolding get expired
get_within_limits s id now sess e h = ground arith

-- Requests, each with the session that its cookie names and its time, oldest first.
abbrev pub Requests : Type 0
Requests = List (Text × ℕ)

pub get_all : Sessions → Requests → Sessions
get_all s [] = s
get_all s ((id, now) ∷ rs) = get_all (get s id now).0 rs

-- How long a session may live after its creation.
abbrev pub lifetime : Sessions → Session → ℕ
lifetime s sess = if sess.pending then pending_ttl else s.max

-- A session is gone, or differs from what it was in its last use alone.
Aged : Session → Option Session → Type 0
Aged x none = Unit {0}
Aged x (some y) = (y.created ≡ x.created) × (y.pending ≡ x.pending)

get-Aged :
    (s : Sessions) (id k : Text) (now : ℕ) (x : Session)
    → Aged x (lookup k s.m)
    → Aged x (lookup k (get s id now).0.m)
unfolding get evict Aged
get-Aged s id k now x h = elim (Option-cases (lookup id s.m)) [
  | inl e ↦ ground arith
  | inr (sess, e) ↦ ground (arith, lookup-erase id k s.m, lookup-insert id k (touch now sess) s.m)
]

get_all-Aged :
    (s : Sessions) (k : Text) (rs : Requests) (x : Session)
    → Aged x (lookup k s.m)
    → Aged x (lookup k (get_all s rs).m)
unfolding get_all
get_all-Aged s k [] x h = h
get_all-Aged s k ((id, now) ∷ rs) x h =
    get_all-Aged (get s id now).0 k rs x (get-Aged s id k now x h)

max-get : (s : Sessions) (id : Text) (now : ℕ) → (get s id now).0.max ≡ s.max
unfolding get evict
max-get s id now = ground arith

max-get_all : (s : Sessions) (rs : Requests) → (get_all s rs).max ≡ s.max
unfolding get_all
max-get_all s [] = refl
max-get_all s ((id, now) ∷ rs) = max-get_all (get s id now).0 rs ∙ max-get s id now

-- The answer of `Get` for a session whose lifetime is over.
get_over :
    (s : Sessions) (id : Text) (now : ℕ) (x : Session)
    → Aged x (lookup id s.m)
    → x.created + lifetime s x < now
    → (get s id now).1 ≡ none
unfolding get expired Aged
get_over s id now x h over = ground arith

-- Use does not keep a session alive for ever: whatever requests came before, for this session or
-- for others, `Get` returns none once `pendingTTL` has passed since the creation of a pending
-- session, and once the absolute timeout has passed since the creation of any other.
pub lifetime_bounds_get :
    (s : Sessions) (id : Text) (x : Session) (rs : Requests) (now : ℕ)
    → lookup id s.m ≡ some x
    → x.created + lifetime s x < now
    → (get (get_all s rs) id now).1 ≡ none
lifetime_bounds_get s id x rs now e over =
    get_over (get_all s rs) id now x (get_all-Aged s id rs x (rw e (unfold Aged in (refl, refl))))
      (rw (max-get_all s rs) over)

-- The session with the key of `x` that starts its life now.
abbrev pub reborn : Session → Text → Text → ℕ → Session
reborn x id csrf now = record {
  id = id;
  dek = x.dek;
  csrf = csrf;
  pending = false;
  created = now;
  last_seen = now;
}
