-- ===== src/Auth/Sessions.antt =====
-- internal/auth/session.go. The mutex makes each method one step. The time that `time.Now` returns
-- and the identifiers that `token` draws are arguments. A data key is a buffer in `mem`, and a
-- session refers to it by its address, as a Go slice does: `crypto.Zero` writes to the buffer.
pub mod Expiry
pub mod Buffers
mod Tests
pub mod Custody
use grafted_keys.Prelude.{
  ℕ, ◌-◌, ◌*◌, ◌≡◌, Bool, true, false, not, ◌&&◌, ◌||◌, Option, none, some, List, [], ◌∷◌, ◌++◌,
  map, ltb, if◌then◌else◌, Bytes, Text, length, get_elem?, set, Dict, lookup, insert, erase, same,
}
use grafted_keys.Auth.Limiter.{minute}

pub record Session : Type 0 where
  pub id : Text
  pub dek : Option ℕ
  pub csrf : Text
  pub pending : Bool
  pub created : ℕ
  pub last_seen : ℕ

abbrev pub is_some {ℓ} : {A : Type ℓ} → Option A → Bool
is_some none = false
is_some (some a) = true

-- A nil session is not unlocked.
unfoldable pub unlocked : Option Session → Bool
unlocked none = false
unlocked (some s) = is_some s.dek && not s.pending

abbrev pub pending_ttl : ℕ
pending_ttl = 2 * minute

pub record Sessions : Type 0 where
  pub m : Dict Session
  pub idle : ℕ
  pub max : ℕ
  pub mem : List Bytes

unfoldable pub expired : Sessions → Session → ℕ → Bool
expired s sess now =
    if sess.pending
    then ltb pending_ttl (now - sess.created)
    else ltb s.idle (now - sess.last_seen) || ltb s.max (now - sess.created)

pub new_sessions : ℕ → ℕ → Sessions
new_sessions idle max = record { m = []; idle = idle; max = max; mem = [] }

-- crypto.Zero
unfoldable pub zero_bytes : Bytes → Bytes
zero_bytes = map (λ _. 0)

-- `crypto.Zero(sess.DEK)`; a nil slice has nothing to clear.
abbrev pub zero_key : Option ℕ → List Bytes → List Bytes
zero_key none mem = mem
zero_key (some a) mem = elim (get_elem? mem a) [ none ↦ mem | some b ↦ set mem a (zero_bytes b) ]

abbrev pub timeouts : Sessions → ℕ × ℕ
timeouts s = (s.idle, s.max)

unfoldable pub set_timeouts : Sessions → ℕ → ℕ → Sessions
set_timeouts s idle max = record s { idle = idle; max = max }

-- A key that the caller hands over is a new buffer; its address is the end of `mem`.
abbrev key_address : List Bytes → Option Bytes → Option ℕ
key_address mem none = none
key_address mem (some key) = some (length mem)

abbrev with_key : List Bytes → Option Bytes → List Bytes
with_key mem none = mem
with_key mem (some key) = mem ++ key ∷ []

-- `New`, with the identifier and the CSRF token that it drew.
unfoldable pub new : Sessions → Option Bytes → Bool → Text → Text → ℕ → Sessions × Session
new s dek pending id csrf now =
    (record s { m = insert id sess s.m; mem = with_key s.mem dek }, sess)
  where
    sess : Session
    sess = record {
      id = id;
      dek = key_address s.mem dek;
      csrf = csrf;
      pending = pending;
      created = now;
      last_seen = now;
    }

unfoldable pub evict : Sessions → Text → Sessions
evict s id = elim (lookup id s.m) [
  | none ↦ s
  | some sess ↦ record s { m = erase id s.m; mem = zero_key sess.dek s.mem }
]

-- The idle timer, which a pending session cannot refresh.
abbrev pub touch : ℕ → Session → Session
touch now sess = if sess.pending then sess else record sess { last_seen = now }

get_found : Sessions → Text → ℕ → Session → Sessions × Option Session
get_found s id now sess =
    if expired s sess now
    then (evict s id, none)
    else (record s { m = insert id (touch now sess) s.m }, some (touch now sess))

unfoldable pub get : Sessions → Text → ℕ → Sessions × Option Session
unfolding get_found
get s id now =
    if same id []
    then (s, none)
    else elim (lookup id s.m) [ none ↦ (s, none) | some sess ↦ get_found s id now sess ]

abbrev pub promoted : Session → Text → Text → ℕ → Session
promoted sess id csrf now = record sess {
  id = id;
  csrf = csrf;
  pending = false;
  created = now;
  last_seen = now;
}

unfoldable pub promote : Sessions → Text → Text → Text → ℕ → Sessions × Option Session
promote s id new_id csrf now = elim (lookup id s.m) [
  | none ↦ (s, none)
  | some sess ↦ (
    record s { m = insert new_id (promoted sess new_id csrf now) (erase id s.m) },
    some (promoted sess new_id csrf now),
  )
]

unfoldable pub delete : Sessions → Text → Sessions
delete s id = evict s id

-- The new key is a buffer that the caller hands over, whether or not the session is still there.
unfoldable pub set_dek : Sessions → Text → Bytes → Sessions
set_dek s id key = elim (lookup id s.m) [
  | none ↦ record s { mem = s.mem ++ key ∷ [] }
  | some sess ↦ record s {
    m = insert id (record sess { dek = some (length s.mem) }) s.m;
    mem = zero_key sess.dek s.mem ++ key ∷ [];
  }
]

-- The `range` loop: each entry of the map as it was, evicted if it has timed out.
pub evict_each : ℕ → Dict Session → Sessions → Sessions
evict_each now [] s = s
evict_each now ((id, sess) ∷ rest) s =
    evict_each now rest (if expired s sess now then evict s id else s)

pub evict_expired : Sessions → ℕ → Sessions
unfolding evict_each
evict_expired s now = evict_each now s.m s
