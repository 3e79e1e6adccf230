-- ===== src/Auth/Sessions/Custody/Clearing.antt =====
-- What `Delete` and `EvictExpired` of internal/auth/session.go leave in memory.
use grafted_keys.Prelude.{
  ℕ, ◌≡◌, refl, ◌∙◌, ◌≢◌, ◌⊎◌, Bool, inl, inr, false, none, some, [], ◌∷◌, arith, if◌then◌else◌,
  Bytes, Text, same, get_elem?, Dict, lookup, lookup-erase, Option-cases, not, NodupKeys, keep_if,
  ◌&&◌, ◌||◌,
}
use grafted_keys.Auth.Sessions.{
  Session, Sessions, zero_bytes, evict, delete, evict_each, evict_expired, expired,
}
use grafted_keys.Auth.Sessions.Buffers.{Cleared, get_elem?-zero_key}
use grafted_keys.Auth.Sessions.Custody.{Custody}
use grafted_keys.Auth.Sessions.Custody.Steps.{evict_expired-Custody}

lookup-evict :
    (s : Sessions) (id k : Text)
    → lookup k (evict s id).m ≡ (if same id k then none else lookup k s.m)
unfolding evict
lookup-evict s id k = ground (arith, lookup-erase id k s.m)

-- `Delete` ends the session and overwrites its key.
pub delete_clears :
    (s : Sessions) (id : Text) (sess : Session) (a : ℕ) (b : Bytes)
    → lookup id s.m ≡ some sess
    → sess.dek ≡ some a
    → get_elem? s.mem a ≡ some b
    → (lookup id (delete s id).m ≡ none) × (get_elem? (delete s id).mem a ≡ some (zero_bytes b))
unfolding delete evict
delete_clears s id sess a b e d g =
    (ground (arith, lookup-erase id id s.m), ground (arith, get_elem?-zero_key s.mem (some a) a))

-- `Delete` leaves every other session with the key that it had.
pub delete_spares :
    (s : Sessions) (id k : Text) (x : Session) (a : ℕ)
    → Custody s
    → k ≢ id
    → lookup k s.m ≡ some x
    → x.dek ≡ some a
    → (lookup k (delete s id).m ≡ some x) × (get_elem? (delete s id).mem a ≡ get_elem? s.mem a)
unfolding delete evict
delete_spares s id k x a h n e d = elim (Option-cases (lookup id s.m)) [
  | inl p ↦ ground arith
  | inr (sess, p) ↦
      ground
        (arith, lookup-erase id k s.m, get_elem?-zero_key s.mem sess.dek a, h.apart k id x sess a)
]

idle-evict : (s : Sessions) (id : Text) → (evict s id).idle ≡ s.idle
unfolding evict
idle-evict s id = ground arith

max-evict : (s : Sessions) (id : Text) → (evict s id).max ≡ s.max
unfolding evict
max-evict s id = ground arith

expired-evict :
    (s : Sessions) (id : Text) (x : Session) (now : ℕ)
    → expired (evict s id) x now ≡ expired s x now
unfolding expired
expired-evict s id x now = rw (idle-evict s id, max-evict s id)

-- Does the loop meet an entry of the key that has timed out?
drops : Sessions → ℕ → Dict Session → Text → Bool
drops s now [] k = false
drops s now ((id, x) ∷ d) k = (same id k && expired s x now) || drops s now d k

drops-evict :
    (s : Sessions) (id : Text) (now : ℕ) (d : Dict Session) (k : Text)
    → drops (evict s id) now d k ≡ drops s now d k
unfolding drops
drops-evict s id now [] k = refl
drops-evict s id now ((j, x) ∷ d) k = cc (drops-evict s id now d k, expired-evict s id x now)

lookup-evict_each :
    (s : Sessions) (now : ℕ) (d : Dict Session) (k : Text)
    → lookup k (evict_each now d s).m ≡ (if drops s now d k then none else lookup k s.m)
unfolding evict_each drops
lookup-evict_each s now [] k = refl
lookup-evict_each s now ((id, x) ∷ d) k = ground (
  arith,
  lookup-evict_each (evict s id) now d k,
  lookup-evict_each s now d k,
  drops-evict s id now d k,
  lookup-evict s id k,
)

drops_absent :
    (s : Sessions) (now : ℕ) (d : Dict Session) (k : Text)
    → lookup k d ≡ none
    → drops s now d k ≡ false
unfolding drops lookup
drops_absent s now [] k e = refl
drops_absent s now ((id, x) ∷ d) k e = ground (arith, drops_absent s now d k)

-- With one entry for a key, the loop drops a key if and only if its session has timed out.
drops_unique :
    (s : Sessions) (now : ℕ) (d : Dict Session) (k : Text)
    → NodupKeys d
    → (if drops s now d k then none else lookup k d)
      ≡ keep_if (λ x. not (expired s x now)) (lookup k d)
unfolding drops lookup
drops_unique s now [] k u = refl
drops_unique s now ((id, x) ∷ d) k (fresh, u) =
    ground (arith, drops_unique s now d k u, drops_absent s now d id fresh)

-- `EvictExpired` removes exactly the sessions that have timed out, if the map has one entry for
-- an identifier, as a Go map has.
pub lookup-evict_expired :
    (s : Sessions) (now : ℕ) (k : Text)
    → NodupKeys s.m
    → lookup k (evict_expired s now).m ≡ keep_if (λ x. not (expired s x now)) (lookup k s.m)
unfolding evict_expired
lookup-evict_expired s now k u = lookup-evict_each s now s.m k ∙ drops_unique s now s.m k u

-- The sessions that hold a key after the sweep.
abbrev pub LiveHolder : Sessions → ℕ → ℕ → Type 0
LiveHolder s now a =
    (k : Text) × (x : Session) × (lookup k s.m ≡ some x)
    × (x.dek ≡ some a)
    × (expired s x now ≡ false)

-- After `EvictExpired`, every key buffer has been overwritten with zeros or belongs to a session
-- that was in the map before and had not timed out.
pub evict_expired_clears :
    (s : Sessions) (now a : ℕ) (b : Bytes)
    → Custody s
    → NodupKeys s.m
    → get_elem? (evict_expired s now).mem a ≡ some b
    → Cleared b ⊎ LiveHolder s now a
evict_expired_clears s now a b h u e = elim ((evict_expired-Custody now s h).kept a b e) [
  | inl c ↦ inl c
  | inr (k, x, l, d) ↦ inr (
    k,
    x,
    ground (arith, lookup-evict_expired s now k u),
    d,
    ground (arith, lookup-evict_expired s now k u),
  )
]
