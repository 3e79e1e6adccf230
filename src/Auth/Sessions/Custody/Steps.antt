-- ===== src/Auth/Sessions/Custody/Steps.antt =====
-- Every history of calls of the methods of internal/auth/session.go.
use grafted_keys.Prelude.{
  ℕ, ◌≡◌, ◌≢◌, Bool, Option, none, [], ◌∷◌, arith, if◌then◌else◌, Bytes, Text, Dict, lookup,
}
use grafted_keys.Auth.Sessions.{
  Session, Sessions, new, evict, get, promote, delete, set_dek, evict_each, evict_expired, expired,
  new_sessions, set_timeouts,
}
use grafted_keys.Auth.Sessions.Custody.{Custody, evict-Custody, get-Custody}
use grafted_keys.Auth.Sessions.Custody.Moves.{new-Custody, set_dek-Custody, promote-Custody}

evict_each-Custody :
    (now : ℕ) (d : Dict Session) (s : Sessions) → Custody s → Custody (evict_each now d s)
unfolding evict_each
evict_each-Custody now [] s h = h
evict_each-Custody now ((id, sess) ∷ rest) s h =
    evict_each-Custody now rest (if expired s sess now then evict s id else s)
      (ground (arith, evict-Custody s id h))

pub evict_expired-Custody : (now : ℕ) (s : Sessions) → Custody s → Custody (evict_expired s now)
unfolding evict_expired
evict_expired-Custody now s h = evict_each-Custody now s.m s h

-- One call of a method. `token` draws identifiers that are not in use, and `SetDEK` is called for
-- a session that is still there.
pub data Step (s : Sessions) : Sessions → Type 0 where
  news :
      (dek : Option Bytes) (pending : Bool) (id csrf : Text) (now : ℕ)
      → lookup id s.m ≡ none
      → Step s (new s dek pending id csrf now).0
  gets : (id : Text) (now : ℕ) → Step s (get s id now).0
  promotes :
      (id new_id csrf : Text) (now : ℕ)
      → lookup new_id s.m ≡ none
      → Step s (promote s id new_id csrf now).0
  deletes : (id : Text) → Step s (delete s id)
  set_deks : (id : Text) (key : Bytes) → lookup id s.m ≢ none → Step s (set_dek s id key)
  evictions : (now : ℕ) → Step s (evict_expired s now)
  timeouts : (idle max : ℕ) → Step s (set_timeouts s idle max)

pub data Reach (s : Sessions) : Sessions → Type 0 where
  here : Reach s s
  next : {t u : Sessions} → Reach s t → Step t u → Reach s u

Step-Custody : {s t : Sessions} → Custody s → Step s t → Custody t
unfolding delete set_timeouts
Step-Custody h (news dek pending id csrf now f) = new-Custody _ dek pending id csrf now h f
Step-Custody h (gets id now) = get-Custody _ id now h
Step-Custody h (promotes id new_id csrf now f) = promote-Custody _ id new_id csrf now h f
Step-Custody h (deletes id) = evict-Custody _ id h
Step-Custody h (set_deks id key f) = set_dek-Custody _ id key h f
Step-Custody {s} h (evictions now) = evict_expired-Custody now s h
Step-Custody {s} h (timeouts idle max) = record {
  in_range = h.in_range;
  apart = h.apart;
  kept = h.kept;
}

Reach-Custody : {s t : Sessions} → Custody s → Reach s t → Custody t
Reach-Custody h here = h
Reach-Custody h (next r st) = Step-Custody (Reach-Custody h r) st

new_sessions-Custody : (idle max : ℕ) → Custody (new_sessions idle max)
unfolding new_sessions lookup
new_sessions-Custody idle max = record {
  in_range = λ k x a p q. cc;
  apart = λ k j x y a p q u v. cc;
  kept = λ a b p. cc;
}

-- After any history of calls that starts with no session, in which `New` and `Promote` draw identifiers
-- that are not in use and `SetDEK` is called for a session that is still there, no two sessions share
-- a key buffer, and every key buffer that no session holds has been overwritten with zeros.
pub keys_in-Custody : (idle max : ℕ) (s : Sessions) → Reach (new_sessions idle max) s → Custody s
keys_in-Custody idle max s r = Reach-Custody (new_sessions-Custody idle max) r
