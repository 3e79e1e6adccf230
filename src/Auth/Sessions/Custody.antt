-- ===== src/Auth/Sessions/Custody.antt =====
-- Who holds a data key: every key buffer is either cleared or belongs to exactly one session.
-- The methods of internal/auth/session.go that drop or read a session.
mod Moves
pub mod Steps
pub mod Clearing
use grafted_keys.Prelude.{
  ℕ, suc, zero, ◌≡◌, refl, sym, ap, ◌∙◌, ℕ_discrete, ◌≢◌, ◌⊎◌, Bool, inl, inr, true, false, Option,
  none, some, List, [], ◌∷◌, ◌++◌, arith, ◌==◌, if◌then◌else◌, Bytes, Text, text_dec, same, All,
  length, get_elem?, set, Dict, lookup, lookup-insert, lookup-erase, Option-cases, insert, erase,
  not, NodupKeys, keep_if, ◌≤◌, ◌&&◌, ◌||◌,
}
use grafted_keys.Auth.Sessions.{
  Session, Sessions, zero_bytes, zero_key, new, evict, get, touch, promote, promoted, delete,
  set_dek, evict_each, evict_expired, expired, new_sessions, set_timeouts,
}
use grafted_keys.Auth.Sessions.Buffers.{
  Cleared, zero_bytes-Cleared, get_elem?-append, get_elem?-length, get_elem?-zero_key,
  zero_key-cases, get_elem?-zero_key_ne, length-zero_key,
}

-- The session under a key of the map that holds the buffer at an address.
abbrev pub Holder : ℕ → Dict Session → Type 0
Holder a m = (k : Text) × (x : Session) × (lookup k m ≡ some x) × (x.dek ≡ some a)

pub record Custody (s : Sessions) : Type 0 where
  pub in_range :
      (k : Text) (x : Session) (a : ℕ)
      → lookup k s.m ≡ some x
      → x.dek ≡ some a
      → get_elem? s.mem a ≢ none
  pub apart :
      (k j : Text) (x y : Session) (a : ℕ)
      → lookup k s.m ≡ some x
      → lookup j s.m ≡ some y
      → x.dek ≡ some a
      → y.dek ≡ some a
      → k ≡ j
  pub kept : (a : ℕ) (b : Bytes) → get_elem? s.mem a ≡ some b → Cleared b ⊎ Holder a s.m

pub evict_found-Custody :
    (s : Sessions) (id : Text) (sess : Session)
    → Custody s
    → lookup id s.m ≡ some sess
    → Custody (record s { m = erase id s.m; mem = zero_key sess.dek s.mem })
evict_found-Custody s id sess h e = record {
  in_range = λ k x a p q.
      get_elem?-zero_key_ne s.mem sess.dek a
        (h.in_range k x a (ground (arith, lookup-erase id k s.m)) q);
  apart = λ k j x y a p q.
      h.apart k j x y a (ground (arith, lookup-erase id k s.m))
        (ground (arith, lookup-erase id j s.m));
  kept = λ a b p. elim (zero_key-cases s.mem sess.dek a b p) [
    | inl c ↦ inl c
    | inr (n, q) ↦ elim (h.kept a b q) [
      | inl c ↦ inl c
      | inr (k, x, l, d) ↦ inr (k, x, ground (arith, lookup-erase id k s.m), d)
    ]
  ];
}

pub evict-Custody : (s : Sessions) (id : Text) → Custody s → Custody (evict s id)
unfolding evict
evict-Custody s id h = elim (Option-cases (lookup id s.m)) [
  | inl e ↦ rw (e, evict) h
  | inr (sess, e) ↦ rw (e, evict) (evict_found-Custody s id sess h e)
]

-- An entry that is replaced by one with the same key buffer.
held_before :
    (m : Dict Session) (id k : Text) (old sess x : Session) (a : ℕ)
    → lookup id m ≡ some old
    → sess.dek ≡ old.dek
    → lookup k (insert id sess m) ≡ some x
    → x.dek ≡ some a
    → (y : Session) × (lookup k m ≡ some y) × (y.dek ≡ some a)
held_before m id k old sess x a e d p q = elim (text_dec id k) [
  | yes r ↦
      (old, ground (arith, lookup-insert id k sess m), ground (arith, lookup-insert id k sess m))
  | no r ↦ (x, ground (arith, lookup-insert id k sess m), q)
]

replace-Custody :
    (s : Sessions) (id : Text) (old sess : Session)
    → Custody s
    → lookup id s.m ≡ some old
    → sess.dek ≡ old.dek
    → Custody (record s { m = insert id sess s.m })
replace-Custody s id old sess h e d = record {
  in_range = λ k x a p q.
      let (y, l, w) = held_before s.m id k old sess x a e d p q in h.in_range k y a l w;
  apart = λ k j x y a p q u v.
      let (x', l, w) = held_before s.m id k old sess x a e d p u in
      let (y', l', w') = held_before s.m id j old sess y a e d q v in h.apart k j x' y' a l l' w w';
  kept = λ a b p. elim (h.kept a b p) [
    | inl c ↦ inl c
    | inr (k, x, l, w) ↦ elim (text_dec id k) [
      | yes r ↦ inr (id, sess, ground (arith, lookup-insert id id sess s.m), ground arith)
      | no r ↦ inr (k, x, ground (arith, lookup-insert id k sess s.m), w)
    ]
  ];
}

pub get-Custody : (s : Sessions) (id : Text) (now : ℕ) → Custody s → Custody (get s id now).0
unfolding get
get-Custody s id now h = elim (Option-cases (lookup id s.m)) [
  | inl e ↦ ground arith
  | inr (sess, e) ↦
      ground
        (arith, evict-Custody s id h, replace-Custody s id sess (touch now sess) h e (ground arith))
]

-- A new buffer at the end of `mem`.
pub push_fresh :
    (s : Sessions) (k : Text) (x : Session)
    → Custody s
    → lookup k s.m ≡ some x
    → x.dek ≢ some (length s.mem)
push_fresh s k x h e d = h.in_range k x (length s.mem) e d (get_elem?-length s.mem)
