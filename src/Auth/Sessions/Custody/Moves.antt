-- ===== src/Auth/Sessions/Custody/Moves.antt =====
-- The methods of internal/auth/session.go that bring a key in or move it.
use grafted_keys.Prelude.{
  ℕ, ◌≡◌, refl, sym, ap, ◌∙◌, ℕ_discrete, ◌≢◌, Bool, inl, inr, Option, none, some, List, [], ◌∷◌,
  ◌++◌, arith, if◌then◌else◌, Bytes, Text, text_dec, same, length, get_elem?, Dict, lookup,
  lookup-insert, lookup-erase, Option-cases, insert, erase,
}
use grafted_keys.Auth.Sessions.{Session, Sessions, zero_key, new, promote, promoted, set_dek}
use grafted_keys.Auth.Sessions.Buffers.{get_elem?-append, length-zero_key}
use grafted_keys.Auth.Sessions.Custody.{Custody, evict_found-Custody, push_fresh}

some_of_append :
    (mem : List Bytes) (key : Bytes) (a : ℕ)
    → get_elem? mem a ≢ none
    → get_elem? (mem ++ key ∷ []) a ≢ none
some_of_append mem key a h = ground (arith, get_elem?-append mem key a)

insert_key-Custody :
    (s : Sessions) (id : Text) (sess : Session) (key : Bytes)
    → Custody s
    → lookup id s.m ≡ none
    → sess.dek ≡ some (length s.mem)
    → Custody (record s { m = insert id sess s.m; mem = s.mem ++ key ∷ [] })
insert_key-Custody s id sess key h e d = record {
  in_range = λ k x a p q. elim (text_dec id k) [
    | yes r ↦ ground (arith, lookup-insert id k sess s.m, get_elem?-append s.mem key (length s.mem))
    | no r ↦
        some_of_append s.mem key a
          (h.in_range k x a (ground (arith, lookup-insert id k sess s.m)) q)
  ];
  apart = λ k j x y a p q u v. ground (
    arith,
    lookup-insert id k sess s.m,
    lookup-insert id j sess s.m,
    push_fresh s k x h,
    push_fresh s j y h,
    h.apart k j x y a,
  );
  kept = λ a b p. elim (ℕ_discrete (length s.mem) a) [
    | yes r ↦ inr (id, sess, ground (arith, lookup-insert id id sess s.m), ground arith)
    | no r ↦ elim (h.kept a b (ground (arith, get_elem?-append s.mem key a))) [
      | inl c ↦ inl c
      | inr (k, x, l, w) ↦ inr (k, x, ground (arith, lookup-insert id k sess s.m), w)
    ]
  ];
}

insert-none-Custody :
    (s : Sessions) (id : Text) (sess : Session)
    → Custody s
    → lookup id s.m ≡ none
    → sess.dek ≡ none
    → Custody (record s { m = insert id sess s.m })
insert-none-Custody s id sess h e d = record {
  in_range = λ k x a p q. ground (arith, lookup-insert id k sess s.m, h.in_range k x a);
  apart = λ k j x y a p q u v.
      ground (arith, lookup-insert id k sess s.m, lookup-insert id j sess s.m, h.apart k j x y a);
  kept = λ a b p. elim (h.kept a b p) [
    | inl c ↦ inl c
    | inr (k, x, l, w) ↦ inr (k, x, ground (arith, lookup-insert id k sess s.m), w)
  ];
}

pub new-Custody :
    (s : Sessions) (dek : Option Bytes) (pending : Bool) (id csrf : Text) (now : ℕ)
    → Custody s
    → lookup id s.m ≡ none
    → Custody (new s dek pending id csrf now).0
unfolding new
new-Custody s none pending id csrf now h e = insert-none-Custody s id _ h e refl
new-Custody s (some key) pending id csrf now h e = insert_key-Custody s id _ key h e refl

-- Custody is a matter of what the map answers.
Custody-ext :
    (s : Sessions) (m : Dict Session)
    → ((k : Text) → lookup k m ≡ lookup k s.m)
    → Custody s
    → Custody (record s { m = m })
Custody-ext s m same_map h = record {
  in_range = λ k x a p q. h.in_range k x a (sym (same_map k) ∙ p) q;
  apart = λ k j x y a p q. h.apart k j x y a (sym (same_map k) ∙ p) (sym (same_map j) ∙ q);
  kept = λ a b p. elim (h.kept a b p) [
    | inl c ↦ inl c
    | inr (k, x, l, w) ↦ inr (k, x, same_map k ∙ l, w)
  ];
}

set_dek_found :
    (s : Sessions) (id : Text) (sess : Session) (key : Bytes)
    → Custody s
    → lookup id s.m ≡ some sess
    → Custody (record s {
      m = insert id (record sess { dek = some (length s.mem) }) s.m;
      mem = zero_key sess.dek s.mem ++ key ∷ [];
    })
set_dek_found s id sess key h e =
    Custody-ext
      (record s { m = insert id fresh (erase id s.m); mem = zero_key sess.dek s.mem ++ key ∷ [] })
      (insert id fresh s.m)
      (λ k. ground (
        arith,
        lookup-insert id k fresh s.m,
        lookup-insert id k fresh (erase id s.m),
        lookup-erase id k s.m,
      ))
      (insert_key-Custody (record s { m = erase id s.m; mem = zero_key sess.dek s.mem }) id fresh
        key (evict_found-Custody s id sess h e) (ground (arith, lookup-erase id id s.m))
        (ap some (sym (length-zero_key s.mem sess.dek))))
  where
    fresh : Session
    fresh = record sess { dek = some (length s.mem) }

pub set_dek-Custody :
    (s : Sessions) (id : Text) (key : Bytes)
    → Custody s
    → lookup id s.m ≢ none
    → Custody (set_dek s id key)
unfolding set_dek
set_dek-Custody s id key h e = elim (Option-cases (lookup id s.m)) [
  | inl n ↦ absurd (e n)
  | inr (sess, n) ↦ rw (n, set_dek) (set_dek_found s id sess key h n)
]

-- Whose key a session holds after `Promote`.
abbrev owner : Text → Text → Text → Text
owner id new_id k = if same new_id k then id else k

module _ (s : Sessions) (id new_id : Text) (sess x : Session) (h : Custody s)
    (e : lookup id s.m ≡ some sess) (fresh : lookup new_id s.m ≡ none) (d : x.dek ≡ sess.dek) where
  moved_before :
      (k : Text) (y : Session)
      → lookup k (insert new_id x (erase id s.m)) ≡ some y
      → (z : Session) × (lookup (owner id new_id k) s.m ≡ some z) × (y.dek ≡ z.dek)
  moved_before k y p = elim (text_dec new_id k) [
    | yes r ↦ (
      sess,
      ground (arith, lookup-insert new_id k x (erase id s.m)),
      ground (arith, lookup-insert new_id k x (erase id s.m)),
    )
    | no r ↦
        (y, ground (arith, lookup-insert new_id k x (erase id s.m), lookup-erase id k s.m), refl)
  ]

  owner_injective :
      (k j : Text) (y z : Session)
      → lookup k (insert new_id x (erase id s.m)) ≡ some y
      → lookup j (insert new_id x (erase id s.m)) ≡ some z
      → owner id new_id k ≡ owner id new_id j
      → k ≡ j
  owner_injective k j y z p q r = ground (
    arith,
    lookup-insert new_id k x (erase id s.m),
    lookup-insert new_id j x (erase id s.m),
    lookup-erase id k s.m,
    lookup-erase id j s.m,
  )

  move-Custody : Custody (record s { m = insert new_id x (erase id s.m) })
  move-Custody = record {
    in_range = λ k y a p q. let (z, l, w) = moved_before k y p in h.in_range _ z a l (sym w ∙ q);
    apart = λ k j y z a p q u v.
        let (y', l, w) = moved_before k y p in
        let (z', l', w') = moved_before j z q in
        owner_injective k j y z p q (h.apart _ _ y' z' a l l' (sym w ∙ u) (sym w' ∙ v));
    kept = λ a b p. elim (h.kept a b p) [
      | inl c ↦ inl c
      | inr (k, y, l, w) ↦ elim (text_dec id k) [
        | yes r ↦
            inr (
              new_id,
              x,
              ground (arith, lookup-insert new_id new_id x (erase id s.m)),
              ground arith,
            )
        | no r ↦ inr (
          k,
          y,
          ground (arith, lookup-insert new_id k x (erase id s.m), lookup-erase id k s.m),
          w,
        )
      ]
    ];
  }

pub promote-Custody :
    (s : Sessions) (id new_id csrf : Text) (now : ℕ)
    → Custody s
    → lookup new_id s.m ≡ none
    → Custody (promote s id new_id csrf now).0
unfolding promote
promote-Custody s id new_id csrf now h f = elim (Option-cases (lookup id s.m)) [
  | inl e ↦ rw (e, promote) h
  | inr (sess, e) ↦
      rw (e, promote) (move-Custody s id new_id sess (promoted sess new_id csrf now) h e f refl)
]
