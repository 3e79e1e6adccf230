-- ===== src/Crypto/Sealing.antt =====
-- What `Seal` and `Open` of internal/crypto/crypto.go promise of each other.
use grafted_keys.Prelude.{
  ℕ, zero, suc, ◌+◌, ◌≤◌, ◌≡◌, refl, ap, [], ◌∷◌, ◌++◌, arith, Bytes, length, take, drop,
  length-append,
}
use grafted_keys.Exec.{ok}
use grafted_keys.Store.Schema.{World}
use grafted_keys.Crypto.{Primitives, IsLawful, seal, open_blob, key_len, nonce_len}

pub take-append : (n : ℕ) (xs ys : Bytes) → length xs ≡ n → take n (xs ++ ys) ≡ xs
take-append zero [] ys h = refl
take-append zero (x ∷ xs) ys h = absurd (omega arith)
take-append (suc n) [] ys h = absurd (omega arith)
take-append (suc n) (x ∷ xs) ys h = ap (◌∷◌ x) (take-append n xs ys (omega arith))

pub drop-append : (n : ℕ) (xs ys : Bytes) → length xs ≡ n → drop n (xs ++ ys) ≡ ys
drop-append zero [] ys h = refl
drop-append zero (x ∷ xs) ys h = absurd (omega arith)
drop-append (suc n) [] ys h = absurd (omega arith)
drop-append (suc n) (x ∷ xs) ys h = drop-append n xs ys (omega arith)

pub take-append-drop : (n : ℕ) (xs : Bytes) → take n xs ++ drop n xs ≡ xs
take-append-drop zero xs = refl
take-append-drop (suc n) [] = refl
take-append-drop (suc n) (x ∷ xs) = ap (◌∷◌ x) (take-append-drop n xs)

pub length-take : (n : ℕ) (xs : Bytes) → n ≤ length xs → length (take n xs) ≡ n
length-take zero xs h = refl
length-take (suc n) [] h = absurd (omega arith)
length-take (suc n) (x ∷ xs) h = ap suc (length-take n xs (omega arith))

module _ (p : Primitives) (laws : IsLawful p) where
  -- The blob for a nonce of the right length opens to the plaintext.
  pub open_blob-gcm_seal :
      (key nonce pt aad : Bytes)
      → length key ≡ key_len
      → length nonce ≡ nonce_len
      → open_blob p key (nonce ++ p.gcm_seal key nonce pt aad) aad ≡ ok pt
  unfolding open_blob
  open_blob-gcm_seal key nonce pt aad k n = ground (
    arith,
    length-append nonce (p.gcm_seal key nonce pt aad),
    take-append nonce_len nonce (p.gcm_seal key nonce pt aad) n,
    drop-append nonce_len nonce (p.gcm_seal key nonce pt aad) n,
    laws.open-seal key nonce pt aad,
  )

  -- What `Seal` returns: a nonce of the random source, and the sealed plaintext.
  pub seal_inversion :
      (key pt aad blob : Bytes) (w : World)
      → (seal p key pt aad w).0 ≡ ok blob
      → (length key ≡ key_len)
        × (nonce_len ≤ length w.entropy)
        × (blob ≡ take nonce_len w.entropy ++ p.gcm_seal key (take nonce_len w.entropy) pt aad)
  unfolding seal
  seal_inversion key pt aad blob w h = ground arith

  -- Whatever `Seal` returns, `Open` with the same key and associated data turns back into the
  -- plaintext.
  pub open_blob-seal :
      (key pt aad blob : Bytes) (w : World)
      → (seal p key pt aad w).0 ≡ ok blob
      → open_blob p key blob aad ≡ ok pt
  open_blob-seal key pt aad blob w h =
      let (k, n, e) = seal_inversion key pt aad blob w h in
      rw e (
        open_blob-gcm_seal key (take nonce_len w.entropy) pt aad k
          (length-take nonce_len w.entropy n))

  -- With a key of the right length and enough random bytes, `Seal` succeeds.
  pub seal_runs :
      (key pt aad : Bytes) (w : World)
      → length key ≡ key_len
      → nonce_len ≤ length w.entropy
      → seal p key pt aad w ≡ (
        ok (take nonce_len w.entropy ++ p.gcm_seal key (take nonce_len w.entropy) pt aad),
        record w { entropy = drop nonce_len w.entropy },
      )
  unfolding seal
  seal_runs key pt aad w k n = ground arith

  -- `Open` is authentic: a blob that it accepts under a key and associated data is a nonce followed
  -- by what GCM seals for the plaintext that it returns, under that key, nonce and data; so a blob
  -- that was altered, moved to another role, or sealed with another key is refused unless it is
  -- such a sealing.
  pub open_blob_authentic :
      (key blob aad pt : Bytes)
      → open_blob p key blob aad ≡ ok pt
      → (length key ≡ key_len)
        × (blob ≡ take nonce_len blob ++ p.gcm_seal key (take nonce_len blob) pt aad)
  unfolding open_blob
  open_blob_authentic key blob aad pt h = (
    ground arith,
    ground (
      arith,
      laws.seal-open key (take nonce_len blob) (drop nonce_len blob) aad pt,
      take-append-drop nonce_len blob,
    ),
  )

  -- A sealed blob is 28 bytes longer than its plaintext.
  pub length-seal_blob :
      (key pt aad blob : Bytes) (w : World)
      → (seal p key pt aad w).0 ≡ ok blob
      → length blob ≡ length pt + 28
  length-seal_blob key pt aad blob w h =
      let (k, n, e) = seal_inversion key pt aad blob w h in
      rw e (
        omega (
          arith,
          length-append (take nonce_len w.entropy)
              (p.gcm_seal key (take nonce_len w.entropy) pt aad),
          laws.length-seal key (take nonce_len w.entropy) pt aad,
          length-take nonce_len w.entropy n,
        ))
