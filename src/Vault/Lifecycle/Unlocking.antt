-- ===== src/Vault/Lifecycle/Unlocking.antt =====
-- What a passphrase unlocks after `Setup` and `ChangePassphrase` of internal/vault/vault.go.
use grafted_keys.Prelude.{ℕ, ◌≡◌, refl, ap, ◌∙◌, true, some, [], ◌∷◌, arith, Bytes}
use grafted_keys.Exec.{Result, ok, err, bind_inversion}
use grafted_keys.Store.Schema.{World, VaultRow, Db}
use grafted_keys.Store.VaultRow.{
  vault_initialized, has_data, get_vault, init_vault, update_vault_wrap,
}
use grafted_keys.Store.Ensures.{
  Ensures, Ensures-raise, Ensures-pure, Ensures-if, Ensures-execute, Ensures-bind, Ensures-read,
}
use grafted_keys.Store.Atomic.{Quiet, Atomic, quiet_rules, atomic_rules}
use grafted_keys.Store.Rekey.{rekey_tx}
use grafted_keys.Store.Schema.{query_row}
use grafted_keys.Crypto.{
  nonce_len, Primitives, rand_bytes, derive_kek, seal, open_blob, const_equal, key_len, salt_len,
}
use grafted_keys.Vault.Aad.{wrap_aad}
use grafted_keys.Vault.Lifecycle.{
  Argon, params, row_params, wrap_row, round_trips, vault_row, or_bad_passphrase, setup, unlock,
  rekey, or_not_init, change_passphrase,
}

pub Quiet-rand_bytes : (n : ℕ) → Quiet (rand_bytes n)
unfolding rand_bytes
Quiet-rand_bytes n = record { at = λ w. ground arith }

pub Quiet-seal : (p : Primitives) (key pt aad : Bytes) → Quiet (seal p key pt aad)
unfolding seal
Quiet-seal p key pt aad = record { at = λ w. ground (arith, (Quiet-rand_bytes nonce_len).at w) }

-- `Setup` that fails leaves the database as it was.
pub Atomic-setup : (p : Primitives) (a : Argon) (pass : Bytes) → Atomic (setup p a pass)
unfolding setup
Atomic-setup p a pass = search (atomic_rules, Quiet-rand_bytes, Quiet-seal) depth 14

-- `ChangePassphrase` that fails leaves the database as it was.
pub Atomic-change_passphrase :
    (p : Primitives) (a : Argon) (dek pass : Bytes) → Atomic (change_passphrase p a dek pass)
unfolding change_passphrase get_vault update_vault_wrap
Atomic-change_passphrase p a dek pass = search (atomic_rules, Quiet-rand_bytes, Quiet-seal) depth 14

Quiet-or_not_init : {A : Type 0} (r : Result A × World) → (or_not_init r).1 ≡ r.1
Quiet-or_not_init (ok a, w) = refl
Quiet-or_not_init (err e, w) = refl

pub Quiet-vault_row : Quiet vault_row
unfolding vault_row get_vault query_row
Quiet-vault_row = record { at = λ w. ground (arith, Quiet-or_not_init (get_vault w)) }

-- `Rekey` that fails at any statement leaves the database as it was.
pub Atomic-rekey : (p : Primitives) (a : Argon) (pass : Bytes) → Atomic (rekey p a pass)
unfolding rekey rekey_tx unlock
Atomic-rekey p a pass =
    search (atomic_rules, Quiet-rand_bytes, Quiet-seal, Quiet-vault_row) depth 14

pub const_equal_inversion : (xs ys : Bytes) → const_equal xs ys ≡ true → xs ≡ ys
unfolding const_equal
const_equal_inversion [] [] h = refl
const_equal_inversion [] (y ∷ ys) h = absurd (ground arith)
const_equal_inversion (x ∷ xs) [] h = absurd (ground arith)
const_equal_inversion (x ∷ xs) (y ∷ ys) h = ground (arith, const_equal_inversion xs ys)

pub round_trips_inversion : (r : Result Bytes) (dek : Bytes) → round_trips r dek ≡ true → r ≡ ok dek
unfolding round_trips
round_trips_inversion (ok back) dek h = ap ok (const_equal_inversion back dek h)
round_trips_inversion (err e) dek h = absurd (ground arith)

-- The vault row wraps the key under the passphrase.
abbrev pub Wraps : Primitives → Bytes → Bytes → Db → Type 0
Wraps p pass dek db =
    (v : VaultRow) × (db.vault ≡ some v)
    × (open_blob p (derive_kek p pass (row_params v)) v.wrapped_dek
          (wrap_aad v.epoch (row_params v))
        ≡ ok dek)

pub unlock-Wraps :
    (p : Primitives) (a : Argon) (pass dek : Bytes) (w : World)
    → Wraps p pass dek w.db
    → w.faults ≡ []
    → (unlock p a pass w).0 ≡ ok dek
unfolding unlock vault_row get_vault query_row or_bad_passphrase
unlock-Wraps p a pass dek w (v, e, o) f = rw (f, e, o) refl

vault_row_inversion :
    (w : World) (v : VaultRow)
    → (vault_row w).0 ≡ ok v
    → (w.db.vault ≡ some v) × ((vault_row w).1.db ≡ w.db)
unfolding vault_row get_vault query_row
vault_row_inversion w v h = ground arith

pub unlock_opens :
    (p : Primitives) (a : Argon) (pass dek : Bytes) (w : World)
    → (unlock p a pass w).0 ≡ ok dek
    → Wraps p pass dek w.db
unfolding unlock or_bad_passphrase
unlock_opens p a pass dek w h =
    let (v, q, r, _) = bind_inversion vault_row _ w dek h in
    (v, (vault_row_inversion w v q).0, ground arith)

init_vault-Wraps :
    (p : Primitives) (a : Argon) (pass dek salt wrapped : Bytes) (e : ℕ) (P : Db → Type 0)
    → open_blob p (derive_kek p pass (params a salt)) wrapped (wrap_aad e (params a salt)) ≡ ok dek
    → Ensures P (init_vault (wrap_row e (params a salt) wrapped)) (λ _ db. Wraps p pass dek db)
unfolding init_vault
init_vault-Wraps p a pass dek salt wrapped e P o = Ensures-execute _ _ _ λ w h k. (_, refl, o)

Quiet-vault_initialized : Quiet vault_initialized
unfolding vault_initialized
Quiet-vault_initialized = search quiet_rules

Quiet-has_data : Quiet has_data
unfolding has_data
Quiet-has_data = search quiet_rules

setup-Wraps :
    (p : Primitives) (a : Argon) (pass : Bytes)
    → Ensures (λ _. Unit {0}) (setup p a pass) (λ dek db. Wraps p pass dek db)
unfolding setup
setup-Wraps p a pass = Ensures-read vault_initialized _ _ Quiet-vault_initialized λ init.
    Ensures-if init _ _ _ (λ _. Ensures-raise _ _)
      λ _. Ensures-read has_data _ _ Quiet-has_data λ present.
        Ensures-if present _ _ _ (λ _. Ensures-raise _ _)
          λ _. Ensures-read _ _ _ (Quiet-rand_bytes salt_len) λ salt.
            Ensures-read _ _ _ (Quiet-rand_bytes key_len) λ dek.
              Ensures-read _ _ _ (Quiet-seal p _ _ _) λ wrapped.
                Ensures-if _ _ _ _
                  (λ t.
                    Ensures-bind _ _ (λ _ db. Wraps p pass dek db) _
                      (init_vault-Wraps p a pass dek salt wrapped 1 _
                        (round_trips_inversion _ dek t))
                      λ _. Ensures-pure dek _ λ db h. h)
                  (λ _. Ensures-raise _ _)

-- Whatever `Setup` returns is the key that `Unlock` with the same passphrase returns, at any later
-- time at which the vault row is the one that `Setup` wrote and the driver does not fail.
pub setup-unlock :
    (p : Primitives) (a b : Argon) (pass dek : Bytes) (w later : World)
    → (setup p a pass w).0 ≡ ok dek
    → later.db.vault ≡ (setup p a pass w).1.db.vault
    → later.faults ≡ []
    → (unlock p b pass later).0 ≡ ok dek
setup-unlock p a b pass dek w later h same quiet =
    let (v, e, o) = (setup-Wraps p a pass).at w dek tt h in
    unlock-Wraps p b pass dek later (v, same ∙ e, o) quiet
