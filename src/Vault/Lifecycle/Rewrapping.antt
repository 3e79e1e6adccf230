-- ===== src/Vault/Lifecycle/Rewrapping.antt =====
-- `ChangePassphrase` and `Rekey` of internal/vault/vault.go against `Unlock`.
use grafted_keys.Prelude.{◌+◌, ◌≡◌, refl, ap, ◌∙◌, true, Option, some, [], Bytes}
use grafted_keys.Exec.{ok}
use grafted_keys.Store.Schema.{World, VaultRow, Db}
use grafted_keys.Store.VaultRow.{get_vault, update_vault_wrap, update_row, set_wrap}
use grafted_keys.Store.Ensures.{
  Ensures, Ensures-raise, Ensures-if, Ensures-execute, Ensures-bind, Ensures-read,
  Ensures-query_row,
}
use grafted_keys.Crypto.{Primitives, derive_kek, open_blob, salt_len}
use grafted_keys.Vault.Aad.{wrap_aad}
use grafted_keys.Vault.Lifecycle.{Argon, params, row_params, wrap_row, unlock, change_passphrase}
use grafted_keys.Vault.Lifecycle.Unlocking.{
  unlock-Wraps, round_trips_inversion, Quiet-rand_bytes, Quiet-seal,
}

-- The vault row after a re-wrap of the row `v`.
abbrev Rewrapped : Primitives → Bytes → Bytes → VaultRow → Db → Type 0
Rewrapped p pass dek v db =
    (row : VaultRow) × (db.vault ≡ some row)
    × (open_blob p (derive_kek p pass (row_params row)) row.wrapped_dek
          (wrap_aad row.epoch (row_params row))
        ≡ ok dek)
    × (row.epoch ≡ v.epoch + 1)
    × (row.totp_enc ≡ v.totp_enc)
    × (row.totp_last ≡ v.totp_last)

same_row : (v v' : VaultRow) (o : Option VaultRow) → o ≡ some v → o ≡ some v' → v ≡ v'
same_row v v' o h k = cc

update_vault_wrap-Rewrapped :
    (p : Primitives) (a : Argon) (pass dek salt wrapped : Bytes) (v v' : VaultRow)
    → open_blob p
        (derive_kek p pass (params a salt))
        wrapped
        (wrap_aad (v'.epoch + 1) (params a salt))
      ≡ ok dek
    → Ensures
        (λ db. (db.vault ≡ some v) × (db.vault ≡ some v'))
        (update_vault_wrap (wrap_row (v'.epoch + 1) (params a salt) wrapped))
        (λ _ db. Rewrapped p pass dek v db)
unfolding update_vault_wrap
update_vault_wrap-Rewrapped p a pass dek salt wrapped v v' o =
    Ensures-execute (λ _. true)
      (λ w. update_row (set_wrap (wrap_row (v'.epoch + 1) (params a salt) wrapped)) w.db) _
      λ w h k.
        rw h.0 (_, refl, o, ap (λ x. x.epoch + 1) (same_row v' v w.db.vault h.1 h.0), refl, refl)

change_passphrase-Rewrapped :
    (p : Primitives) (a : Argon) (dek pass : Bytes) (v : VaultRow)
    → Ensures
        (λ db. db.vault ≡ some v)
        (change_passphrase p a dek pass)
        (λ _ db. Rewrapped p pass dek v db)
unfolding change_passphrase get_vault
change_passphrase-Rewrapped p a dek pass v =
    Ensures-bind _ _ (λ v' db. (db.vault ≡ some v) × (db.vault ≡ some v')) _
      (Ensures-query_row (λ db. db.vault))
      λ v'. Ensures-read _ _ _ (Quiet-rand_bytes salt_len) λ salt.
        Ensures-read _ _ _ (Quiet-seal p _ _ _) λ wrapped.
          Ensures-if _ _ _ _
            (λ t.
              update_vault_wrap-Rewrapped p a pass dek salt wrapped v v'
                (round_trips_inversion _ dek t))
            (λ _. Ensures-raise _ _)

-- After `ChangePassphrase` with the data key that is in use, `Unlock` with the new passphrase
-- returns that key, at any later time with the same vault row and no failing driver.
pub change_passphrase-unlock :
    (p : Primitives) (a b : Argon) (dek pass : Bytes) (v : VaultRow) (w later : World)
    → w.db.vault ≡ some v
    → (change_passphrase p a dek pass w).0 ≡ ok tt
    → later.db.vault ≡ (change_passphrase p a dek pass w).1.db.vault
    → later.faults ≡ []
    → (unlock p b pass later).0 ≡ ok dek
change_passphrase-unlock p a b dek pass v w later e h same quiet =
    let (row, stored, opens, e1, e2, e3) =
      (change_passphrase-Rewrapped p a dek pass v).at w tt e h in
    unlock-Wraps p b pass dek later (row, same ∙ stored, opens) quiet

-- `ChangePassphrase` raises the epoch by one and keeps the second factor.
pub change_passphrase_epoch :
    (p : Primitives) (a : Argon) (dek pass : Bytes) (v : VaultRow) (w : World)
    → w.db.vault ≡ some v
    → (change_passphrase p a dek pass w).0 ≡ ok tt
    → (row : VaultRow) × ((change_passphrase p a dek pass w).1.db.vault ≡ some row)
      × (row.epoch ≡ v.epoch + 1)
      × (row.totp_enc ≡ v.totp_enc)
      × (row.totp_last ≡ v.totp_last)
change_passphrase_epoch p a dek pass v w e h =
    let (row, stored, opens, e1, e2, e3) =
      (change_passphrase-Rewrapped p a dek pass v).at w tt e h in
    (row, stored, e1, e2, e3)
