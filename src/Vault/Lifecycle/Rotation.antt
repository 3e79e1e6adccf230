-- ===== src/Vault/Lifecycle/Rotation.antt =====
-- `Rekey` of internal/vault/vault.go against `Unlock`.
use grafted_keys.Prelude.{◌+◌, ◌≡◌, ap, ◌∙◌, [], Bytes, Text, arith, Option-cases, inl, inr}
use grafted_keys.Exec.{ok}
use grafted_keys.Store.Schema.{World, VaultRow, query_row}
use grafted_keys.Store.VaultRow.{get_vault, set_wrap}
use grafted_keys.Store.Atomic.{Quiet, Quiet-bind, Quiet-lift}
use grafted_keys.Store.Ensures.{Ensures, Ensures-bind, Ensures-read, Ensures-pure}
use grafted_keys.Store.Rekey.{Column, rekey_tx}
use grafted_keys.Store.Rekey.Wrapping.{HasRow, rekey_tx_wraps}
use grafted_keys.Crypto.{Primitives, IsLawful, derive_kek, seal, open_blob, key_len, salt_len}
use grafted_keys.Crypto.Sealing.{open_blob-seal}
use grafted_keys.Vault.Aad.{wrap_aad}
use grafted_keys.Vault.Lifecycle.{
  Argon, params, row_params, wrap_row, vault_row, unlock, transform, rekey,
}
use grafted_keys.Vault.Lifecycle.Unlocking.{
  Wraps, unlock-Wraps, Quiet-rand_bytes, Quiet-seal, Quiet-vault_row,
}

vault_row-HasRow : Ensures (λ _. Unit {0}) vault_row (λ _ db. HasRow db)
unfolding vault_row get_vault query_row
vault_row-HasRow = record {
  at = λ w v k h. elim (Option-cases w.db.vault) [
    | inl e ↦ absurd (ground (arith, e))
    | inr (r, e) ↦ (r, ground (arith, e))
  ];
}

pub Quiet-unlock : (p : Primitives) (a : Argon) (pass : Bytes) → Quiet (unlock p a pass)
unfolding unlock
Quiet-unlock p a pass = Quiet-bind vault_row _ Quiet-vault_row λ v. Quiet-lift _

pub Quiet-transform :
    (p : Primitives) (a : Argon) (old_dek new_dek : Bytes) (c : Column) (id : Text) (b : Bytes)
    → Quiet (transform p a old_dek new_dek c id b)
unfolding transform
Quiet-transform p a old_dek new_dek c id b =
    Quiet-bind _ _ (Quiet-lift _) λ pt. Quiet-seal p new_dek pt _

module _ (p : Primitives) (laws : IsLawful p) (a : Argon) where
  Opens : Bytes → Bytes → Bytes → VaultRow → Type 0
  Opens pass dek wrapped row =
      open_blob p (derive_kek p pass (row_params row)) wrapped (wrap_aad row.epoch (row_params row))
      ≡ ok dek

  rekey_tx-Wraps :
      (old_dek new_dek pass wrapped : Bytes) (row : VaultRow)
      → Ensures
          (λ db. HasRow db × Opens pass new_dek row.wrapped_dek row)
          (rekey_tx (transform p a old_dek new_dek) row)
          (λ _ db. Wraps p pass new_dek db)
  unfolding Opens
  rekey_tx-Wraps old_dek new_dek pass wrapped row = record {
    at = λ w u (h, o) e.
        let (v, q) =
          (rekey_tx_wraps (transform p a old_dek new_dek) (Quiet-transform p a old_dek new_dek)
              row).at
            w u h e in
        (set_wrap row v, q, o);
  }

  pub rekey-Wraps :
      (pass : Bytes) → Ensures (λ _. Unit {0}) (rekey p a pass) (λ dek db. Wraps p pass dek db)
  unfolding rekey Opens
  rekey-Wraps pass =
      Ensures-bind vault_row _ (λ _ db. HasRow db) _ vault_row-HasRow
        λ v. Ensures-read (unlock p a pass) _ _ (Quiet-unlock p a pass) λ old_dek.
          Ensures-read _ _ _ (Quiet-rand_bytes key_len) λ new_dek.
            Ensures-read _ _ _ (Quiet-rand_bytes salt_len) λ salt.
              Ensures-bind
                (seal p (derive_kek p pass (params a salt)) new_dek
                  (wrap_aad (v.epoch + 1) (params a salt)))
                _
                (λ wrapped db.
                  HasRow db
                  × Opens pass new_dek wrapped (wrap_row (v.epoch + 1) (params a salt) wrapped))
                _
                (record {
                  at = λ w wrapped h e. (
                    (
                      h.0,
                      ap (λ db. db.vault)
                            ((Quiet-seal p (derive_kek p pass (params a salt)) new_dek
                                (wrap_aad (v.epoch + 1) (params a salt))).at
                              w)
                          ∙ h.1,
                    ),
                    open_blob-seal p laws _ new_dek _ wrapped w e,
                  );
                })
                λ wrapped.
                  Ensures-bind _ _ _ _
                    (rekey_tx-Wraps old_dek new_dek pass wrapped
                      (wrap_row (v.epoch + 1) (params a salt) wrapped))
                    λ u. Ensures-pure new_dek _ λ db held. held

  -- After `Rekey`, the passphrase unlocks to the key that `Rekey` returned, at any later time with
  -- the same vault row and no failing driver.
  pub rekey-unlock :
      (b : Argon) (pass dek : Bytes) (w later : World)
      → (rekey p a pass w).0 ≡ ok dek
      → later.db.vault ≡ (rekey p a pass w).1.db.vault
      → later.faults ≡ []
      → (unlock p b pass later).0 ≡ ok dek
  rekey-unlock b pass dek w later h same quiet =
      let (v, e, o) = (rekey-Wraps pass).at w dek tt h in
      unlock-Wraps p b pass dek later (v, same ∙ e, o) quiet
