-- ===== src/Vault/Lifecycle.antt =====
-- internal/vault/vault.go: setup, unlock, change of the passphrase, and rotation of the data key.
-- The scrubbing of local key copies is not modelled.
pub mod Unlocking
pub mod Rewrapping
pub mod Rotation
pub mod Reencryption
use grafted_keys.Prelude.{
  ℕ, ◌+◌, ◌≡◌, Bool, true, false, not, Option, none, some, List, [], ◌∷◌, if◌then◌else◌, Bytes,
  Text, codes,
}
use grafted_keys.Exec.{
  Error, Exec, Result, ok, err, pure, raise, lift, ◌>>=◌, ◌>>◌, not_found, not_init, already_init,
  orphan_data, bad_passphrase, self_check_failed,
}
use grafted_keys.Store.Schema.{World, VaultRow}
use grafted_keys.Store.VaultRow.{
  vault_initialized, has_data, get_vault, init_vault, update_vault_wrap,
}
use grafted_keys.Store.Rekey.{
  Column, projects_name, environments_name, folders_name, secrets_name, secrets_value,
  secrets_notes, attachments_name, attachments_data, vault_totp, Transform, rekey_tx,
}
use grafted_keys.Crypto.{
  Primitives, KdfParams, rand_bytes, derive_kek, seal, open_blob, const_equal, key_len, salt_len,
}
use grafted_keys.Vault.Aad.{wrap_aad, field_aad}
pub use grafted_keys.Config.{Argon}

abbrev pub params : Argon → Bytes → KdfParams
params a salt = record { time_t = a.time_t; mem_kib = a.mem_kib; par = a.par; salt = salt }

abbrev pub row_params : VaultRow → KdfParams
row_params v = record {
  time_t = v.argon_time;
  mem_kib = v.argon_mem;
  par = v.argon_par;
  salt = v.salt;
}

abbrev pub wrap_row : ℕ → KdfParams → Bytes → VaultRow
wrap_row epoch k wrapped = record {
  epoch = epoch;
  argon_time = k.time_t;
  argon_mem = k.mem_kib;
  argon_par = k.par;
  salt = k.salt;
  wrapped_dek = wrapped;
  totp_enc = none;
  totp_last = 0;
}

-- The wrap opens to exactly the key.
unfoldable pub round_trips : Result Bytes → Bytes → Bool
round_trips (ok back) dek = const_equal back dek
round_trips (err e) dek = false

-- `store.ErrNotFound` becomes `ErrNotInit`.
abbrev missing_row : Error → Error
missing_row not_found = not_init
missing_row e = e

abbrev pub or_not_init : {A : Type 0} → Result A × World → Result A × World
or_not_init (ok a, w) = (ok a, w)
or_not_init (err e, w) = (err (missing_row e), w)

unfoldable pub vault_row : Exec World VaultRow
unfolding get_vault
vault_row w = or_not_init (get_vault w)

-- Any failure of the unwrapping is a wrong passphrase.
unfoldable pub or_bad_passphrase : Result Bytes → Result Bytes
or_bad_passphrase (ok dek) = ok dek
or_bad_passphrase (err e) = err bad_passphrase

-- `tableEntity` and `columnField`
abbrev pub entity_of : Column → Text
entity_of projects_name = codes "project"
entity_of environments_name = codes "environment"
entity_of folders_name = codes "folder"
entity_of secrets_name = codes "secret"
entity_of secrets_value = codes "secret"
entity_of secrets_notes = codes "secret"
entity_of attachments_name = codes "attachment"
entity_of attachments_data = codes "attachment"
entity_of vault_totp = codes "vault"

abbrev pub field_of : Column → Text
field_of projects_name = codes "name"
field_of environments_name = codes "name"
field_of folders_name = codes "name"
field_of secrets_name = codes "name"
field_of secrets_value = codes "value"
field_of secrets_notes = codes "notes"
field_of attachments_name = codes "name"
field_of attachments_data = codes "data"
field_of vault_totp = codes "totp"

abbrev pub column_aad : Column → Text → Bytes
column_aad c id = field_aad (entity_of c) id (field_of c)

module _ (p : Primitives) (argon : Argon) where
  -- Seal a data key under a new salt, check that the wrap opens to it, and store it.
  unfoldable pub setup : Bytes → Exec World Bytes
  unfolding vault_initialized has_data rand_bytes seal round_trips open_blob init_vault
  setup passphrase = do
    init ← vault_initialized
    if init then raise already_init else do
      present ← has_data
      if present then raise orphan_data else do
        salt ← rand_bytes salt_len
        dek ← rand_bytes key_len
        let k = params argon salt
        let kek = derive_kek p passphrase k
        wrapped ← seal p kek dek (wrap_aad 1 k)
        if round_trips (open_blob p kek wrapped (wrap_aad 1 k)) dek
            then (init_vault (wrap_row 1 k wrapped) >> pure dek)
            else raise self_check_failed

  unfoldable pub unlock : Bytes → Exec World Bytes
  unfolding vault_row open_blob or_bad_passphrase
  unlock passphrase = do
    v ← vault_row
    lift (
        or_bad_passphrase (
          open_blob p (derive_kek p passphrase (row_params v)) v.wrapped_dek
            (wrap_aad v.epoch (row_params v))))

  unfoldable pub change_passphrase : Bytes → Bytes → Exec World (Unit {0})
  unfolding get_vault rand_bytes seal round_trips open_blob update_vault_wrap
  change_passphrase dek new_passphrase = do
    v ← get_vault
    salt ← rand_bytes salt_len
    let k = params argon salt
    let kek = derive_kek p new_passphrase k
    wrapped ← seal p kek dek (wrap_aad (v.epoch + 1) k)
    if round_trips (open_blob p kek wrapped (wrap_aad (v.epoch + 1) k)) dek
        then update_vault_wrap (wrap_row (v.epoch + 1) k wrapped)
        else raise self_check_failed

  -- The closure that `Rekey` hands to the transaction.
  unfoldable pub transform : Bytes → Bytes → Transform
  unfolding open_blob seal
  transform old_dek new_dek c id blob = do
    pt ← lift (open_blob p old_dek blob (column_aad c id))
    seal p new_dek pt (column_aad c id)

  unfoldable pub rekey : Bytes → Exec World Bytes
  unfolding vault_row unlock rand_bytes seal transform rekey_tx
  rekey passphrase = do
    v ← vault_row
    old_dek ← unlock passphrase
    new_dek ← rand_bytes key_len
    salt ← rand_bytes salt_len
    let k = params argon salt
    wrapped ← seal p (derive_kek p passphrase k) new_dek (wrap_aad (v.epoch + 1) k)
    rekey_tx (transform old_dek new_dek) (wrap_row (v.epoch + 1) k wrapped)
    pure new_dek
