-- ===== src/Vault/Secrets.antt =====
-- internal/vault/content.go and internal/vault/attachments.go: secrets with their name, value and
-- notes, and the files attached to them, sealed under the data key.
pub mod Roundtrip
pub mod Sealed
use grafted_keys.Prelude.{ℕ, Bool, List, [], ◌∷◌, Bytes, Text, codes, length, ltb}
use grafted_keys.Exec.{Exec, Result, ok, err, pure, lift, ◌>>=◌, ◌>>◌}
use grafted_keys.Store.Schema.{World}
use grafted_keys.Store.Schema
use grafted_keys.Store.Secrets.{
  list_secrets, list_env_secrets, get_secret, list_attachments, get_attachment,
  attachment_secret_id,
}
use grafted_keys.Store.Secrets
use grafted_keys.Crypto.{Primitives, rand_id}
use grafted_keys.Vault.Items.{seal_field, field, each, map_ok}

pub record SecretMeta : Type 0 where
  pub id : Text
  pub folder_id : Text
  pub environment_id : Text
  pub name : Text
  pub has_notes : Bool
  pub updated_at : ℕ

pub record SecretFull : Type 0 where
  pub id : Text
  pub folder_id : Text
  pub name : Text
  pub value : Text
  pub notes : Text

pub record AttachmentMeta : Type 0 where
  pub id : Text
  pub secret_id : Text
  pub name : Text
  pub size : ℕ
  pub created_at : ℕ

pub record AttachmentData : Type 0 where
  pub name : Text
  pub data_ : Bytes

abbrev pub empty_cipher_len : ℕ
empty_cipher_len = 28

-- `len(NotesEnc) > emptyCipherLen`
unfoldable pub has_notes : Bytes → Bool
has_notes notes_enc = ltb empty_cipher_len (length notes_enc)

abbrev secret : Text
secret = codes "secret"

abbrev attachment : Text
attachment = codes "attachment"

module _ (p : Primitives) (dek : Bytes) where
  -- ---- secrets ----

  -- The listings give the parent that they select by, and no other field is opened but the name.
  unfoldable pub open_meta : Schema.Secret → Result SecretMeta
  unfolding field has_notes
  open_meta r =
      map_ok
        (λ name. record {
          id = r.id;
          folder_id = r.folder_id;
          environment_id = [];
          name = name;
          has_notes = has_notes r.notes_enc;
          updated_at = r.updated_at;
        })
        (field p dek r.name_enc secret r.id (codes "name"))

  unfoldable pub open_env_meta : Schema.Secret → Result SecretMeta
  unfolding field has_notes
  open_env_meta r =
      map_ok
        (λ name. record {
          id = r.id;
          folder_id = [];
          environment_id = r.environment_id;
          name = name;
          has_notes = has_notes r.notes_enc;
          updated_at = r.updated_at;
        })
        (field p dek r.name_enc secret r.id (codes "name"))

  unfoldable pub secrets : Text → Exec World (List SecretMeta)
  unfolding list_secrets each open_meta
  secrets folder_id = do rows ← list_secrets folder_id; each open_meta rows

  unfoldable pub env_secrets : Text → Exec World (List SecretMeta)
  unfolding list_env_secrets each open_env_meta
  env_secrets env_id = do rows ← list_env_secrets env_id; each open_env_meta rows

  unfoldable pub secret_value : Text → Exec World Text
  unfolding get_secret field
  secret_value id = do r ← get_secret id; lift (field p dek r.value_enc secret r.id (codes "value"))

  unfoldable pub get_secret_full : Text → Exec World SecretFull
  unfolding get_secret field
  get_secret_full id = do
    r ← get_secret id
    name ← lift (field p dek r.name_enc secret r.id (codes "name"))
    value ← lift (field p dek r.value_enc secret r.id (codes "value"))
    notes ← lift (field p dek r.notes_enc secret r.id (codes "notes"))
    pure (record { id = r.id; folder_id = r.folder_id; name = name; value = value; notes = notes })

  -- The sealed fields; the parent is set by the caller, and the store fills in the rest.
  unfoldable pub seal_secret : Text → Text → Text → Text → Exec World Schema.Secret
  unfolding seal_field
  seal_secret id name value notes = do
    ne ← seal_field p dek name secret id (codes "name")
    ve ← seal_field p dek value secret id (codes "value")
    note ← seal_field p dek notes secret id (codes "notes")
    pure (record {
      id = id;
      folder_id = [];
      environment_id = [];
      name_enc = ne;
      value_enc = ve;
      notes_enc = note;
      sort = 0;
      updated_at = 0;
    })

  unfoldable pub create_secret : Text → Text → Text → Text → Exec World Text
  unfolding rand_id seal_secret Secrets.create_secret
  create_secret folder_id name value notes = do
    id ← rand_id
    rec ← seal_secret id name value notes
    Secrets.create_secret (record rec { folder_id = folder_id })
    pure id

  unfoldable pub create_env_secret : Text → Text → Text → Text → Exec World Text
  unfolding rand_id seal_secret Secrets.create_secret
  create_env_secret env_id name value notes = do
    id ← rand_id
    rec ← seal_secret id name value notes
    Secrets.create_secret (record rec { environment_id = env_id })
    pure id

  unfoldable pub update_secret : Text → Text → Text → Text → Exec World (Unit {0})
  unfolding seal_secret Secrets.update_secret
  update_secret id name value notes = do
    rec ← seal_secret id name value notes
    Secrets.update_secret rec

  -- ---- attachments ----

  unfoldable pub open_attachment_meta : Schema.Attachment → Result AttachmentMeta
  unfolding field
  open_attachment_meta r =
      map_ok
        (λ name. record {
          id = r.id;
          secret_id = r.secret_id;
          name = name;
          size = r.size;
          created_at = r.created_at;
        })
        (field p dek r.name_enc attachment r.id (codes "name"))

  unfoldable pub attachments : Text → Exec World (List AttachmentMeta)
  unfolding list_attachments each open_attachment_meta
  attachments secret_id = do rows ← list_attachments secret_id; each open_attachment_meta rows

  unfoldable pub add_attachment : Text → Text → Bytes → Exec World Text
  unfolding rand_id seal_field Secrets.create_attachment
  add_attachment secret_id name bytes = do
    id ← rand_id
    ne ← seal_field p dek name attachment id (codes "name")
    de ← seal_field p dek bytes attachment id (codes "data")
    Secrets.create_attachment (record {
      id = id;
      secret_id = secret_id;
      name_enc = ne;
      data_enc = de;
      size = length bytes;
      created_at = 0;
    })
    pure id

  unfoldable pub attachment_data : Text → Exec World AttachmentData
  unfolding get_attachment field
  attachment_data id = do
    r ← get_attachment id
    name ← lift (field p dek r.name_enc attachment r.id (codes "name"))
    bytes ← lift (field p dek r.data_enc attachment r.id (codes "data"))
    pure (record { name = name; data_ = bytes })

-- Without the key.
unfoldable pub delete_secret : Text → Exec World (Unit {0})
unfolding Secrets.delete_secret
delete_secret id = Secrets.delete_secret id

unfoldable pub secret_folder : Text → Exec World Text
unfolding get_secret
secret_folder id = do r ← get_secret id; pure r.folder_id

unfoldable pub delete_attachment : Text → Exec World (Unit {0})
unfolding Secrets.delete_attachment
delete_attachment id = Secrets.delete_attachment id

unfoldable pub attachment_secret : Text → Exec World Text
unfolding attachment_secret_id
attachment_secret id = attachment_secret_id id

unfoldable pub count_attachments : Text → Exec World ℕ
unfolding Secrets.count_attachments
count_attachments secret_id = Secrets.count_attachments secret_id
