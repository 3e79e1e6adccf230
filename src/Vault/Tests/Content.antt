-- ===== src/Vault/Tests/Content.antt =====
-- Secrets and the second factor of a vault with a folder.
use grafted_keys.Prelude.{
  ℕ, ◌+◌, ◌-◌, ◌/◌, ◌≤◌, ◌<◌, ◌≡◌, refl, false, none, some, [], ◌∷◌, ◌++◌, Text, Bytes, codes, take,
  text_dec,
}
use grafted_keys.Exec.{ok}
use grafted_keys.Store.Schema.{World, VaultRow, SecretRow, FolderRow}
use grafted_keys.Store.Table.{contains_key, find}
use grafted_keys.Store.Content.{secret_key}
use grafted_keys.Store.Secrets.{null_str, parent_exists}
use grafted_keys.Crypto.{base32, nonce_len}
use grafted_keys.Crypto.Totp.{totp_period}
use grafted_keys.Vault.Aad.{field_aad}
use grafted_keys.Vault.Items.{field}
use grafted_keys.Vault.Secrets.{create_secret, get_secret_full, secret_value}
use grafted_keys.Vault.Secrets.Roundtrip.{create_secret-get_secret_full}
use grafted_keys.Vault.Secrets.Sealed.{secret_value_authentic}
use grafted_keys.Vault.Factor.{verify_login_totp, blob_of}
use grafted_keys.Vault.Factor.Replay.{verify_login_accepts, verify_login_once}
use grafted_keys.Vault.Tests.{toy, toy-IsLawful, zeros, empty_db, start, dek, wrapped_row}

abbrev nonce : Bytes
nonce = take 12 start.entropy

abbrev folder : FolderRow
folder = record {
  folder = record { id = codes "f1"; environment_id = codes "e1"; name_enc = []; sort = 0 };
  created_at = 1;
  updated_at = 1;
}

abbrev with_folder : World
with_folder = record start { db = record empty_db { folders = folder ∷ [] } }

abbrev new_id : Text
new_id = base32 (take 16 start.entropy)

abbrev after_create : World
after_create =
    (create_secret toy dek (codes "f1") (codes "db") (codes "pw") (codes "n") with_folder).1

create_secret-get_secret_full_example :
    (get_secret_full toy dek new_id after_create).0
    ≡ ok (record {
      id = new_id;
      folder_id = codes "f1";
      name = codes "db";
      value = codes "pw";
      notes = codes "n";
    })
unfolding create_secret contains_key text_dec null_str parent_exists base32
create_secret-get_secret_full_example =
    create_secret-get_secret_full toy toy-IsLawful dek (codes "f1") (codes "db") (codes "pw")
      (codes "n") new_id with_folder after_create refl refl refl

abbrev row : SecretRow
row = record {
  id = codes "s1";
  folder_id = some (codes "f1");
  environment_id = none;
  name_enc = [];
  value_enc = nonce ++ (zeros 16 ++ codes "pw");
  notes_enc = [];
  sort = 0;
  created_at = 1;
  updated_at = 1;
}

abbrev with_secret : World
with_secret = record start { db = record empty_db { folders = folder ∷ []; secrets = row ∷ [] } }

secret_value_authentic_example :
    (r : SecretRow) × (find secret_key (codes "s1") with_secret.db.secrets ≡ some r)
    × (r.value_enc
        ≡ take nonce_len r.value_enc
          ++ toy.gcm_seal dek
              (take nonce_len r.value_enc)
              (codes "pw")
              (field_aad (codes "secret") r.id (codes "value")))
unfolding secret_value find text_dec
secret_value_authentic_example =
    secret_value_authentic toy toy-IsLawful dek (codes "s1") (codes "pw") with_secret refl

-- The second factor, set up at step 10; the clock stands in step 30.
abbrev factor_row : VaultRow
factor_row = record wrapped_row {
  totp_enc = some (nonce ++ (zeros 16 ++ codes "JBSW"));
  totp_last = 10;
}

abbrev with_factor : World
with_factor = record start { db = record empty_db { vault = some factor_row } }

verify_login_accepts_example :
    (v : VaultRow) × (secret : Text) × (t : ℕ) × (with_factor.db.vault ≡ some v)
    × (field toy dek (blob_of v.totp_enc) (codes "vault") (codes "1") (codes "totp") ≡ ok secret)
    × (toy.totp_code secret t ≡ some (30 ∷ []))
    × (with_factor.now - totp_period ≤ t)
    × (t ≤ with_factor.now + totp_period)
    × (v.totp_last < t / totp_period)
    × ((verify_login_totp toy dek (30 ∷ []) with_factor).1.db.vault
        ≡ some (record v { totp_last = t / totp_period }))
unfolding verify_login_totp
verify_login_accepts_example = verify_login_accepts toy dek (30 ∷ []) with_factor refl

abbrev once : World
once = (verify_login_totp toy dek (30 ∷ []) with_factor).1

verify_login_once_example : (verify_login_totp toy dek (30 ∷ []) once).0 ≡ ok false
unfolding verify_login_totp
verify_login_once_example = verify_login_once toy dek (30 ∷ []) with_factor once refl refl refl refl
