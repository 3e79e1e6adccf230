-- ===== src/Web/Tests/Content.antt =====
-- A secret that is posted to a folder, and the form that edits it.
use grafted_keys.Prelude.{◌≡◌, ◌++◌, refl, true, lookup, [], ◌∷◌, codes, text_dec, take}
use grafted_keys.Exec.{ok}
use grafted_keys.Crypto.{base32}
use grafted_keys.Vault.Secrets
use grafted_keys.Vault.Secrets.{SecretMeta}
use grafted_keys.Store.Schema.{FolderRow}
use grafted_keys.Store.Table.{contains_key}
use grafted_keys.Store.Secrets.{null_str, parent_exists}
use grafted_keys.Vault.Tests.{toy, toy-IsLawful, dek, empty_db}
use grafted_keys.Web.Server.{Server, Request, respond, fragment, secret_form, attempt}
use grafted_keys.Web.Secrets.{create_secret, edit_secret_form, collapse, normalize_key}
use grafted_keys.Web.Secrets.Editing.{create_secret-edit_secret_form}
use grafted_keys.Web.Tests.{library, mine, server, posted}

abbrev folder : FolderRow
folder = record {
  folder = record { id = codes "f1"; environment_id = codes "e1"; name_enc = []; sort = 0 };
  created_at = 1;
  updated_at = 1;
}

abbrev pub with_folder : Server
with_folder = record server { db = record empty_db { folders = folder ∷ [] } }

abbrev addition : Request
addition = posted mine (
    (codes "folder_id", codes "f1")
    ∷ (codes "name", codes "DB  KEY")
    ∷ (codes "value", codes "pw")
    ∷ (codes "notes", codes "n")
    ∷ [])

abbrev added : SecretMeta
added = record {
  id = base32 (take 16 server.entropy);
  folder_id = codes "f1";
  environment_id = [];
  name = codes "DB_KEY";
  has_notes = true;
  updated_at = 0;
}

abbrev edit : Request
edit = record (posted mine []) { path_id = added.id }

abbrev after_addition : Server
after_addition = (create_secret library toy addition mine dek with_folder).1

create_secret-edit_secret_form_example :
    (edit_secret_form library toy edit mine dek after_addition).0
    ≡ ok (
        respond 200 [] (
          fragment (
            secret_form (record {
              action = codes "/secrets/" ++ added.id;
              target = codes "#detail-" ++ added.id;
              swap = codes "innerHTML";
              parent_field = [];
              parent_id = [];
              id = added.id;
              name = codes "DB_KEY";
              value = codes "pw";
              notes = codes "n";
            }))))
unfolding create_secret text_dec collapse base32 normalize_key lookup Secrets.create_secret
    contains_key null_str parent_exists attempt
create_secret-edit_secret_form_example =
    create_secret-edit_secret_form library toy toy-IsLawful addition edit mine mine dek with_folder
      after_addition added refl refl refl refl refl
