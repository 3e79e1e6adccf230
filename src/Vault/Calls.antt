-- ===== src/Vault/Calls.antt =====
-- The operations of internal/vault on the key and the content that change the database, as one
-- type of calls.
use grafted_keys.Prelude.{◌≡◌, arith, Bytes, Text}
use grafted_keys.Exec.{Error, err, Exec, pure, ◌>>=◌}
use grafted_keys.Store.Schema.{World}
use grafted_keys.Store.Content
use grafted_keys.Store.Secrets
use grafted_keys.Store.Atomic.{Quiet, Atomic, quiet_rules, atomic_rules}
use grafted_keys.Crypto.{Primitives, rand_id}
use grafted_keys.Vault.Lifecycle.{Argon, setup, change_passphrase, rekey}
use grafted_keys.Vault.Lifecycle.Unlocking.{
  Quiet-rand_bytes, Quiet-seal, Atomic-setup, Atomic-change_passphrase, Atomic-rekey,
}
use grafted_keys.Vault.Items.{
  seal_field, create_project, rename_project, delete_project, create_environment,
  rename_environment, delete_environment, create_folder, rename_folder, delete_folder,
}
use grafted_keys.Vault.Secrets.{
  seal_secret, create_secret, create_env_secret, update_secret, delete_secret, add_attachment,
  delete_attachment,
}

pub data Call : Type 0 where
  call_setup : Bytes → Call
  call_change_passphrase : Bytes → Bytes → Call
  call_rekey : Bytes → Call
  call_create_project : Bytes → Text → Call
  call_rename_project : Bytes → Text → Text → Call
  call_delete_project : Text → Call
  call_create_environment : Bytes → Text → Text → Call
  call_rename_environment : Bytes → Text → Text → Call
  call_delete_environment : Text → Call
  call_create_folder : Bytes → Text → Text → Call
  call_rename_folder : Bytes → Text → Text → Call
  call_delete_folder : Text → Call
  call_create_secret : Bytes → Text → Text → Text → Text → Call
  call_create_env_secret : Bytes → Text → Text → Text → Text → Call
  call_update_secret : Bytes → Text → Text → Text → Text → Call
  call_delete_secret : Text → Call
  call_add_attachment : Bytes → Text → Text → Bytes → Call
  call_delete_attachment : Text → Call

-- The result is dropped; an error stays.
abbrev then_unit : {A : Type 0} → Exec World A → Exec World (Unit {0})
then_unit m = m >>= λ _. pure tt

unfoldable pub perform : Primitives → Argon → Call → Exec World (Unit {0})
perform p a (call_setup pass) = then_unit (setup p a pass)
perform p a (call_change_passphrase dek pass) = change_passphrase p a dek pass
perform p a (call_rekey pass) = then_unit (rekey p a pass)
perform p a (call_create_project dek name) = then_unit (create_project p dek name)
perform p a (call_rename_project dek id name) = rename_project p dek id name
perform p a (call_delete_project id) = delete_project id
perform p a (call_create_environment dek project_id name) =
    then_unit (create_environment p dek project_id name)
perform p a (call_rename_environment dek id name) = rename_environment p dek id name
perform p a (call_delete_environment id) = delete_environment id
perform p a (call_create_folder dek env_id name) = then_unit (create_folder p dek env_id name)
perform p a (call_rename_folder dek id name) = rename_folder p dek id name
perform p a (call_delete_folder id) = delete_folder id
perform p a (call_create_secret dek folder name value notes) =
    then_unit (create_secret p dek folder name value notes)
perform p a (call_create_env_secret dek env_id name value notes) =
    then_unit (create_env_secret p dek env_id name value notes)
perform p a (call_update_secret dek id name value notes) = update_secret p dek id name value notes
perform p a (call_delete_secret id) = delete_secret id
perform p a (call_add_attachment dek secret_id name bytes) =
    then_unit (add_attachment p dek secret_id name bytes)
perform p a (call_delete_attachment id) = delete_attachment id

Quiet-rand_id : Quiet rand_id
unfolding rand_id
Quiet-rand_id = record { at = λ w. ground (arith, (Quiet-rand_bytes 16).at w) }

Quiet-seal_field :
    (p : Primitives) (dek pt entity id role : Bytes) → Quiet (seal_field p dek pt entity id role)
unfolding seal_field
Quiet-seal_field p dek pt entity id role = Quiet-seal p dek pt _

Quiet-seal_secret :
    (p : Primitives) (dek : Bytes) (id name value notes : Text)
    → Quiet (seal_secret p dek id name value notes)
unfolding seal_secret
Quiet-seal_secret p dek id name value notes = search (quiet_rules, Quiet-seal_field) depth 9

ruleset call_rules = (atomic_rules, Quiet-rand_id, Quiet-seal_field, Quiet-seal_secret)

perform-Atomic : (p : Primitives) (a : Argon) (c : Call) → Atomic (perform p a c)
unfolding perform create_project rename_project delete_project create_environment rename_environment
    delete_environment create_folder rename_folder delete_folder create_secret create_env_secret
    update_secret delete_secret add_attachment delete_attachment Content.create_project
    Content.update_project Content.delete_project Content.create_environment
    Content.update_environment Content.delete_environment Content.create_folder
    Content.update_folder Content.delete_folder Secrets.create_secret Secrets.update_secret
    Secrets.delete_secret Secrets.create_attachment Secrets.delete_attachment
perform-Atomic p a (call_setup pass) = search (call_rules, Atomic-setup)
perform-Atomic p a (call_change_passphrase dek pass) = Atomic-change_passphrase p a dek pass
perform-Atomic p a (call_rekey pass) = search (call_rules, Atomic-rekey)
perform-Atomic p a (call_create_project dek name) = search call_rules depth 9
perform-Atomic p a (call_rename_project dek id name) = search call_rules depth 9
perform-Atomic p a (call_delete_project id) = search call_rules depth 9
perform-Atomic p a (call_create_environment dek project_id name) = search call_rules depth 9
perform-Atomic p a (call_rename_environment dek id name) = search call_rules depth 9
perform-Atomic p a (call_delete_environment id) = search call_rules depth 9
perform-Atomic p a (call_create_folder dek env_id name) = search call_rules depth 9
perform-Atomic p a (call_rename_folder dek id name) = search call_rules depth 9
perform-Atomic p a (call_delete_folder id) = search call_rules depth 9
perform-Atomic p a (call_create_secret dek folder name value notes) = search call_rules depth 9
perform-Atomic p a (call_create_env_secret dek env_id name value notes) = search call_rules depth 9
perform-Atomic p a (call_update_secret dek id name value notes) = search call_rules depth 9
perform-Atomic p a (call_delete_secret id) = search call_rules depth 9
perform-Atomic p a (call_add_attachment dek secret_id name bytes) = search call_rules depth 9
perform-Atomic p a (call_delete_attachment id) = search call_rules depth 9

-- An operation on the vault's key or content that fails, whatever the error and wherever it comes
-- from, leaves the database as it was.
pub perform_failure :
    (p : Primitives) (a : Argon) (c : Call) (w : World) (e : Error)
    → (perform p a c w).0 ≡ err e
    → (perform p a c w).1.db ≡ w.db
perform_failure p a c w e h = (perform-Atomic p a c).at w e h
