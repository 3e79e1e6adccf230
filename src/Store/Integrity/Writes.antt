-- ===== src/Store/Integrity/Writes.antt =====
-- Every write of internal/store/model.go keeps the integrity of the database.
use grafted_keys.Prelude.{
  ◌≡◌, refl, Bool, true, false, not, ◌&&◌, List, [], ◌∷◌, arith, Text, Bytes, same, select,
}
use grafted_keys.Exec.{Exec}
use grafted_keys.Store.Table.Keys.{All-select, UniqueKeys-select}
use grafted_keys.Store.Schema.{Secret, Attachment, Db, World}
use grafted_keys.Store.Content.{
  attachment_key, create_project, update_project, delete_project, create_environment,
  update_environment, delete_environment, create_folder, update_folder, delete_folder,
}
use grafted_keys.Store.Secrets.{
  parent_exists, create_secret, update_secret, delete_secret, create_attachment, delete_attachment,
}
use grafted_keys.Store.Integrity.{IsWellFormed, Keeps-execute, Keeps-exec1}
use grafted_keys.Store.Integrity.Deletion.{
  delete_secrets-IsWellFormed, delete_folders-IsWellFormed, delete_environments-IsWellFormed,
  delete_projects-IsWellFormed,
}
use grafted_keys.Store.Integrity.Rows.{
  add_project-IsWellFormed, add_environment-IsWellFormed, add_folder-IsWellFormed,
  add_secret-IsWellFormed, add_attachment-IsWellFormed, change_project-IsWellFormed,
  change_environment-IsWellFormed, change_folder-IsWellFormed, change_secret-IsWellFormed,
}

not-true : (a : Bool) → not a ≡ true → a ≡ false
not-true a h = ground arith

first : (a b : Bool) → (not a && b) ≡ true → a ≡ false
first a b h = ground arith

second : (a b : Bool) → (not a && b) ≡ true → b ≡ true
second a b h = ground arith

-- The writes of the content tables.
pub data Write : Type 0 where
  creates_project : Text → Bytes → Write
  updates_project : Text → Bytes → Write
  deletes_project : Text → Write
  creates_environment : Text → Text → Bytes → Write
  updates_environment : Text → Bytes → Write
  deletes_environment : Text → Write
  creates_folder : Text → Text → Bytes → Write
  updates_folder : Text → Bytes → Write
  deletes_folder : Text → Write
  creates_secret : Secret → Write
  updates_secret : Secret → Write
  deletes_secret : Text → Write
  creates_attachment : Attachment → Write
  deletes_attachment : Text → Write

unfoldable pub perform : Write → Exec World (Unit {0})
perform (creates_project id n) = create_project id n
perform (updates_project id n) = update_project id n
perform (deletes_project id) = delete_project id
perform (creates_environment id p n) = create_environment id p n
perform (updates_environment id n) = update_environment id n
perform (deletes_environment id) = delete_environment id
perform (creates_folder id e n) = create_folder id e n
perform (updates_folder id n) = update_folder id n
perform (deletes_folder id) = delete_folder id
perform (creates_secret s) = create_secret s
perform (updates_secret s) = update_secret s
perform (deletes_secret id) = delete_secret id
perform (creates_attachment a) = create_attachment a
perform (deletes_attachment id) = delete_attachment id

drop_attachment :
    (db : Db) (id : Text)
    → IsWellFormed db
    → IsWellFormed (record db { attachments = select (λ a. not (same a.id id)) db.attachments })
unfolding parent_exists
drop_attachment db id h = record {
  projects_unique = h.projects_unique;
  environments_unique = h.environments_unique;
  folders_unique = h.folders_unique;
  secrets_unique = h.secrets_unique;
  attachments_unique = UniqueKeys-select attachment_key _ db.attachments h.attachments_unique;
  environments_in = h.environments_in;
  folders_in = h.folders_in;
  secrets_in = h.secrets_in;
  attachments_in = All-select _ _ _ db.attachments (λ a g _. g) h.attachments_in;
}

-- Whether it succeeds, is refused, or is failed by the driver, a write leaves unique identifiers
-- in each table, a parent for every row, and exactly one for a secret.
pub perform-IsWellFormed :
    (c : Write) (w : World) → IsWellFormed w.db → IsWellFormed (perform c w).1.db
unfolding perform create_project update_project delete_project create_environment update_environment
    delete_environment create_folder update_folder delete_folder create_secret update_secret
    delete_secret create_attachment delete_attachment
perform-IsWellFormed (creates_project id n) =
    Keeps-execute _ _ λ w h e. add_project-IsWellFormed w.db h _ (not-true _ e)
perform-IsWellFormed (updates_project id n) =
    Keeps-exec1 _ _ λ w h e. change_project-IsWellFormed w.db h id _ (λ r. refl)
perform-IsWellFormed (deletes_project id) =
    Keeps-exec1 _ _ λ w h e. delete_projects-IsWellFormed w.db h _
perform-IsWellFormed (creates_environment id p n) =
    Keeps-execute _ _ λ w h e. add_environment-IsWellFormed w.db h _ (first _ _ e) (second _ _ e)
perform-IsWellFormed (updates_environment id n) =
    Keeps-exec1 _ _ λ w h e. change_environment-IsWellFormed w.db h id _ (λ r. refl) (λ r. refl)
perform-IsWellFormed (deletes_environment id) =
    Keeps-exec1 _ _ λ w h e. delete_environments-IsWellFormed w.db h _
perform-IsWellFormed (creates_folder id p n) =
    Keeps-execute _ _ λ w h e. add_folder-IsWellFormed w.db h _ (first _ _ e) (second _ _ e)
perform-IsWellFormed (updates_folder id n) =
    Keeps-exec1 _ _ λ w h e. change_folder-IsWellFormed w.db h id _ (λ r. refl) (λ r. refl)
perform-IsWellFormed (deletes_folder id) =
    Keeps-exec1 _ _ λ w h e. delete_folders-IsWellFormed w.db h _
perform-IsWellFormed (creates_secret s) =
    Keeps-execute _ _ λ w h e. add_secret-IsWellFormed w.db h _ (first _ _ e) (second _ _ e)
perform-IsWellFormed (updates_secret s) =
    Keeps-exec1 _ _
      λ w h e. change_secret-IsWellFormed w.db h s.id _ (λ r. refl) (λ r. (refl, refl))
perform-IsWellFormed (deletes_secret id) =
    Keeps-exec1 _ _ λ w h e. delete_secrets-IsWellFormed w.db h _
perform-IsWellFormed (creates_attachment a) =
    Keeps-execute _ _ λ w h e. add_attachment-IsWellFormed w.db h _ (first _ _ e) (second _ _ e)
perform-IsWellFormed (deletes_attachment id) = Keeps-exec1 _ _ λ w h e. drop_attachment w.db id h

pub perform_all : List Write → World → World
perform_all [] w = w
perform_all (c ∷ cs) w = perform_all cs (perform c w).1

-- Integrity holds after any history of writes, failed ones included, from a database that has it.
pub perform_all-IsWellFormed :
    (cs : List Write) (w : World) → IsWellFormed w.db → IsWellFormed (perform_all cs w).db
unfolding perform_all
perform_all-IsWellFormed [] w h = h
perform_all-IsWellFormed (c ∷ cs) w h =
    perform_all-IsWellFormed cs (perform c w).1 (perform-IsWellFormed c w h)
