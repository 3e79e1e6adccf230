-- ===== src/Store/Tests.antt =====
-- A short history of writes, and a run of the migrations that fails in the middle.
use grafted_keys.Prelude.{ℕ, ◌+◌, ◌*◌, ◌≡◌, true, false, List, [], ◌∷◌, codes, none, arith}
use grafted_keys.Exec.{ok}
use grafted_keys.Store.Migration.{Versioned, healed, migrated, migrate, migrate_resumes}
use grafted_keys.Store.Schema.{World, Db}
use grafted_keys.Store.Integrity.{IsWellFormed}
use grafted_keys.Store.Integrity.Writes.{
  creates_project, creates_environment, deletes_project, perform_all, perform_all-IsWellFormed,
}

abbrev fresh_db : Db
fresh_db = record {
  vault = none;
  projects = [];
  environments = [];
  folders = [];
  secrets = [];
  attachments = [];
  app_settings = [];
}

abbrev fresh : World
fresh = record { db = fresh_db; now = 5; faults = []; entropy = [] }

fresh-IsWellFormed : IsWellFormed fresh_db
fresh-IsWellFormed = record {
  projects_unique = tt;
  environments_unique = tt;
  folders_unique = tt;
  secrets_unique = tt;
  attachments_unique = tt;
  environments_in = tt;
  folders_in = tt;
  secrets_in = tt;
  attachments_in = tt;
}

perform_all-IsWellFormed_example :
    IsWellFormed
      (perform_all
        (creates_project (codes "p") []
          ∷ creates_environment (codes "e") (codes "p") []
          ∷ deletes_project (codes "p")
          ∷ [])
        fresh).db
perform_all-IsWellFormed_example =
    perform_all-IsWellFormed
      (creates_project (codes "p") []
        ∷ creates_environment (codes "e") (codes "p") []
        ∷ deletes_project (codes "p")
        ∷ [])
      fresh fresh-IsWellFormed

-- A database at version 1 of 3, whose third migration fails in the first run.
abbrev migrations : List (ℕ → ℕ)
migrations = (λ a. a + 1) ∷ (λ a. a * 10) ∷ (λ a. a + 5) ∷ []

abbrev old_database : Versioned ℕ
old_database = record {
  content = 7;
  user_version = 1;
  faults = false ∷ false ∷ false ∷ false ∷ false ∷ false ∷ true ∷ [];
}

migrate_resumes_example :
    migrate migrations (healed (migrate migrations old_database).1)
    ≡ (ok tt, record { content = 75; user_version = 3; faults = [] })
unfolding migrated
migrate_resumes_example = migrate_resumes migrations old_database (omega arith)
