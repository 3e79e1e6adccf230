-- ===== src/Vault/Tests/Rotating.antt =====
-- A rotation of the data key of a vault that holds a project.
use grafted_keys.Prelude.{some, [], ◌∷◌, ◌++◌, Bytes, codes, take}
use grafted_keys.Store.Schema.{World, Project}
use grafted_keys.Vault.Tests.{zeros, empty_db, start, wrapped_row}

abbrev project : Project
project = record {
  id = codes "p1";
  name_enc = take 12 start.entropy ++ (zeros 16 ++ codes "home");
  sort = 0;
  created_at = 1;
  updated_at = 1;
}

abbrev with_project : World
with_project = record start {
  db = record empty_db { vault = some wrapped_row; projects = project ∷ [] };
}

abbrev rotated : Bytes
rotated = take 32 start.entropy
