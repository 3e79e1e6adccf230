-- ===== src/Vault/Tests/Finding.antt =====
-- A search of a store with one secret.
use grafted_keys.Prelude.{
  ◌≡◌, ◌⊎◌, arith, List, length, ◌≤◌, refl, none, some, [], ◌∷◌, ◌++◌, Text, Bytes, codes, take,
  All, text_dec,
}
use grafted_keys.Store.Schema.{World, Project, EnvironmentRow, SecretRow}
use grafted_keys.Store.Table.{find, order_by}
use grafted_keys.Store.Secrets.{SecretWithPath, all_secrets_with_path, environment_of}
use grafted_keys.Exec.{ok}
use mathlib.Core.List.{Memᴰ}
use grafted_keys.Vault.Search.{Letters, SearchHit, find_secrets}
use grafted_keys.Vault.Search.Bounds.{IsHitOf}
use grafted_keys.Vault.Search.Completeness.{find_secrets_exact}
use grafted_keys.Vault.Tests.{toy, zeros, empty_db, start, dek}

-- Texts that are in lower case and trimmed.
abbrev plain : Letters
plain = record { to_lower = λ s. s; trim_space = λ s. s }

abbrev sealed : Text → Bytes
sealed s = take 12 start.entropy ++ (zeros 16 ++ s)

abbrev shop : Project
shop = record {
  id = codes "p1";
  name_enc = sealed (codes "shop");
  sort = 0;
  created_at = 1;
  updated_at = 1;
}

abbrev prod : EnvironmentRow
prod = record {
  environment = record {
    id = codes "e1";
    project_id = codes "p1";
    name_enc = sealed (codes "prod");
    sort = 0;
  };
  created_at = 1;
  updated_at = 1;
}

abbrev key_row : SecretRow
key_row = record {
  id = codes "s1";
  folder_id = none;
  environment_id = some (codes "e1");
  name_enc = sealed (codes "key");
  value_enc = sealed (codes "pw");
  notes_enc = sealed (codes "n");
  sort = 0;
  created_at = 1;
  updated_at = 1;
}

abbrev stocked : World
stocked = record start {
  db = record empty_db { projects = shop ∷ []; environments = prod ∷ []; secrets = key_row ∷ [] };
}

abbrev hit : SearchHit
hit = record {
  secret_id = codes "s1";
  name = codes "key";
  project_id = codes "p1";
  project_name = codes "shop";
  env_id = codes "e1";
  env_name = codes "prod";
  folder_id = [];
  folder_name = [];
}

find_secrets_exact_example :
    (rows : List SecretWithPath) × ((all_secrets_with_path stocked).0 ≡ ok rows)
    × (length (hit ∷ []) ≤ 100)
    × All (IsHitOf toy dek plain (codes "hop") rows) (hit ∷ [])
    × ((length (hit ∷ []) ≡ 100)
        ⊎ ((h : SearchHit) → IsHitOf toy dek plain (codes "hop") rows h → Memᴰ h (hit ∷ [])))
unfolding find_secrets text_dec find order_by environment_of
find_secrets_exact_example =
    find_secrets_exact toy dek plain (codes "hop") stocked (hit ∷ []) (omega arith) refl
