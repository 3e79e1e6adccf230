-- ===== src/Vault/Lifecycle/Reencryption.antt =====
-- The plain texts before and after `Rekey` of internal/vault/vault.go.
use grafted_keys.Prelude.{◌≡◌, Option, none, some, Bytes, Text}
use grafted_keys.Exec.{Result, ok}
use grafted_keys.Store.Schema.{Db}
use grafted_keys.Store.Ensures.{Ensures}
use grafted_keys.Store.Rekey.{Column}
use grafted_keys.Store.Rekey.Cells.{cell}
use grafted_keys.Crypto.{Primitives, open_blob}
use grafted_keys.Vault.Lifecycle.{column_aad}

-- The abstract view of the store under a key: what each ciphertext opens to.
unfoldable pub opened : Primitives → Bytes → Column → Text → Db → Option (Result Bytes)
opened p dek c id db = elim (cell c id db) [
  | none ↦ none
  | some b ↦ some (open_blob p dek b (column_aad c id))
]

module _ (p : Primitives) where
  -- Both open to the same plain text.
  SamePlain : Bytes → Bytes → Column → Text → Bytes → Bytes → Type 0
  SamePlain old new c id b nb =
      (pt : Bytes) × (open_blob p old b (column_aad c id) ≡ ok pt)
      × (open_blob p new nb (column_aad c id) ≡ ok pt)
