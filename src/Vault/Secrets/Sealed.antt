-- ===== src/Vault/Secrets/Sealed.antt =====
-- What the sealed fields of a secret show, and what they hide from an attacker on the database.
use grafted_keys.Prelude.{
  ◌≡◌, sym, ap, ◌∙◌, some, ◌++◌, Bytes, Text, codes, arith, ltb, length, take, Option-cases, inl,
  inr,
}
use grafted_keys.Exec.{ok, bind_inversion}
use grafted_keys.Store.Schema.{World, Db, SecretRow, query_row}
use grafted_keys.Store.Schema
use grafted_keys.Store.Table.{find}
use grafted_keys.Store.Content.{secret_key}
use grafted_keys.Store.Secrets.{scan_secret, get_secret}
use grafted_keys.Crypto.{Primitives, IsLawful, nonce_len}
use grafted_keys.Crypto.Sealing.{length-seal_blob, open_blob_authentic}
use grafted_keys.Vault.Items.{seal_field, field}
use grafted_keys.Vault.Aad.{field_aad}
use grafted_keys.Vault.Secrets.{has_notes, secret_value}

module _ (p : Primitives) (laws : IsLawful p) (dek : Bytes) where
  -- The flag that a listing shows for a secret's notes, without opening them, is right: the sealed
  -- notes have it exactly when the notes are not empty.
  pub has_notes-seal_field :
      (notes id blob : Bytes) (w : World)
      → (seal_field p dek notes (codes "secret") id (codes "notes") w).0 ≡ ok blob
      → has_notes blob ≡ ltb 0 (length notes)
  unfolding has_notes seal_field
  has_notes-seal_field notes id blob w h = ground (
    arith,
    length-seal_blob p laws dek notes (field_aad (codes "secret") id (codes "notes")) blob w h,
  )

  get_secret_inversion :
      (id : Text) (s : Schema.Secret) (w : World)
      → (get_secret id w).0 ≡ ok s
      → (r : SecretRow) × (find secret_key id w.db.secrets ≡ some r) × (s ≡ scan_secret r)
  unfolding get_secret query_row
  get_secret_inversion id s w h = elim (Option-cases (find secret_key id w.db.secrets)) [
    | inl e ↦ absurd (ground (arith, e))
    | inr (r, e) ↦ (r, e, ground (arith, e))
  ]

  -- A value that is revealed is authentic: the row's blob is a nonce and what GCM seals for exactly
  -- this value, under the data key and for this row's value field.
  pub secret_value_authentic :
      (id value : Text) (w : World)
      → (secret_value p dek id w).0 ≡ ok value
      → (r : SecretRow) × (find secret_key id w.db.secrets ≡ some r)
        × (r.value_enc
            ≡ take nonce_len r.value_enc
              ++ p.gcm_seal dek
                  (take nonce_len r.value_enc)
                  value
                  (field_aad (codes "secret") r.id (codes "value")))
  unfolding secret_value field
  secret_value_authentic id value w h =
      let (s, q, r, e) = bind_inversion (get_secret id) _ w value h in
      let (row, found, same) = get_secret_inversion id s w q in
      (
        row,
        found,
        (open_blob_authentic p laws dek row.value_enc
            (field_aad (codes "secret") row.id (codes "value")) value
            (ap (λ x. field p dek x.value_enc (codes "secret") x.id (codes "value")) (sym same)
              ∙ r)).1,
      )
