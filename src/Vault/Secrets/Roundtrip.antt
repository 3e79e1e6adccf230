-- ===== src/Vault/Secrets/Roundtrip.antt =====
-- A secret that was created, read back.
use grafted_keys.Prelude.{
  ℕ, ◌≡◌, refl, sym, ap, ◌∙◌, true, false, not, ◌&&◌, some, List, [], ◌∷◌, ◌++◌, Bytes, Text, codes,
  arith, same,
}
use grafted_keys.Exec.{ok}
use grafted_keys.Store.Schema.{World, Db, SecretRow, query_row, execute}
use grafted_keys.Store.Schema
use grafted_keys.Store.Table.{find, contains_key}
use grafted_keys.Store.Ensures.{execute_inversion, Ensures, Ensures-bind, Ensures-pure}
use grafted_keys.Store.Content.{secret_key}
use grafted_keys.Store.Secrets.{null_str, string_of, scan_secret, get_secret}
use grafted_keys.Store.Secrets
use grafted_keys.Crypto.{Primitives, IsLawful, rand_id}
use grafted_keys.Crypto.Sealing.{open_blob-seal}
use grafted_keys.Vault.Items.{seal_field, field}
use grafted_keys.Vault.Aad.{field_aad}
use grafted_keys.Vault.Secrets.{seal_secret, create_secret, get_secret_full}

string_of-null_str : (s : Text) → string_of (null_str s) ≡ s
unfolding null_str
string_of-null_str [] = refl
string_of-null_str (c ∷ s) = refl

same_refl : (k : Text) → same k k ≡ true
same_refl k = ground arith

find-append_new :
    (k : Text) (r : SecretRow) (rows : List SecretRow)
    → contains_key secret_key k rows ≡ false
    → same r.id k ≡ true
    → find secret_key k (rows ++ r ∷ []) ≡ some r
unfolding contains_key find
find-append_new k r [] h e = ground arith
find-append_new k r (q ∷ rows) h e = ground (arith, find-append_new k r rows)

-- The row that the store makes of a struct.
abbrev new_row : Schema.Secret → ℕ → SecretRow
new_row s now = record {
  id = s.id;
  folder_id = null_str s.folder_id;
  environment_id = null_str s.environment_id;
  name_enc = s.name_enc;
  value_enc = s.value_enc;
  notes_enc = s.notes_enc;
  sort = 0;
  created_at = now;
  updated_at = now;
}

create_secret_stores :
    (s : Schema.Secret) (w : World)
    → (Secrets.create_secret s w).0 ≡ ok tt
    → find secret_key s.id (Secrets.create_secret s w).1.db.secrets ≡ some (new_row s w.now)
unfolding Secrets.create_secret
create_secret_stores s w h =
    let (t, e) =
      execute_inversion
        (λ w.
          not (contains_key secret_key s.id w.db.secrets)
          && Secrets.parent_exists w.db (null_str s.folder_id) (null_str s.environment_id))
        (λ w. record w.db { secrets = w.db.secrets ++ new_row s w.now ∷ [] }) w h in
    ap (λ db. find secret_key s.id db.secrets) e
    ∙ find-append_new s.id (new_row s w.now) w.db.secrets (ground (arith, t)) (same_refl s.id)

get_secret_runs :
    (id : Text) (r : SecretRow) (w : World)
    → find secret_key id w.db.secrets ≡ some r
    → w.faults ≡ []
    → get_secret id w ≡ (ok (scan_secret r), w)
unfolding get_secret query_row
get_secret_runs id r w e f = rw (f, e) refl

module _ (p : Primitives) (laws : IsLawful p) (dek : Bytes) where
  field-seal_field :
      (pt entity id role blob : Bytes) (w : World)
      → (seal_field p dek pt entity id role w).0 ≡ ok blob
      → field p dek blob entity id role ≡ ok pt
  unfolding seal_field field
  field-seal_field pt entity id role blob w h =
      open_blob-seal p laws dek pt (field_aad entity id role) blob w h

  -- The record of sealed fields opens to the plain ones.
  abbrev Sealed : Text → Text → Text → Text → Schema.Secret → Type 0
  Sealed id name value notes s =
      (field p dek s.name_enc (codes "secret") id (codes "name") ≡ ok name)
      × (field p dek s.value_enc (codes "secret") id (codes "value") ≡ ok value)
      × (field p dek s.notes_enc (codes "secret") id (codes "notes") ≡ ok notes)

  seal_field-Ensures :
      (K : Type 0) (pt entity id role : Bytes)
      → Ensures
          (λ _. K)
          (seal_field p dek pt entity id role)
          (λ blob _. (field p dek blob entity id role ≡ ok pt) × K)
  seal_field-Ensures K pt entity id role = record {
    at = λ w blob k h. (field-seal_field pt entity id role blob w h, k);
  }

  seal_secret-Sealed :
      (id name value notes : Text)
      → Ensures
          (λ _. Unit {0})
          (seal_secret p dek id name value notes)
          (λ s _. (s.id ≡ id) × Sealed id name value notes s)
  unfolding seal_secret
  seal_secret-Sealed id name value notes =
      Ensures-bind _ _ _ _ (seal_field-Ensures (Unit {0}) name (codes "secret") id (codes "name"))
        λ ne.
          Ensures-bind _ _ _ _ (seal_field-Ensures _ value (codes "secret") id (codes "value"))
            λ ve.
              Ensures-bind _ _ _ _ (seal_field-Ensures _ notes (codes "secret") id (codes "notes"))
                λ note. Ensures-pure _ _ λ db (o, (v, (n, u))). (refl, (n, v, o))

  get_secret_full_runs :
      (id name value notes : Text) (r : SecretRow) (w : World)
      → find secret_key id w.db.secrets ≡ some r
      → r.id ≡ id
      → Sealed id name value notes (scan_secret r)
      → w.faults ≡ []
      → (get_secret_full p dek id w).0
        ≡ ok (record {
          id = id;
          folder_id = string_of r.folder_id;
          name = name;
          value = value;
          notes = notes;
        })
  unfolding get_secret_full
  get_secret_full_runs id name value notes r w e i (n, v, o) f =
      rw (get_secret_runs id r w e f, i, n, v, o) refl

  -- After a creation, the row with the new id holds the sealed fields.
  Holds : Text → Text → Text → Text → Text → Db → Type 0
  Holds id folder name value notes db =
      (r : SecretRow) × (find secret_key id db.secrets ≡ some r)
      × (r.id ≡ id)
      × (string_of r.folder_id ≡ folder)
      × Sealed id name value notes (scan_secret r)

  stored_secret :
      (folder name value notes id : Text) (s : Schema.Secret)
      → Ensures
          (λ _. (s.id ≡ id) × Sealed id name value notes s)
          (Secrets.create_secret (record s { folder_id = folder }))
          (λ _ db. Holds id folder name value notes db)
  unfolding Holds
  stored_secret folder name value notes id s = record {
    at = λ w u (i, opens) h. (
      new_row (record s { folder_id = folder }) w.now,
      rw (sym i) (create_secret_stores (record s { folder_id = folder }) w h),
      i,
      string_of-null_str folder,
      opens,
    );
  }

  create_secret-Holds :
      (folder name value notes : Text)
      → Ensures
          (λ _. Unit {0})
          (create_secret p dek folder name value notes)
          (λ id db. Holds id folder name value notes db)
  unfolding create_secret
  create_secret-Holds folder name value notes =
      Ensures-bind rand_id _ (λ _ _. Unit {0}) _ (record { at = λ w id k h. tt })
        λ id. Ensures-bind _ _ _ _ (seal_secret-Sealed id name value notes) λ s.
          Ensures-bind _ _ _ _ (stored_secret folder name value notes id s)
            λ u. Ensures-pure id _ λ db held. held

  -- What `CreateSecret` stored, `GetSecretFull` with the same key returns: the id, the folder, and
  -- the three plain texts, at any later time with the same database and no failing driver.
  pub create_secret-get_secret_full :
      (folder name value notes id : Text) (w later : World)
      → (create_secret p dek folder name value notes w).0 ≡ ok id
      → later.db ≡ (create_secret p dek folder name value notes w).1.db
      → later.faults ≡ []
      → (get_secret_full p dek id later).0
        ≡ ok (record { id = id; folder_id = folder; name = name; value = value; notes = notes })
  unfolding Holds
  create_secret-get_secret_full folder name value notes id w later h d f =
      let (r, found, i, parent, opens) =
        (create_secret-Holds folder name value notes).at w id tt h in
      rw (sym parent) (
        get_secret_full_runs id name value notes r later
          (ap (λ db. find secret_key id db.secrets) d ∙ found) i opens f)
