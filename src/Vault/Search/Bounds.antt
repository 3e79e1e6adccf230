-- ===== src/Vault/Search/Bounds.antt =====
-- What the hits of `Search` of internal/vault/content.go are.
use grafted_keys.Prelude.{
  ℕ, suc, ◌+◌, ◌≤◌, ◌<◌, ◌≡◌, ◌⊎◌, ltb, refl, sym, ap, ◌∙◌, codes, ◌++◌, inl, inr, Bool-cases, true,
  List, [], ◌∷◌, Bytes, Text, arith, leb, length, All,
}
use mathlib.Core.List.{Memᴰ}
use grafted_keys.Vault.Items.{field}
use grafted_keys.Exec.{Exec, lift, ok, bind_inversion, ok_injective}
use grafted_keys.Store.Schema.{World, Db}
use grafted_keys.Store.Secrets.{SecretWithPath}
use grafted_keys.Store.Ensures.{Ensures, Ensures-bind, Ensures-if, Ensures-pure}
use grafted_keys.Crypto.{Primitives}
use grafted_keys.Vault.Search.{
  Letters, SearchHit, has_prefix, is_substring, contains, open_folder_name, open_hit, hit_matches,
  search_rows, max_hits,
}

Ensures-self :
    {A : Type 0}
    → (P : Db → Type 0) (m : Exec World A) → Ensures P m (λ a _. (w : World) × ((m w).0 ≡ ok a))
Ensures-self P m = record { at = λ w a k h. (w, h) }

Ensures-known :
    {A : Type 0} {K : Type 0} {m : Exec World A} {Q : A → Db → Type 0}
    → (K → Ensures (λ _. Unit {0}) m Q)
    → Ensures (λ _. K) m Q
Ensures-known f = record { at = λ w a k h. (f k).at w a tt h }

Ensures-result :
    {A : Type 0} {P : Db → Type 0} {m : Exec World A} {Q R : A → Type 0}
    → Ensures P m (λ a _. Q a)
    → ((a : A) → Q a → R a)
    → Ensures P m (λ a _. R a)
Ensures-result g f = record { at = λ w a k h. f a (g.at w a k h) }

module _ (p : Primitives) (dek : Bytes) (letters : Letters) where
  -- The text has the query in it, whatever the case of its letters.
  abbrev pub Shows : Text → Text → Type 0
  Shows q t = (before : Text) × (after : Text) × (letters.to_lower t ≡ before ++ (q ++ after))

  -- A name of the hit has the query in it, or the notes have.
  pub data Matches (q : Text) (hit : SearchHit) (notes : Text) : Type 0 where
    by_name : Shows q hit.name → Matches q hit notes
    by_notes : Shows q notes → Matches q hit notes
    by_folder : Shows q hit.folder_name → Matches q hit notes
    by_environment : Shows q hit.env_name → Matches q hit notes
    by_project : Shows q hit.project_name → Matches q hit notes

  -- What the row holds, with each field opened for its own place.
  pub record Opens (r : SecretWithPath) (hit : SearchHit) (notes : Text) : Type 0 where
    pub secret_id : hit.secret_id ≡ r.id
    pub name : field p dek r.name_enc (codes "secret") r.id (codes "name") ≡ ok hit.name
    pub notes_of : field p dek r.notes_enc (codes "secret") r.id (codes "notes") ≡ ok notes
    pub project :
        field p dek r.project_name (codes "project") r.project_id (codes "name")
        ≡ ok hit.project_name
    pub environment :
        field p dek r.env_name (codes "environment") r.env_id (codes "name") ≡ ok hit.env_name
    pub folder :
        ((1 ≤ length r.folder_name)
          × (field p dek r.folder_name (codes "folder") r.folder_id (codes "name")
              ≡ ok hit.folder_name))
        ⊎ ((length r.folder_name ≡ 0) × (hit.folder_name ≡ []))
    pub project_id : hit.project_id ≡ r.project_id
    pub env_id : hit.env_id ≡ r.env_id
    pub folder_id : hit.folder_id ≡ r.folder_id

  open_folder_name-cases :
      (r : SecretWithPath) (name : Text)
      → open_folder_name p dek r ≡ ok name
      → ((1 ≤ length r.folder_name)
          × (field p dek r.folder_name (codes "folder") r.folder_id (codes "name") ≡ ok name))
        ⊎ ((length r.folder_name ≡ 0) × (name ≡ []))
  unfolding open_folder_name
  open_folder_name-cases r name h = elim (Bool-cases (ltb 0 (length r.folder_name))) [
    | inl e ↦ inl (ground arith, rw e at h)
    | inr e ↦ inr (ground arith, sym (ok_injective [] name (rw e at h)))
  ]

  open_hit-Opens :
      (r : SecretWithPath) (hit : SearchHit) (notes : Text) (w : World)
      → (open_hit p dek r w).0 ≡ ok (hit, notes)
      → Opens r hit notes
  unfolding open_hit
  open_hit-Opens r hit notes w h =
      let (a, name, h1, _) =
        bind_inversion (lift (field p dek r.name_enc (codes "secret") r.id (codes "name"))) _ w
          (hit, notes) h in
      let (b, notes_of, h2, _) =
        bind_inversion (lift (field p dek r.notes_enc (codes "secret") r.id (codes "notes"))) _ w
          (hit, notes) h1 in
      let (c, project, h3, _) =
        bind_inversion
          (lift (field p dek r.project_name (codes "project") r.project_id (codes "name"))) _ w
          (hit, notes) h2 in
      let (d, environment, h4, _) =
        bind_inversion (lift (field p dek r.env_name (codes "environment") r.env_id (codes "name")))
          _ w (hit, notes) h3 in
      let (e, folder, h5, _) =
        bind_inversion (lift (open_folder_name p dek r)) _ w (hit, notes) h4 in
      let same_one = ok_injective _ (hit, notes) h5 in
      record {
        secret_id = ap (λ x. x.0.secret_id) (sym same_one);
        name = name ∙ ap (λ x. ok x.0.name) same_one;
        notes_of = notes_of ∙ ap (λ x. ok x.1) same_one;
        project = project ∙ ap (λ x. ok x.0.project_name) same_one;
        environment = environment ∙ ap (λ x. ok x.0.env_name) same_one;
        folder =
            open_folder_name-cases r hit.folder_name
              (folder ∙ ap (λ x. ok x.0.folder_name) same_one);
        project_id = ap (λ x. x.0.project_id) (sym same_one);
        env_id = ap (λ x. x.0.env_id) (sym same_one);
        folder_id = ap (λ x. x.0.folder_id) (sym same_one);
      }

  has_prefix-split : (t q : Text) → has_prefix t q ≡ true → (after : Text) × (t ≡ q ++ after)
  unfolding has_prefix
  has_prefix-split t [] h = (t, refl)
  has_prefix-split [] (c ∷ q) h = absurd (cc)
  has_prefix-split (d ∷ t) (c ∷ q) h =
      let (after, e) = has_prefix-split t q (ground arith) in (after, ground (arith, e))

  is_substring-split :
      (t q : Text)
      → is_substring t q ≡ true
      → (before : Text) × (after : Text) × (t ≡ before ++ (q ++ after))
  unfolding is_substring
  is_substring-split [] q h = let (after, e) = has_prefix-split [] q h in ([], after, e)
  is_substring-split (d ∷ t) q h = elim (Bool-cases (has_prefix (d ∷ t) q)) [
    | inl e ↦ let (after, k) = has_prefix-split (d ∷ t) q e in ([], after, k)
    | inr e ↦
        let (before, after, k) = is_substring-split t q (ground arith) in
        (d ∷ before, after, ap (λ x. d ∷ x) k)
  ]

  contains-Shows : (t q : Text) → contains p dek letters t q ≡ true → Shows q t
  unfolding contains
  contains-Shows t q h = is_substring-split (letters.to_lower t) q h

  hit_matches-Matches :
      (q : Text) (hit : SearchHit) (notes : Text)
      → hit_matches p dek letters q (hit, notes) ≡ true
      → Matches q hit notes
  unfolding hit_matches
  hit_matches-Matches q hit notes h = elim (Bool-cases (contains p dek letters hit.name q)) [
    | inl a ↦ by_name (contains-Shows _ q a)
    | inr a ↦ elim (Bool-cases (contains p dek letters notes q)) [
      | inl b ↦ by_notes (contains-Shows _ q b)
      | inr b ↦ elim (Bool-cases (contains p dek letters hit.folder_name q)) [
        | inl c ↦ by_folder (contains-Shows _ q c)
        | inr c ↦ elim (Bool-cases (contains p dek letters hit.env_name q)) [
          | inl d ↦ by_environment (contains-Shows _ q d)
          | inr d ↦ by_project (contains-Shows _ q (ground arith))
        ]
      ]
    ]
  ]

  -- A row of the list opens to the hit, and the hit or the row's notes match the query.
  abbrev pub IsHitOf : Text → List SecretWithPath → SearchHit → Type 0
  IsHitOf q rows hit =
      (r : SecretWithPath) × (notes : Text) × Memᴰ r rows × Opens r hit notes × Matches q hit notes

  later_rows :
      (q : Text) (r : SecretWithPath) (rows : List SecretWithPath) (found : List SearchHit)
      → All (IsHitOf q rows) found
      → All (IsHitOf q (r ∷ rows)) found
  later_rows q r rows [] h = tt
  later_rows q r rows (hit ∷ found) ((s, notes, m, e, t), h) =
      ((s, notes, Memᴰ.tail m, e, t), later_rows q r rows found h)

  pub search_rows-IsHitOf :
      (q : Text) (hits : ℕ) (rows : List SecretWithPath)
      → hits < max_hits
      → Ensures
          (λ _. Unit {0})
          (search_rows p dek letters q hits rows)
          (λ found _. (hits + length found ≤ max_hits) × All (IsHitOf q rows) found)
  unfolding search_rows
  search_rows-IsHitOf q hits [] n = Ensures-pure [] _ λ db k. (omega arith, tt)
  search_rows-IsHitOf q hits (r ∷ rows) n =
      Ensures-bind (open_hit p dek r) _ _ _ (Ensures-self _ _) λ opened. Ensures-known λ (w, e).
        Ensures-if (hit_matches p dek letters q opened) _ _ _
          (λ m.
            Ensures-if (leb max_hits (suc hits)) _ _ _
              (λ t. Ensures-pure _ _ λ db k. (
                omega arith,
                (
                  (
                    r,
                    opened.1,
                    Memᴰ.head refl,
                    open_hit-Opens r opened.0 opened.1 w e,
                    hit_matches-Matches q opened.0 opened.1 m,
                  ),
                  tt,
                ),
              ))
              (λ t.
                Ensures-bind _ _ _ _ (search_rows-IsHitOf q (suc hits) rows (ground arith)) λ more.
                  Ensures-pure _ _ λ db (l, all). (
                    omega arith,
                    (
                      (
                        r,
                        opened.1,
                        Memᴰ.head refl,
                        open_hit-Opens r opened.0 opened.1 w e,
                        hit_matches-Matches q opened.0 opened.1 m,
                      ),
                      later_rows q r rows more all,
                    ),
                  )))
          (λ m.
            Ensures-result (search_rows-IsHitOf q hits rows n)
              λ found (l, all). (l, later_rows q r rows found all))
