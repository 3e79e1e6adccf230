-- ===== src/Vault/Search/Completeness.antt =====
-- `Search` of internal/vault/content.go misses nothing, up to its bound on the number of hits.
use grafted_keys.Prelude.{
  ℕ, suc, ◌+◌, ◌≤◌, ◌<◌, ◌≡◌, ◌⊎◌, inl, inr, refl, sym, ap, ◌∙◌, true, false, Bool-cases, List, [],
  ◌∷◌, ◌++◌, Bytes, Text, arith, leb, ltb, ◌==◌, codes, length, All,
}
use mathlib.Core.List.{Memᴰ}
use mathlib.Core.Path.{subst}
use grafted_keys.Exec.{ok, pure, bind_inversion, ok_injective}
use grafted_keys.Store.Schema.{World}
use grafted_keys.Store.Secrets.{SecretWithPath, all_secrets_with_path}
use grafted_keys.Crypto.{Primitives}
use grafted_keys.Vault.Items.{field}
use grafted_keys.Vault.Search.{
  Letters, SearchHit, has_prefix, is_substring, contains, open_folder_name, open_hit, hit_matches,
  search_rows, find_secrets, max_hits,
}
use grafted_keys.Vault.Search.Bounds.{
  Shows, Matches, by_name, by_notes, by_folder, by_environment, by_project, Opens, IsHitOf,
  search_rows-IsHitOf,
}

has_prefix-append : (q after : Text) → has_prefix (q ++ after) q ≡ true
unfolding has_prefix
has_prefix-append [] after = refl
has_prefix-append (c ∷ q) after = ground (arith, has_prefix-append q after)

is_substring-prefix : (t q : Text) → has_prefix t q ≡ true → is_substring t q ≡ true
unfolding is_substring
is_substring-prefix [] q h = h
is_substring-prefix (d ∷ t) q h = rw h refl

is_substring-append : (before q after : Text) → is_substring (before ++ (q ++ after)) q ≡ true
unfolding is_substring
is_substring-append [] q after = is_substring-prefix (q ++ after) q (has_prefix-append q after)
is_substring-append (d ∷ before) q after = ground (arith, is_substring-append before q after)

mem-nil : {A : Type 0} → (r : A) → Memᴰ r [] → ⊥
mem-nil r mem = elim mem [ ]

mem-cons : {A : Type 0} → (r x : A) (l : List A) → Memᴰ r (x ∷ l) → (r ≡ x) ⊎ Memᴰ r l
mem-cons r x l (Memᴰ.head e) = inl e
mem-cons r x l (Memᴰ.tail m) = inr m

module _ (p : Primitives) (dek : Bytes) (letters : Letters) where
  Shows-contains : (t q : Text) → Shows p dek letters q t → contains p dek letters t q ≡ true
  unfolding contains
  Shows-contains t q (before, after, e) = rw e (is_substring-append before q after)

  Matches-hit_matches :
      (q : Text) (hit : SearchHit) (notes : Text)
      → Matches p dek letters q hit notes
      → hit_matches p dek letters q (hit, notes) ≡ true
  unfolding hit_matches
  Matches-hit_matches q hit notes (by_name h) = ground (arith, Shows-contains hit.name q h)
  Matches-hit_matches q hit notes (by_notes h) = ground (arith, Shows-contains notes q h)
  Matches-hit_matches q hit notes (by_folder h) = ground (arith, Shows-contains hit.folder_name q h)
  Matches-hit_matches q hit notes (by_environment h) =
      ground (arith, Shows-contains hit.env_name q h)
  Matches-hit_matches q hit notes (by_project h) =
      ground (arith, Shows-contains hit.project_name q h)

  open_folder_name-opened :
      (r : SecretWithPath) (name : Text)
      → ((1 ≤ length r.folder_name)
          × (field p dek r.folder_name (codes "folder") r.folder_id (codes "name") ≡ ok name))
        ⊎ ((length r.folder_name ≡ 0) × (name ≡ []))
      → open_folder_name p dek r ≡ ok name
  unfolding open_folder_name
  open_folder_name-opened r name (inl (n, e)) =
      let k : ltb 0 (length r.folder_name) ≡ true = ground arith in rw k e
  open_folder_name-opened r name (inr (n, e)) =
      let k : ltb 0 (length r.folder_name) ≡ false = ground arith in rw k (ap ok (sym e))

  Opens-open_hit :
      (r : SecretWithPath) (hit : SearchHit) (notes : Text) (w : World)
      → Opens p dek letters r hit notes
      → (open_hit p dek r w).0 ≡ ok (hit, notes)
  unfolding open_hit
  Opens-open_hit r hit notes w o =
      rw
        (
          o.name,
          o.notes_of,
          o.project,
          o.environment,
          open_folder_name-opened r hit.folder_name o.folder,
        )
        (λ i. ok (
          record {
            secret_id = sym o.secret_id i;
            name = hit.name;
            project_id = sym o.project_id i;
            project_name = hit.project_name;
            env_id = sym o.env_id i;
            env_name = hit.env_name;
            folder_id = sym o.folder_id i;
            folder_name = hit.folder_name;
          },
          notes,
        ))

  search_rows_finds :
      (q : Text) (hits : ℕ) (rows : List SecretWithPath) (w : World) (found : List SearchHit)
      (r : SecretWithPath) (hit : SearchHit) (notes : Text)
      → (search_rows p dek letters q hits rows w).0 ≡ ok found
      → hits + length found < max_hits
      → Memᴰ r rows
      → Opens p dek letters r hit notes
      → Matches p dek letters q hit notes
      → Memᴰ hit found
  unfolding search_rows
  search_rows_finds q hits [] w found r hit notes h n mem o m = absurd (mem-nil r mem)
  search_rows_finds q hits (x ∷ rows) w found r hit notes h n mem o m =
      let (opened, oe, rest, _) = bind_inversion (open_hit p dek x) _ w found h in
      let here : r ≡ x → (hit, notes) ≡ opened = λ e. ok_injective _ _ (
        sym (Opens-open_hit x hit notes w (subst (λ y. Opens p dek letters y hit notes) e o))
        ∙ oe) in
      elim (Bool-cases (hit_matches p dek letters q opened)) [
        | inl b ↦ elim (Bool-cases (leb max_hits (suc hits))) [
          | inl c ↦
              let one = ap length (ok_injective (opened.0 ∷ []) found (rw (b, c) at rest)) in
              absurd (ground (arith, one, c, n))
          | inr c ↦
              let (more, me, last, _) =
                bind_inversion (search_rows p dek letters q (suc hits) rows)
                  (λ more. pure (opened.0 ∷ more)) _ found (rw (b, c) at rest) in
              let all = ok_injective (opened.0 ∷ more) found last in
              let longer = ap length all in
              subst (λ l. Memᴰ hit l) all
                (elim (mem-cons r x rows mem) [
                  | inl e ↦ Memᴰ.head (ap (λ y. y.0) (here e))
                  | inr t ↦ Memᴰ.tail (
                      search_rows_finds q (suc hits) rows _ more r hit notes me
                        (omega (arith, n, longer)) t o m)
                ])
        ]
        | inr b ↦ elim (mem-cons r x rows mem) [
          | inl e ↦
              let yes_match =
                subst (λ y. hit_matches p dek letters q y ≡ true) (here e)
                  (Matches-hit_matches q hit notes m) in
              absurd (cc)
          | inr t ↦ search_rows_finds q hits rows _ found r hit notes (rw b at rest) n t o m
        ]
      ]

  -- If `Search` returns without an error for a query that is not empty once it is trimmed and in lower
  -- case, the hits are at most a hundred. Each of them is of a row of the store, with the row's
  -- identifiers and the names that its fields open to, each for its own place; and that query is a part
  -- of one of these names or of the row's notes, in lower case. And either they are a hundred, or every
  -- such hit of a row is among them.
  pub find_secrets_exact :
      (query : Text) (w : World) (found : List SearchHit)
      → let q = letters.to_lower (letters.trim_space query) in
        1 ≤ length q
        → (find_secrets p dek letters query w).0 ≡ ok found
        → (rows : List SecretWithPath) × ((all_secrets_with_path w).0 ≡ ok rows)
          × (length found ≤ 100)
          × All (IsHitOf p dek letters q rows) found
          × ((length found ≡ 100)
              ⊎ ((hit : SearchHit) → IsHitOf p dek letters q rows hit → Memᴰ hit found))
  unfolding find_secrets
  find_secrets_exact query w found full h =
      let q = letters.to_lower (letters.trim_space query) in
      let set : (length q == 0) ≡ false = ground arith in
      let (rows, e, r, _) =
        bind_inversion all_secrets_with_path (search_rows p dek letters q 0) w found
          (rw set at h) in
      let (l, all) =
        (search_rows-IsHitOf p dek letters q 0 rows (omega arith)).at (all_secrets_with_path w).1
          found tt r in
      let finds : length found < 100
          → (hit : SearchHit) → IsHitOf p dek letters q rows hit
          → Memᴰ hit found =
        λ few hit (x, notes, mem, o, m).
          search_rows_finds q 0 rows (all_secrets_with_path w).1 found x hit notes r
            (omega (arith, few)) mem o m in
      (
        rows,
        e,
        omega (arith, l),
        all,
        elim (Bool-cases (ltb (length found) 100)) [
          | inl few ↦ inr (finds (ground arith))
          | inr many ↦ inl (ground (arith, l, many))
        ],
      )
