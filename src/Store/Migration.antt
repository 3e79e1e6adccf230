-- ===== src/Store/Migration.antt =====
-- `migrate` of internal/store/store.go. What each migration does to the schema and the rows is a
-- parameter, and so is what a database holds; the driver may fail any statement. The version that a file
-- holds is taken not to be negative.
use grafted_keys.Prelude.{
  ℕ, zero, suc, ◌+◌, ◌≤◌, ◌<◌, ◌≡◌, refl, ap, ◌∙◌, inl, inr, ◌⊎◌, Bool, false, List, [], ◌∷◌,
  if◌then◌else◌, ltb, length, drop, arith, Bool-cases,
}
use grafted_keys.Exec.{Error, Exec, Result, ok, err, pure, ◌>>◌, driver_failed, newer_schema}
use grafted_keys.Store.Schema.{next_fault}

-- What is stored, `user_version`, and the faults of the statements to come.
pub record Versioned (A : Type 0) : Type 0 where
  pub content : A
  pub user_version : ℕ
  pub faults : List Bool

module _ {A : Type 0} where
  unfoldable pub stmt : (Versioned A → Versioned A) → Exec (Versioned A) (Unit {0})
  stmt f s =
      let (fault, rest) = next_fault s.faults in
      if fault
      then (err driver_failed, record s { faults = rest })
      else (ok tt, f (record s { faults = rest }))

  -- A transaction that fails is rolled back.
  abbrev pub rolled_back :
      Versioned A → Result (Unit {0}) × Versioned A → Result (Unit {0}) × Versioned A
  rolled_back before (ok u, s) = (ok u, s)
  rolled_back before (err e, s) = (err e, record before { faults = s.faults })

  -- Its beginning, the migration, the new version, and the commit.
  unfoldable pub one_migration : (A → A) → ℕ → Exec (Versioned A) (Unit {0})
  unfolding stmt
  one_migration f n before = rolled_back before (
      (stmt (λ s. s)
          >> (stmt (λ s. record s { content = f s.content })
              >> (stmt (λ s. record s { user_version = n }) >> stmt λ s. s)))
        before)

  unfoldable pub run_each : List (A → A) → ℕ → Exec (Versioned A) (Unit {0})
  unfolding one_migration
  run_each [] i = pure tt
  run_each (f ∷ fs) i = one_migration f (suc i) >> run_each fs (suc i)

  unfoldable pub migrate : List (A → A) → Exec (Versioned A) (Unit {0})
  unfolding stmt run_each
  migrate migrations = stmt (λ s. s) >> λ s.
      if ltb (length migrations) s.user_version
      then (err newer_schema, s)
      else run_each (drop s.user_version migrations) s.user_version s

  -- What is stored once every outstanding migration is done.
  unfoldable pub migrated : List (A → A) → A → A
  migrated [] a = a
  migrated (f ∷ fs) a = migrated fs (f a)

  one_migration-cases :
      (f : A → A) (n : ℕ) (s : Versioned A)
      → (fs : List Bool) × (((e : Error) × (one_migration f n s
              ≡ (err e, record s { faults = fs })))
          ⊎ (one_migration f n s
              ≡ (ok tt, record { content = f s.content; user_version = n; faults = fs })))
  unfolding one_migration stmt
  one_migration-cases f n s =
      let a = next_fault s.faults in
      let b = next_fault a.1 in
      let c = next_fault b.1 in
      let d = next_fault c.1 in
      elim (Bool-cases a.0) [
        | inl e ↦ (a.1, inl (driver_failed, rw e refl))
        | inr e ↦ elim (Bool-cases b.0) [
          | inl g ↦ (b.1, inl (driver_failed, rw (e, g) refl))
          | inr g ↦ elim (Bool-cases c.0) [
            | inl h ↦ (c.1, inl (driver_failed, rw (e, g, h) refl))
            | inr h ↦ elim (Bool-cases d.0) [
              | inl k ↦ (d.1, inl (driver_failed, rw (e, g, h, k) refl))
              | inr k ↦ (d.1, inr (rw (e, g, h, k) refl))
            ]
          ]
        ]
      ]

  drop-suc :
      (i : ℕ) (ms fs : List (A → A)) (f : A → A)
      → drop i ms ≡ f ∷ fs
      → (drop (suc i) ms ≡ fs) × (i < length ms)
  drop-suc zero [] fs f h = absurd (cc)
  drop-suc zero (m ∷ ms) fs f h = (cc, omega arith)
  drop-suc (suc i) [] fs f h = absurd (cc)
  drop-suc (suc i) (m ∷ ms) fs f h = let (a, b) = drop-suc i ms fs f h in (a, omega (arith, b))

  length-drop : (i : ℕ) (ms : List (A → A)) → i ≤ length ms → i + length (drop i ms) ≡ length ms
  length-drop zero ms h = omega arith
  length-drop (suc i) [] h = absurd (omega arith)
  length-drop (suc i) (m ∷ ms) h = let e = length-drop i ms (omega arith) in omega (arith, e)

  drop-end : (i : ℕ) (ms : List (A → A)) → drop i ms ≡ [] → length ms ≤ i
  drop-end zero [] h = omega arith
  drop-end zero (m ∷ ms) h = absurd (cc)
  drop-end (suc i) [] h = omega arith
  drop-end (suc i) (m ∷ ms) h = let e = drop-end i ms h in omega (arith, e)

  -- However far the migrations got, the outstanding ones lead to the same content.
  record Leads (ms : List (A → A)) (a : A) (t : Versioned A) : Type 0 where
    outcome : migrated (drop t.user_version ms) t.content ≡ a
    supported : t.user_version ≤ length ms

  run_each-Leads :
      (ms fs : List (A → A)) (s : Versioned A)
      → drop s.user_version ms ≡ fs
      → s.user_version ≤ length ms
      → Leads ms (migrated fs s.content) (run_each fs s.user_version s).1
  unfolding run_each migrated
  run_each-Leads ms [] s h k = record { outcome = rw h refl; supported = k }
  run_each-Leads ms (f ∷ fs) s h k =
      let (rest, step) = one_migration-cases f (suc s.user_version) s in
      let (tail, more) = drop-suc s.user_version ms fs f h in
      elim step [
        | inl (e, q) ↦ rw q (record { outcome = rw h refl; supported = k })
        | inr q ↦ rw q (
            run_each-Leads ms fs
              (record { content = f s.content; user_version = suc s.user_version; faults = rest })
              tail (omega (arith, more)))
      ]

  run_each_done :
      (fs : List (A → A)) (s : Versioned A) (n : ℕ)
      → s.faults ≡ []
      → s.user_version + length fs ≡ n
      → run_each fs s.user_version s
        ≡ (ok tt, record { content = migrated fs s.content; user_version = n; faults = [] })
  unfolding run_each migrated one_migration stmt
  run_each_done [] s n h e =
      let v : s.user_version ≡ n = omega (arith, e) in
      λ i. (ok tt, record { content = s.content; user_version = v i; faults = h i })
  run_each_done (f ∷ fs) s n h e = rw h (
      run_each_done fs
        (record { content = f s.content; user_version = suc s.user_version; faults = [] }) n refl
        (omega (arith, e)))

  -- A start at which no statement fails.
  abbrev pub healed : Versioned A → Versioned A
  healed s = record s { faults = [] }

  migrate_done :
      (ms : List (A → A)) (s : Versioned A)
      → s.user_version ≤ length ms
      → migrate ms (healed s) ≡ (
        ok tt,
        record {
          content = migrated (drop s.user_version ms) s.content;
          user_version = length ms;
          faults = [];
        },
      )
  unfolding migrate stmt
  migrate_done ms s k =
      let old : ltb (length ms) s.user_version ≡ false = ground arith in
      rw old (
        run_each_done (drop s.user_version ms) (healed s) (length ms) refl
          (length-drop s.user_version ms k))

  migrate-Leads :
      (ms : List (A → A)) (s : Versioned A)
      → s.user_version ≤ length ms
      → Leads ms (migrated (drop s.user_version ms) s.content) (migrate ms s).1
  unfolding migrate stmt
  migrate-Leads ms s k =
      let old : ltb (length ms) s.user_version ≡ false = ground arith in
      elim (Bool-cases (next_fault s.faults).0) [
        | inl e ↦ rw e (record { outcome = refl; supported = k })
        | inr e ↦
            rw (e, old)
              (run_each-Leads ms (drop s.user_version ms)
                (record s { faults = (next_fault s.faults).1 }) refl k)
      ]

  -- Whichever statements fail when a database of a supported version is migrated, the next start at which none
  -- fails returns no error and ends where one undisturbed run would have ended: every outstanding migration is done once,
  -- in order, and the version is the last.
  pub migrate_resumes :
      (ms : List (A → A)) (s : Versioned A)
      → s.user_version ≤ length ms
      → migrate ms (healed (migrate ms s).1) ≡ (
        ok tt,
        record {
          content = migrated (drop s.user_version ms) s.content;
          user_version = length ms;
          faults = [];
        },
      )
  migrate_resumes ms s k =
      let reached = migrate-Leads ms s k in
      migrate_done ms (migrate ms s).1 reached.supported
      ∙ ap (λ (a : A). (ok tt, record { content = a; user_version = length ms; faults = [] }))
          reached.outcome
